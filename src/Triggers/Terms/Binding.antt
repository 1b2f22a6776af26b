-- ===== src/Triggers/Terms/Binding.antt =====
-- The bytes of a trigger order's terms determine them: src/triggerOrders.ts.
use fermi_v1_sdk.Base.{
  ℕ, ◌≤◌, ◌<◌, ◌≡◌, refl, sym, ◌∙◌, ap, arith, true, not, ◌∷◌, ◌++◌, ok, ℤ, pos, negsuc, Number,
  whole, other, length, from_bind, from_throw, ok_injective, append_cancel, cons_parts,
}
use fermi_v1_sdk.Wire.{Bytes, le_bytes, le_value, u64_max}
use fermi_v1_sdk.Wire.RoundTrip.{le_value-le_bytes, length-le_bytes, le_value-u64}
use fermi_v1_sdk.Platform.{Platform}
use fermi_v1_sdk.Triggers.{i64_max, integer, market_index, u16, u64}
use fermi_v1_sdk.Triggers.Terms.{TriggerTerms, terms_domain, known_codes, trigger_terms_bytes}

market_index_value :
    (v : Number) {n : ℕ} → market_index v ≡ ok n → (v ≡ whole (pos n)) × (n < 0xffff)
unfolding market_index
market_index_value (whole (pos m)) h = (ground arith, ground arith)
market_index_value (whole (negsuc m)) h = cc
market_index_value (other t) h = cc

pub u16_value :
    (v : Number) {bs : Bytes}
    → u16 v ≡ ok bs
    → (n : ℕ) × (v ≡ whole (pos n)) × (n ≤ 0xffff) × (bs ≡ le_bytes 2 n)
unfolding u16
u16_value (whole (pos m)) h = (m, refl, ground arith, ground arith)
u16_value (whole (negsuc m)) h = cc
u16_value (other t) h = cc

pub u64_value :
    (v : ℤ) {bs : Bytes}
    → u64 v ≡ ok bs
    → (n : ℕ) × (v ≡ pos n) × (n ≤ u64_max) × (bs ≡ le_bytes 8 n)
unfolding u64 integer
u64_value (pos m) h = (m, refl, ground arith, ground arith)
u64_value (negsuc m) h = cc

price_value :
    (v : ℤ) {n : ℕ}
    → integer v i64_max "triggerPriceLots is out of range; use bigint" 1 ≡ ok n
    → (v ≡ pos n) × (1 ≤ n) × (n ≤ i64_max)
unfolding integer
price_value (pos m) h = (ground arith, ground arith, ground arith)
price_value (negsuc m) h = cc

pub u64_bytes_injective :
    (m n : ℕ) → m ≤ u64_max → n ≤ u64_max → le_bytes 8 m ≡ le_bytes 8 n → m ≡ n
u64_bytes_injective m n hm hn e = sym (le_value-u64 m hm) ∙ ap le_value e ∙ le_value-u64 n hn

pub u16_bytes_injective : (m n : ℕ) → m ≤ 0xffff → n ≤ 0xffff → le_bytes 2 m ≡ le_bytes 2 n → m ≡ n
u16_bytes_injective m n hm hn e =
    sym (le_value-le_bytes 2 m (omega arith)) ∙ ap le_value e ∙ le_value-le_bytes 2 n (omega arith)

module _ (W : Platform) where
  open W use {PublicKey, to_bytes, length-to_bytes, to_bytes_injective}

  pub same_length : (a b : PublicKey) → length (to_bytes a) ≡ length (to_bytes b)
  same_length a b = length-to_bytes a ∙ sym (length-to_bytes b)

  -- The numbers in the bytes of the terms.
  pub record TermsBytes (group account : PublicKey) (index : Number) (terms : TriggerTerms)
      (bs : Bytes) : Type 0 where
    pub market : ℕ
    pub price : ℕ
    pub oco : ℕ
    pub expiry : ℕ
    pub salt : ℕ
    pub market_eq : index ≡ whole (pos market)
    pub market_fits : market ≤ 0xffff
    pub price_eq : terms.trigger_price_lots ≡ pos price
    pub price_positive : 1 ≤ price
    pub price_fits : price ≤ u64_max
    pub oco_eq : terms.oco_group ≡ pos oco
    pub oco_fits : oco ≤ u64_max
    pub expiry_eq : terms.expiry_ts ≡ pos expiry
    pub expiry_fits : expiry ≤ u64_max
    pub salt_eq : terms.salt ≡ pos salt
    pub salt_fits : salt ≤ u64_max
    pub codes_known : known_codes terms.kind terms.direction ≡ true
    pub bytes_eq :
        bs
        ≡ terms_domain
          ++ (to_bytes group
              ++ (to_bytes account
                  ++ (le_bytes 2 market
                      ++ (1
                          ∷ terms.kind
                          ∷ terms.direction
                          ∷ 0
                          ∷ 0
                          ∷ (le_bytes 8 price
                              ++ (le_bytes 8 oco ++ (le_bytes 8 expiry ++ le_bytes 8 salt)))))))

  pub trigger_terms_bytes-TermsBytes :
      (group account : PublicKey) (index : Number) (terms : TriggerTerms) {bs : Bytes}
      → trigger_terms_bytes W group account index terms ≡ ok bs
      → TermsBytes group account index terms bs
  unfolding trigger_terms_bytes
  trigger_terms_bytes-TermsBytes group account index terms {bs} h =
      from_bind (market_index index) _ h λ m em h1.
        from_throw (not (known_codes terms.kind terms.direction)) _ _ h1 λ tc h2.
          from_bind
            (integer terms.trigger_price_lots i64_max "triggerPriceLots is out of range; use bigint"
              1)
            _ h2
            λ price ep h3.
              from_bind (integer terms.expiry_ts u64_max "expiryTs is out of range; use bigint" 1) _
                h3
                λ e ee h4. from_bind (u16 index) _ h4 λ mb emb h5.
                  from_bind (u64 terms.oco_group) _ h5 λ ob eob h6.
                    from_bind (u64 terms.expiry_ts) _ h6 λ xb exb h7.
                      from_bind (u64 terms.salt) _ h7 λ sb esb h8.
                        let (market, me, mf, mbe) = u16_value index emb in
                        let (pe, p1, p2) = price_value terms.trigger_price_lots ep in
                        let (oco, oe, of, obe) = u64_value terms.oco_group eob in
                        let (expiry, xe, xf, xbe) = u64_value terms.expiry_ts exb in
                        let (salt, se, sf, sbe) = u64_value terms.salt esb in
                        record {
                          market = market;
                          price = price;
                          oco = oco;
                          expiry = expiry;
                          salt = salt;
                          market_eq = me;
                          market_fits = mf;
                          price_eq = pe;
                          price_positive = p1;
                          price_fits = omega arith;
                          oco_eq = oe;
                          oco_fits = of;
                          expiry_eq = xe;
                          expiry_fits = xf;
                          salt_eq = se;
                          salt_fits = sf;
                          codes_known = ground arith;
                          bytes_eq = sym (ok_injective h8) ∙ rw (mbe, obe, xbe, sbe) refl;
                        }

  -- The same bytes stand for the same group, account, market and terms, in every field: the hash that
  -- is the client order id commits to the whole order trigger.
  pub trigger_terms_bytes-binds :
      (g h a b : PublicKey) (i j : Number) (s t : TriggerTerms) {bs : Bytes}
      → trigger_terms_bytes W g a i s ≡ ok bs
      → trigger_terms_bytes W h b j t ≡ ok bs
      → (g ≡ h) × (a ≡ b) × (i ≡ j) × (s ≡ t)
  trigger_terms_bytes-binds g h a b i j s t hs ht =
      let x = trigger_terms_bytes-TermsBytes g a i s hs in
      let y = trigger_terms_bytes-TermsBytes h b j t ht in
      let (_, e0) = append_cancel terms_domain terms_domain refl (sym x.bytes_eq ∙ y.bytes_eq) in
      let (eg, e1) = append_cancel (to_bytes g) (to_bytes h) (same_length g h) e0 in
      let (ea, e2) = append_cancel (to_bytes a) (to_bytes b) (same_length a b) e1 in
      let (em, e3) =
        append_cancel (le_bytes 2 x.market) (le_bytes 2 y.market)
          (length-le_bytes 2 x.market ∙ sym (length-le_bytes 2 y.market)) e2 in
      let (_, e4) = cons_parts e3 in
      let (ek, e5) = cons_parts e4 in
      let (ed, e6) = cons_parts e5 in
      let (_, e7) = cons_parts e6 in
      let (_, e8) = cons_parts e7 in
      let (ep, e9) =
        append_cancel (le_bytes 8 x.price) (le_bytes 8 y.price)
          (length-le_bytes 8 x.price ∙ sym (length-le_bytes 8 y.price)) e8 in
      let (eo, e10) =
        append_cancel (le_bytes 8 x.oco) (le_bytes 8 y.oco)
          (length-le_bytes 8 x.oco ∙ sym (length-le_bytes 8 y.oco)) e9 in
      let (ex, es) =
        append_cancel (le_bytes 8 x.expiry) (le_bytes 8 y.expiry)
          (length-le_bytes 8 x.expiry ∙ sym (length-le_bytes 8 y.expiry)) e10 in
      let price : s.trigger_price_lots ≡ t.trigger_price_lots =
        x.price_eq
        ∙ ap pos (u64_bytes_injective x.price y.price x.price_fits y.price_fits ep)
        ∙ sym y.price_eq in
      let oco : s.oco_group ≡ t.oco_group =
        x.oco_eq
        ∙ ap pos (u64_bytes_injective x.oco y.oco x.oco_fits y.oco_fits eo)
        ∙ sym y.oco_eq in
      let expiry : s.expiry_ts ≡ t.expiry_ts =
        x.expiry_eq
        ∙ ap pos (u64_bytes_injective x.expiry y.expiry x.expiry_fits y.expiry_fits ex)
        ∙ sym y.expiry_eq in
      let salt : s.salt ≡ t.salt =
        x.salt_eq
        ∙ ap pos (u64_bytes_injective x.salt y.salt x.salt_fits y.salt_fits es)
        ∙ sym y.salt_eq in
      (
        to_bytes_injective g h eg,
        to_bytes_injective a b ea,
        x.market_eq
            ∙ ap (λ n. whole (pos n))
                (u16_bytes_injective x.market y.market x.market_fits y.market_fits em)
            ∙ sym y.market_eq,
        λ k. record {
          kind = ek k;
          direction = ed k;
          trigger_price_lots = price k;
          oco_group = oco k;
          expiry_ts = expiry k;
          salt = salt k;
        },
      )
