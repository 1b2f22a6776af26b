-- ===== src/Triggers/Cancel/Binding.antt =====
-- The bytes of a cancellation determine what is cancelled: src/triggerOrders.ts.
use fermi_v1_sdk.Base.{
  not-false, ℕ, zero, suc, ◌≤◌, ◌≡◌, refl, sym, ◌∙◌, ap, ap₂, arith, Bool, true, false, not, ◌&&◌,
  ◌||◌, List, [], ◌∷◌, ◌++◌, ok, ℤ, pos, Number, whole, length, ◌==◌, ltb, Text, text_eq,
  text_eq→eq, text_eq_refl, pos_part, other, from_bind, from_throw, ok_injective, append_cancel,
  cons_parts, Bool-cases, inl, inr,
}
use fermi_v1_sdk.Wire.{Bytes}
use fermi_v1_sdk.Wire.RoundTrip.{length-le_bytes}
use fermi_v1_sdk.Platform.{Platform}
use fermi_v1_sdk.Triggers.{u16, u64}
use fermi_v1_sdk.Triggers.Terms.Binding.{
  u16_value, u64_value, u64_bytes_injective, u16_bytes_injective, same_length,
}
use fermi_v1_sdk.Triggers.Cancel.{
  TriggerCancelParams, cancel_domain, scope_ids, scope_oco_group, scope_all, known_scope,
  scope_code, no_group, ids_of, check_market, market_or_any, group_or_zero, ids_bytes,
  cancel_message_bytes,
}

scope_text : ℕ → Text
scope_text zero = scope_ids
scope_text (suc zero) = scope_oco_group
scope_text (suc (suc n)) = scope_all

scope_text-scope_code :
    (scope : Text) → known_scope scope ≡ true → scope ≡ scope_text (scope_code scope)
unfolding scope_code scope_text
scope_text-scope_code scope h = elim (Bool-cases (text_eq scope scope_ids)) [
  | inl e ↦ rw e (text_eq→eq scope scope_ids e)
  | inr e ↦ elim (Bool-cases (text_eq scope scope_oco_group)) [
    | inl f ↦ rw (e, f) (text_eq→eq scope scope_oco_group f)
    | inr f ↦ rw (e, f) (text_eq→eq scope scope_all (rw (e, f) at h))
  ]
]

scope_code_injective :
    (s t : Text) → known_scope s ≡ true → known_scope t ≡ true → scope_code s ≡ scope_code t → s ≡ t
scope_code_injective s t hs ht e =
    scope_text-scope_code s hs ∙ ap scope_text e ∙ sym (scope_text-scope_code t ht)

u64_parts :
    (a b : ℤ) {x y us vs : Bytes}
    → u64 a ≡ ok x
    → u64 b ≡ ok y
    → x ++ us ≡ y ++ vs
    → (a ≡ b) × (us ≡ vs)
u64_parts a b {x} {y} ha hb e =
    let (m, ma, mf, mx) = u64_value a ha in
    let (n, nb, nf, ny) = u64_value b hb in
    let (exy, rest) =
      append_cancel x y
        (ap length mx ∙ length-le_bytes 8 m ∙ sym (length-le_bytes 8 n) ∙ sym (ap length ny)) e in
    (ma ∙ ap pos (u64_bytes_injective m n mf nf (sym mx ∙ exy ∙ ny)) ∙ sym nb, rest)

u16_parts :
    (a b : Number) {x y us vs : Bytes}
    → u16 a ≡ ok x
    → u16 b ≡ ok y
    → x ++ us ≡ y ++ vs
    → (a ≡ b) × (us ≡ vs)
u16_parts a b {x} {y} ha hb e =
    let (m, ma, mf, mx) = u16_value a ha in
    let (n, nb, nf, ny) = u16_value b hb in
    let (exy, rest) =
      append_cancel x y
        (ap length mx ∙ length-le_bytes 2 m ∙ sym (length-le_bytes 2 n) ∙ sym (ap length ny)) e in
    (
      ma ∙ ap (λ k. whole (pos k)) (u16_bytes_injective m n mf nf (sym mx ∙ exy ∙ ny)) ∙ sym nb,
      rest,
    )

ids_bytes_injective :
    (is js : List ℤ) {bs : Bytes}
    → length is ≡ length js
    → ids_bytes is ≡ ok bs
    → ids_bytes js ≡ ok bs
    → is ≡ js
unfolding ids_bytes
ids_bytes_injective [] [] l hi hj = refl
ids_bytes_injective [] (j ∷ js) l hi hj = absurd (omega arith)
ids_bytes_injective (i ∷ is) [] l hi hj = absurd (omega arith)
ids_bytes_injective (i ∷ is) (j ∷ js) l hi hj = from_bind (u64 i) _ hi λ a ea ka.
    from_bind (ids_bytes is) _ ka λ us eus kus. from_bind (u64 j) _ hj λ b eb kb.
      from_bind (ids_bytes js) _ kb λ vs evs kvs.
        let (h, t) = u64_parts i j ea eb (ok_injective (kus ∙ sym kvs)) in
        ap₂ ◌∷◌ h (ids_bytes_injective is js (omega arith) eus (evs ∙ ap ok (sym t)))

at_least_one :
    (is_ids : Bool) (n : ℕ) → (ltb 0xffff n || is_ids && n == 0) ≡ false → is_ids ≡ true → 1 ≤ n
at_least_one is_ids n h e = ground arith

count_of : Number → ℕ
count_of (whole z) = pos_part z
count_of (other t) = 0

same_count : (m n : ℕ) → whole (pos m) ≡ whole (pos n) → m ≡ n
unfolding count_of
same_count m n e = ap count_of e

module _ (W : Platform) where
  open W use {PublicKey, to_bytes, to_bytes_injective}

  -- The parts of the bytes of a cancellation.
  record CancelBytes (p : TriggerCancelParams PublicKey) (bs : Bytes) : Type 0 where
    issued : Bytes
    market : Bytes
    oco : Bytes
    count : Bytes
    ids : Bytes
    known : known_scope p.scope ≡ true
    some_id : p.scope ≡ scope_ids → 1 ≤ length (ids_of p.client_order_ids)
    issued_eq : u64 p.issued_at_ms ≡ ok issued
    market_eq : u16 (market_or_any p.market_index) ≡ ok market
    oco_eq : u64 (group_or_zero p.oco_group) ≡ ok oco
    count_eq : u16 (whole (pos (length (ids_of p.client_order_ids)))) ≡ ok count
    ids_eq : ids_bytes (ids_of p.client_order_ids) ≡ ok ids
    bytes_eq :
        bs
        ≡ cancel_domain
          ++ (to_bytes p.group
              ++ (to_bytes p.fermi_account
                  ++ (to_bytes p.signer
                      ++ (issued ++ (scope_code p.scope ∷ (market ++ (oco ++ (count ++ ids))))))))

  cancel_message_bytes-CancelBytes :
      (p : TriggerCancelParams PublicKey) {bs : Bytes}
      → cancel_message_bytes W p ≡ ok bs
      → CancelBytes p bs
  unfolding cancel_message_bytes
  cancel_message_bytes-CancelBytes p h =
      let n : ℕ = length (ids_of p.client_order_ids) in
      from_throw (not (known_scope p.scope)) _ _ h λ t1 h1.
        from_throw (ltb 0xffff n || text_eq p.scope scope_ids && n == 0) _ _ h1 λ t2 h2.
          from_throw (text_eq p.scope scope_oco_group && no_group p.oco_group) _ _ h2 λ t3 h3.
            from_bind (check_market p.market_index) _ h3 λ u em h4.
              from_bind (u64 p.issued_at_ms) _ h4 λ issued ei h5.
                from_bind (u16 (market_or_any p.market_index)) _ h5 λ market ema h6.
                  from_bind (u64 (group_or_zero p.oco_group)) _ h6 λ oco eo h7.
                    from_bind (u16 (whole (pos n))) _ h7 λ count ec h8.
                      from_bind (ids_bytes (ids_of p.client_order_ids)) _ h8 λ ids ed h9. record {
                        issued = issued;
                        market = market;
                        oco = oco;
                        count = count;
                        ids = ids;
                        known = not-false (known_scope p.scope) t1;
                        some_id = λ e.
                            at_least_one (text_eq p.scope scope_ids) n t2
                              (rw e (text_eq_refl scope_ids));
                        issued_eq = ei;
                        market_eq = ema;
                        oco_eq = eo;
                        count_eq = ec;
                        ids_eq = ed;
                        bytes_eq = sym (ok_injective h9);
                      }

  -- Two cancellations that agree in everything that is signed.
  pub record SameCancel (p q : TriggerCancelParams PublicKey) : Type 0 where
    pub group : p.group ≡ q.group
    pub fermi_account : p.fermi_account ≡ q.fermi_account
    pub signer : p.signer ≡ q.signer
    pub issued : p.issued_at_ms ≡ q.issued_at_ms
    pub scope : p.scope ≡ q.scope
    pub market : market_or_any p.market_index ≡ market_or_any q.market_index
    pub oco : group_or_zero p.oco_group ≡ group_or_zero q.oco_group
    pub ids : ids_of p.client_order_ids ≡ ids_of q.client_order_ids

  -- Two cancellations with the same bytes before hashing agree in group, account, signer, time, scope,
  -- market, OCO group and the whole list of client order ids, an absent market, group or list being
  -- the value that is sent for it.
  pub cancel_message-binds :
      (p q : TriggerCancelParams PublicKey) {bs : Bytes}
      → cancel_message_bytes W p ≡ ok bs
      → cancel_message_bytes W q ≡ ok bs
      → SameCancel p q
  cancel_message-binds p q hp hq =
      let x = cancel_message_bytes-CancelBytes p hp in
      let y = cancel_message_bytes-CancelBytes q hq in
      let (_, e0) = append_cancel cancel_domain cancel_domain refl (sym x.bytes_eq ∙ y.bytes_eq) in
      let (eg, e1) = append_cancel _ _ (same_length W p.group q.group) e0 in
      let (ea, e2) = append_cancel _ _ (same_length W p.fermi_account q.fermi_account) e1 in
      let (es, e3) = append_cancel _ _ (same_length W p.signer q.signer) e2 in
      let (ei, e4) = u64_parts p.issued_at_ms q.issued_at_ms x.issued_eq y.issued_eq e3 in
      let (ec, e5) = cons_parts e4 in
      let (em, e6) =
        u16_parts (market_or_any p.market_index) (market_or_any q.market_index) x.market_eq
          y.market_eq e5 in
      let (eo, e7) =
        u64_parts (group_or_zero p.oco_group) (group_or_zero q.oco_group) x.oco_eq y.oco_eq e6 in
      let (en, e8) =
        u16_parts (whole (pos (length (ids_of p.client_order_ids))))
          (whole (pos (length (ids_of q.client_order_ids)))) x.count_eq y.count_eq e7 in
      record {
        group = to_bytes_injective p.group q.group eg;
        fermi_account = to_bytes_injective p.fermi_account q.fermi_account ea;
        signer = to_bytes_injective p.signer q.signer es;
        issued = ei;
        scope = scope_code_injective p.scope q.scope x.known y.known ec;
        market = em;
        oco = eo;
        ids =
            ids_bytes_injective (ids_of p.client_order_ids) (ids_of q.client_order_ids)
              (same_count (length (ids_of p.client_order_ids)) (length (ids_of q.client_order_ids))
                en)
              x.ids_eq (y.ids_eq ∙ ap ok (sym e8));
      }
