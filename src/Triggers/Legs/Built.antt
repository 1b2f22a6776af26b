-- ===== src/Triggers/Legs/Built.antt =====
-- The steps that a built leg went through: src/triggerOrders.ts.
use fermi_v1_sdk.Base.{
  ℕ, ◌≤◌, ◌<◌, ◌≡◌, inl, inr, refl, subst, arith, Bool, false, not, ◌&&◌, List, [], ◌∷◌, ok, err, ℤ,
  pos, negsuc, Number, whole, other, ◌==◌, max_safe, String, from_bind, from_throw, ok_injective,
  Bool-cases,
}
use fermi_v1_sdk.Platform.{Platform}
use fermi_v1_sdk.Intents.Payload.{encode_perp_place_order_v2}
use fermi_v1_sdk.Triggers.{i64_max, integer, market_index}
use fermi_v1_sdk.Triggers.Terms.{TriggerTerms, trigger_terms_commitment}
use fermi_v1_sdk.Triggers.Legs.{
  SlTpParams, SlTpLeg, LegOptions, Committed, is_long, is_short, check_size, slippage,
  direction_for, check_oracle, chosen_limit, not_marketable, first_salt, with_salt, order_fields,
  commit, leg_message, checked_limit, or_zero, build_trigger_order_leg,
}

pub integer_value :
    (z : ℤ) (most : ℕ) (label : String) (least : ℕ) {n : ℕ}
    → integer z most label least ≡ ok n
    → (z ≡ pos n) × (least ≤ n) × (n ≤ most)
unfolding integer
integer_value (pos m) most label least h = (ground arith, ground arith, ground arith)
integer_value (negsuc m) most label least h = cc

pub slippage_range : (v : Number) {n : ℕ} → slippage v ≡ ok n → (v ≡ whole (pos n)) × (n < 10000)
unfolding slippage
slippage_range (whole (pos m)) h = (ground arith, ground arith)
slippage_range (whole (negsuc m)) h = cc
slippage_range (other t) h = cc

module _ (W : Platform) where
  open W use {PublicKey}

  -- What the checks before the first draw establish.
  pub record Checked (params : SlTpParams PublicKey) (kind : ℕ) (trigger : ℤ) (options : LegOptions)
      (prices : ℕ × ℕ) : Type 0 where
    pub bps : ℕ
    pub bps_eq : params.slippage_bps ≡ whole (pos bps)
    pub bps_lt : bps < 10000
    pub trigger_eq : trigger ≡ pos prices.0
    pub price_positive : 1 ≤ prices.0
    pub price_fits : prices.0 ≤ i64_max
    pub limit_eq :
        chosen_limit options.limit_price_lots (is_long params.position) prices.0 bps ≡ pos prices.1
    pub limit_positive : 1 ≤ prices.1
    pub limit_fits : prices.1 ≤ i64_max
    pub marketable : not_marketable (is_long params.position) prices.1 prices.0 ≡ false
    pub oracle :
        check_oracle (direction_for (is_long params.position) kind) trigger params.oracle_price_lots
        ≡ ok tt
    pub position : (not (is_long params.position) && not (is_short params.position)) ≡ false

  checked_limit-Checked :
      (params : SlTpParams PublicKey) (kind : ℕ) (trigger : ℤ) (options : LegOptions)
      {prices : ℕ × ℕ}
      → checked_limit W params kind trigger options ≡ ok prices
      → Checked params kind trigger options prices
  unfolding checked_limit
  checked_limit-Checked params kind trigger options {prices} h =
      let long : Bool = is_long params.position in
      from_bind (market_index params.market_index) _ h λ m em h1.
        from_throw (not long && not (is_short params.position)) _ _ h1 λ tp h2.
          from_bind (check_size params.size) _ h2 λ u es h3.
            from_bind (slippage params.slippage_bps) _ h3 λ bps eb h4.
              from_bind (integer trigger i64_max "triggerPriceLots is out of range; use bigint" 1) _
                h4
                λ price ep h5.
                  from_bind
                    (check_oracle (direction_for long kind) trigger params.oracle_price_lots) _ h5
                    λ v eo h6.
                      from_bind
                        (integer (chosen_limit options.limit_price_lots long price bps) i64_max
                          "limitPriceLots is out of range; use bigint" 1)
                        _ h6
                        λ limit el h7. from_throw (not_marketable long limit price) _ _ h7 λ tm h8.
                          let (te, p1, p2) =
                            integer_value trigger i64_max
                              "triggerPriceLots is out of range; use bigint" 1 ep in
                          let (le, l1, l2) =
                            integer_value (chosen_limit options.limit_price_lots long price bps)
                              i64_max "limitPriceLots is out of range; use bigint" 1 el in
                          let (se, sl) = slippage_range params.slippage_bps eb in
                          subst (Checked params kind trigger options) (ok_injective h8) (record {
                            bps = bps;
                            bps_eq = se;
                            bps_lt = sl;
                            trigger_eq = te;
                            price_positive = p1;
                            price_fits = p2;
                            limit_eq = le;
                            limit_positive = l1;
                            limit_fits = l2;
                            marketable = tm;
                            oracle = eo;
                            position = tp;
                          })

  -- What the loop over the draws establishes: the salt is the first one or a later draw, and the
  -- commitment to the terms with it is not zero.
  pub record Committing (group account : PublicKey) (index : Number) (terms : TriggerTerms)
      (c : Committed) : Type 0 where
    pub salt : ℤ
    pub terms_eq : c.terms ≡ with_salt terms salt
    pub id_eq : trigger_terms_commitment W group account index c.terms ≡ ok c.id
    pub id_nonzero : 1 ≤ c.id

  commit-Committing :
      (group account : PublicKey) (index : Number) (terms : TriggerTerms) (draws : List ℕ)
      {c : Committed}
      → commit W group account index terms draws ≡ ok c
      → Committing group account index terms c
  unfolding commit
  commit-Committing group account index terms [] {c} h =
      from_bind (trigger_terms_commitment W group account index terms) _ h λ id e k.
        elim (Bool-cases (id == 0)) [
          | inl z ↦ let bad : err "no draw is left" ≡ ok c = rw z at k in cc
          | inr z ↦
              let good : ok (record { terms = terms; id = id; draws = [] }) ≡ ok c = rw z at k in
              subst (Committing group account index terms) (ok_injective good) (record {
                salt = terms.salt;
                terms_eq = refl;
                id_eq = e;
                id_nonzero = ground arith;
              })
        ]
  commit-Committing group account index terms (d ∷ ds) {c} h =
      from_bind (trigger_terms_commitment W group account index terms) _ h λ id e k.
        elim (Bool-cases (id == 0)) [
          | inl z ↦
              let again : commit W group account index (with_salt terms (pos d)) ds ≡ ok c =
                rw z at k in
              let r = commit-Committing group account index (with_salt terms (pos d)) ds again in
              record {
                salt = r.salt;
                terms_eq = r.terms_eq;
                id_eq = r.id_eq;
                id_nonzero = r.id_nonzero;
              }
          | inr z ↦
              let good : ok (record { terms = terms; id = id; draws = d ∷ ds }) ≡ ok c =
                rw z at k in
              subst (Committing group account index terms) (ok_injective good) (record {
                salt = terms.salt;
                terms_eq = refl;
                id_eq = e;
                id_nonzero = ground arith;
              })
        ]

  -- A built leg.
  pub record Built (params : SlTpParams PublicKey) (kind : ℕ) (trigger : ℤ) (options : LegOptions)
      (leg : SlTpLeg PublicKey) : Type 0 where
    pub prices : ℕ × ℕ
    pub checked : Checked params kind trigger options prices
    pub salt : ℤ
    pub id : ℕ
    pub expiry : ℕ
    pub terms_eq : leg.terms ≡ record {
      kind = kind;
      direction = direction_for (is_long params.position) kind;
      trigger_price_lots = trigger;
      oco_group = or_zero options.oco_group;
      expiry_ts = params.expiry_ts;
      salt = salt;
    }
    pub commitment_eq :
        trigger_terms_commitment W params.group params.fermi_account params.market_index leg.terms
        ≡ ok id
    pub id_eq : leg.client_order_id ≡ pos id
    pub id_nonzero : 1 ≤ id
    pub expiry_eq : params.expiry_ts ≡ pos expiry
    pub payload_eq :
        encode_perp_place_order_v2
          (order_fields (is_long params.position) prices.1 params.size id expiry)
        ≡ ok leg.payload
    pub message_eq : leg_message W params leg.payload (pos id) ≡ ok leg.intent_hash
    pub params_eq : leg.params ≡ params
    pub kind_eq : leg.kind ≡ kind

  pub build_trigger_order_leg-Built :
      (params : SlTpParams PublicKey) (kind : ℕ) (trigger : ℤ) (options : LegOptions)
      (draws : List ℕ) {r : SlTpLeg PublicKey × List ℕ}
      → build_trigger_order_leg W params kind trigger options draws ≡ ok r
      → Built params kind trigger options r.0
  unfolding build_trigger_order_leg
  build_trigger_order_leg-Built params kind trigger options draws {r} h =
      let long : Bool = is_long params.position in
      from_bind (checked_limit W params kind trigger options) _ h λ prices e1 h1.
        from_bind (first_salt options.salt draws) _ h1 λ salted e2 h2.
          let terms : TriggerTerms = record {
            kind = kind;
            direction = direction_for long kind;
            trigger_price_lots = trigger;
            oco_group = or_zero options.oco_group;
            expiry_ts = params.expiry_ts;
            salt = salted.0;
          } in
          from_bind (commit W params.group params.fermi_account params.market_index terms salted.1)
            _ h2
            λ c e3 h3.
              from_bind (integer params.expiry_ts max_safe "expiryTs is out of range; use bigint" 1)
                _ h3
                λ expiry e4 h4.
                  from_bind
                    (encode_perp_place_order_v2
                      (order_fields long prices.1 params.size c.id expiry))
                    _ h4
                    λ payload e5 h5.
                      from_bind (leg_message W params payload (pos c.id)) _ h5 λ message e6 h6.
                        let t =
                          commit-Committing params.group params.fermi_account params.market_index
                            terms salted.1 e3 in
                        let (ee, _, _) =
                          integer_value params.expiry_ts max_safe
                            "expiryTs is out of range; use bigint" 1 e4 in
                        subst
                          (λ (r : SlTpLeg PublicKey × List ℕ).
                            Built params kind trigger options r.0)
                          (ok_injective h6)
                          (record {
                            prices = prices;
                            checked = checked_limit-Checked params kind trigger options e1;
                            salt = t.salt;
                            id = c.id;
                            expiry = expiry;
                            terms_eq = t.terms_eq;
                            commitment_eq = t.id_eq;
                            id_eq = refl;
                            id_nonzero = t.id_nonzero;
                            expiry_eq = ee;
                            payload_eq = e5;
                            message_eq = e6;
                            params_eq = refl;
                            kind_eq = refl;
                          })
