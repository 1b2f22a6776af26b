-- ===== src/Triggers/Request/Intact.antt =====
-- Exactly which legs may be sent: src/triggerOrders.ts.
use fermi_v1_sdk.Base.{
  not-false, ℕ, ◌≡◌, ◌↔◌, refl, sym, ◌∙◌, ap, arith, Bool, true, false, not, ◌&&◌, Option, none,
  some, get_elem?, ok, pos, eq_ℤ, eq_ℤ→eq, eq_ℤ_refl, Text, text_eq, text_eq→eq, text_eq_refl,
  length, ◌==◌, from_bind, from_throw, IsOk, ==_iff, ==_refl,
}
use fermi_v1_sdk.Wire.{Bytes, read_u64}
use fermi_v1_sdk.Platform.{Platform}
use fermi_v1_sdk.Triggers.Terms.{trigger_terms_commitment}
use fermi_v1_sdk.Triggers.Legs.{SlTpLeg, leg_message}
use fermi_v1_sdk.Triggers.Request.{
  SubmitIntentRequest, byte_is, leg_intact, signature_valid, assert_signature,
  trigger_order_request,
}

six :
    (a b c d e f : Bool)
    → (a && (b && (c && (d && (e && f))))) ≡ true
    → (a ≡ true) × (b ≡ true) × (c ≡ true) × (d ≡ true) × (e ≡ true) × (f ≡ true)
six a b c d e f h =
    (ground arith, ground arith, ground arith, ground arith, ground arith, ground arith)

byte_is-some : (bytes : Bytes) (i v : ℕ) → byte_is bytes i v ≡ true → get_elem? bytes i ≡ some v
byte_is-some bytes i v h = go (get_elem? bytes i) h
  where
    go : (o : Option ℕ) → elim o [ none ↦ false | some b ↦ b == v ] ≡ true → o ≡ some v
    go none h = cc
    go (some b) h = ground arith

byte_is_of : (bytes : Bytes) (i v : ℕ) → get_elem? bytes i ≡ some v → byte_is bytes i v ≡ true
byte_is_of bytes i v h = rw (h, byte_is) (==_refl v)

module _ (W : Platform) where
  open W use {PublicKey}

  -- A leg that still is what its owner signed.
  pub record Intact (leg : SlTpLeg PublicKey) (signature : Bytes) : Type 0 where
    pub id : ℕ
    pub commitment_eq :
        trigger_terms_commitment W leg.params.group leg.params.fermi_account leg.params.market_index
          leg.terms
        ≡ ok id
    pub id_eq : leg.client_order_id ≡ pos id
    pub size : length leg.payload ≡ 49
    pub id_written : read_u64 leg.payload 29 ≡ id
    pub expiry_written : leg.terms.expiry_ts ≡ pos (read_u64 leg.payload 40)
    pub immediate : get_elem? leg.payload 37 ≡ some 1
    pub reduce_only : get_elem? leg.payload 39 ≡ some 1
    pub message_eq : leg_message W leg.params leg.payload leg.client_order_id ≡ ok leg.intent_hash
    pub signed : signature_valid W leg.intent_hash signature leg.params.signer ≡ true

  intact_parts :
      (leg : SlTpLeg PublicKey) (c : ℕ)
      → leg_intact W leg c ≡ true
      → (leg.client_order_id ≡ pos c)
        × (length leg.payload ≡ 49)
        × (read_u64 leg.payload 29 ≡ c)
        × (leg.terms.expiry_ts ≡ pos (read_u64 leg.payload 40))
        × (get_elem? leg.payload 37 ≡ some 1)
        × (get_elem? leg.payload 39 ≡ some 1)
  unfolding leg_intact
  intact_parts leg c h =
      let e =
        six (eq_ℤ (pos c) leg.client_order_id) (length leg.payload == 49)
          (read_u64 leg.payload 29 == c) (eq_ℤ (pos (read_u64 leg.payload 40)) leg.terms.expiry_ts)
          (byte_is leg.payload 37 1) (byte_is leg.payload 39 1) h in
      (
        sym (eq_ℤ→eq (pos c) leg.client_order_id e.0),
        (==_iff (length leg.payload) 49).0 e.1,
        (==_iff (read_u64 leg.payload 29) c).0 e.2,
        sym (eq_ℤ→eq (pos (read_u64 leg.payload 40)) leg.terms.expiry_ts e.3),
        byte_is-some leg.payload 37 1 e.4,
        byte_is-some leg.payload 39 1 e.5,
      )

  pub request-Intact :
      (leg : SlTpLeg PublicKey) (signature : Bytes) (fee : Text) {r : SubmitIntentRequest}
      → trigger_order_request W leg signature fee ≡ ok r
      → Intact leg signature
  unfolding trigger_order_request assert_signature
  request-Intact leg signature fee h =
      from_bind
        (trigger_terms_commitment W leg.params.group leg.params.fermi_account
          leg.params.market_index leg.terms)
        _ h
        λ c ec h1. from_throw (not (leg_intact W leg c)) _ _ h1 λ t1 h2.
          from_bind (leg_message W leg.params leg.payload leg.client_order_id) _ h2 λ m em h3.
            from_throw (not (text_eq m leg.intent_hash)) _ _ h3 λ t2 h4.
              from_throw (not (signature_valid W leg.intent_hash signature leg.params.signer)) _ _
                h4
                λ t3 h5.
                  let (e1, e2, e3, e4, e5, e6) =
                    intact_parts leg c (not-false (leg_intact W leg c) t1) in
                  record {
                    id = c;
                    commitment_eq = ec;
                    id_eq = e1;
                    size = e2;
                    id_written = e3;
                    expiry_written = e4;
                    immediate = e5;
                    reduce_only = e6;
                    message_eq = em ∙ ap ok (text_eq→eq m leg.intent_hash (not-false _ t2));
                    signed = not-false _ t3;
                  }

  leg_intact-true :
      (leg : SlTpLeg PublicKey) (signature : Bytes) (i : Intact leg signature)
      → leg_intact W leg i.id ≡ true
  unfolding leg_intact
  leg_intact-true leg signature i =
      rw
        (
          i.id_eq,
          i.size,
          i.id_written,
          i.expiry_written,
          byte_is_of leg.payload 37 1 i.immediate,
          byte_is_of leg.payload 39 1 i.reduce_only,
          eq_ℤ_refl (pos i.id),
          eq_ℤ_refl (pos (read_u64 leg.payload 40)),
        )
        refl

  Intact-request :
      (leg : SlTpLeg PublicKey) (signature : Bytes) (fee : Text)
      → Intact leg signature
      → IsOk (trigger_order_request W leg signature fee)
  unfolding trigger_order_request assert_signature
  Intact-request leg signature fee i =
      rw
        (
          i.commitment_eq,
          leg_intact-true leg signature i,
          i.message_eq,
          text_eq_refl leg.intent_hash,
          i.signed,
        )
        (_, refl)

  -- A leg is sent exactly when its terms still commit to its client order id, its payload has the 49
  -- bytes of an immediate-or-cancel, reduce-only order with that id and with the expiry of the terms,
  -- its hash is the message of its own parameters and payload, and the signature is its signer's.
  pub request_iff :
      (leg : SlTpLeg PublicKey) (signature : Bytes) (fee : Text)
      → IsOk (trigger_order_request W leg signature fee) ↔ Intact leg signature
  request_iff leg signature fee =
      (λ r. request-Intact leg signature fee r.1, Intact-request leg signature fee)
