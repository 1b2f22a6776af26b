-- ===== src/Triggers/Request/Sent.antt =====
-- What a keeper reads from a request: src/triggerOrders.ts.
use fermi_v1_sdk.Base.{
  ℕ, ◌≡◌, refl, subst, not, ok, ℤ, pos, Text, Number, whole, text_eq, from_bind, from_throw,
  ok_injective, decimal_value, decimal_value-decimal, integer_text, number_text,
}
use fermi_v1_sdk.Wire.{Bytes}
use fermi_v1_sdk.Platform.{Platform}
use fermi_v1_sdk.Triggers.Terms.{trigger_terms_commitment, trigger_terms_bytes}
use fermi_v1_sdk.Triggers.Terms.Binding.{TermsBytes, trigger_terms_bytes-TermsBytes}
use fermi_v1_sdk.Triggers.Legs.{SlTpLeg, leg_message}
use fermi_v1_sdk.Triggers.Request.{
  SubmitIntentRequest, signature_valid, assert_signature, trigger_order_request, wire_terms,
  leg_intact,
}
use fermi_v1_sdk.Triggers.Request.Intact.{Intact, request-Intact}

-- The text of an integer that is not negative stands for it.
written : (z : ℤ) (n : ℕ) → z ≡ pos n → z ≡ pos (decimal_value (integer_text z))
unfolding integer_text
written z n e = rw (e, decimal_value-decimal n) refl

market_written :
    (v : Number) (n : ℕ) → v ≡ whole (pos n) → v ≡ whole (pos (decimal_value (number_text v)))
unfolding number_text integer_text
market_written v n e = rw (e, decimal_value-decimal n) refl

module _ (W : Platform) where
  open W use {PublicKey}

  pub record Sent (leg : SlTpLeg PublicKey) (signature : Bytes) (r : SubmitIntentRequest)
      : Type 0 where
    pub payload : r.payload ≡ leg.payload
    pub signature_eq : r.user_signature ≡ signature
    pub market : leg.params.market_index ≡ whole (pos (decimal_value r.market))
    pub id : leg.client_order_id ≡ pos (decimal_value r.client_order_id)
    pub kind : r.trigger_order.kind ≡ leg.terms.kind
    pub direction : r.trigger_order.direction ≡ leg.terms.direction
    pub price :
        leg.terms.trigger_price_lots ≡ pos (decimal_value r.trigger_order.trigger_price_lots)
    pub oco : leg.terms.oco_group ≡ pos (decimal_value r.trigger_order.oco_group)
    pub expiry : leg.terms.expiry_ts ≡ pos (decimal_value r.trigger_order.expiry_ts)
    pub salt : leg.terms.salt ≡ pos (decimal_value r.trigger_order.salt)

  Sent-of :
      (leg : SlTpLeg PublicKey) (signature bytes : Bytes) (fee : Text) {r : SubmitIntentRequest}
      → TermsBytes W leg.params.group leg.params.fermi_account leg.params.market_index leg.terms
          bytes
      → Intact W leg signature
      → trigger_order_request W leg signature fee ≡ ok r
      → Sent leg signature r
  unfolding trigger_order_request assert_signature wire_terms
  Sent-of leg signature bytes fee t i h =
      from_bind
        (trigger_terms_commitment W leg.params.group leg.params.fermi_account
          leg.params.market_index leg.terms)
        _ h
        λ c ec h1. from_throw (not (leg_intact W leg c)) _ _ h1 λ t1 h2.
          from_bind (leg_message W leg.params leg.payload leg.client_order_id) _ h2 λ m em h3.
            from_throw (not (text_eq m leg.intent_hash)) _ _ h3 λ t2 h4.
              from_throw (not (signature_valid W leg.intent_hash signature leg.params.signer)) _ _
                h4
                λ t3 h5. subst (Sent leg signature) (ok_injective h5) (record {
                  payload = refl;
                  signature_eq = refl;
                  market = market_written leg.params.market_index t.market t.market_eq;
                  id = written leg.client_order_id i.id i.id_eq;
                  kind = refl;
                  direction = refl;
                  price = written leg.terms.trigger_price_lots t.price t.price_eq;
                  oco = written leg.terms.oco_group t.oco t.oco_eq;
                  expiry = written leg.terms.expiry_ts t.expiry t.expiry_eq;
                  salt = written leg.terms.salt t.salt t.salt_eq;
                })

  -- A request carries the payload and the signature of its leg, and the decimal texts in it stand
  -- for the leg's market, client order id, trigger price, group, expiry and salt: a keeper that reads
  -- them back finds the terms that were committed to.
  pub request-Sent :
      (leg : SlTpLeg PublicKey) (signature : Bytes) (fee : Text) {r : SubmitIntentRequest}
      → trigger_order_request W leg signature fee ≡ ok r
      → Sent leg signature r
  unfolding trigger_terms_commitment
  request-Sent leg signature fee h =
      let i = request-Intact W leg signature fee h in
      let p = leg.params in
      from_bind (trigger_terms_bytes W p.group p.fermi_account p.market_index leg.terms) _
        i.commitment_eq
        λ bytes eb kb.
          Sent-of leg signature bytes fee
            (trigger_terms_bytes-TermsBytes W p.group p.fermi_account p.market_index leg.terms eb) i
            h
