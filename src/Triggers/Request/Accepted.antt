-- ===== src/Triggers/Request/Accepted.antt =====
-- A leg that was built and signed is sent: src/triggerOrders.ts.
use fermi_v1_sdk.Base.{
  not-false, ℕ, ◌≡◌, refl, sym, ◌∙◌, subst, true, not, ◌&&◌, ◌||◌, ok, ℤ, pos, Text, length, ◌==◌,
  IsOk, List, pos_injective, from_throw, ok_injective,
}
use fermi_v1_sdk.Wire.{Bytes, read_u64}
use fermi_v1_sdk.Platform.{Platform}
use fermi_v1_sdk.Triggers.Legs.{SlTpParams, SlTpLeg, LegOptions, build_trigger_order_leg}
use fermi_v1_sdk.Triggers.Legs.Built.{build_trigger_order_leg-Built}
use fermi_v1_sdk.Triggers.Legs.Safe.{built_leg-SafeLeg}
use fermi_v1_sdk.Triggers.Request.{sign_trigger_order_leg, signature_valid, trigger_order_request}
use fermi_v1_sdk.Triggers.Request.Intact.{request_iff}

module _ (W : Platform) where
  open W use {
    PublicKey, equals, equals_iff, to_bytes, sign_detached, verify_detached, key_of_secret, to_hex,
    length-sign_detached, verify-sign,
  }

  -- A signature that `signTriggerOrderLeg` makes is one that `assertSignature` takes.
  sign-valid :
      (leg : SlTpLeg PublicKey) (secret : Bytes) {signature : Bytes}
      → sign_trigger_order_leg W leg secret ≡ ok signature
      → signature_valid W leg.intent_hash signature leg.params.signer ≡ true
  unfolding sign_trigger_order_leg signature_valid
  sign-valid leg secret h = from_throw (not (length secret == 64)) _ _ h λ t1 h1.
      from_throw (not (equals (key_of_secret secret) leg.params.signer)) _ _ h1 λ t2 h2.
        let key : key_of_secret secret ≡ leg.params.signer =
          (equals_iff (key_of_secret secret) leg.params.signer).0 (not-false _ t2) in
        subst
          (λ (s : Bytes).
            (length s == 64
              && (verify_detached leg.intent_hash s (to_bytes leg.params.signer)
                  || verify_detached (to_hex leg.intent_hash) s (to_bytes leg.params.signer)))
            ≡ true)
          (ok_injective h2)
          (rw
            (length-sign_detached leg.intent_hash secret, ← key, verify-sign leg.intent_hash secret)
            refl)

  -- A leg that was built is sent with every signature of its signer, as `signTriggerOrderLeg` makes
  -- it: nothing that was checked at signing is refused later.
  pub build-sign-request :
      (params : SlTpParams PublicKey) (kind : ℕ) (trigger : ℤ) (options : LegOptions)
      (draws : List ℕ) (secret : Bytes) (fee : Text) {r : SlTpLeg PublicKey × List ℕ}
      {signature : Bytes}
      → build_trigger_order_leg W params kind trigger options draws ≡ ok r
      → sign_trigger_order_leg W r.0 secret ≡ ok signature
      → IsOk (trigger_order_request W r.0 signature fee)
  build-sign-request params kind trigger options draws secret fee {r} {signature} hb hs =
      let b = build_trigger_order_leg-Built W params kind trigger options draws hb in
      let s = built_leg-SafeLeg W params kind trigger options draws hb in
      let id : pos b.id ≡ pos (read_u64 r.0.payload 29) = sym b.id_eq ∙ s.id_written in
      (request_iff W r.0 signature fee).1 (record {
        id = b.id;
        commitment_eq = rw b.params_eq b.commitment_eq;
        id_eq = b.id_eq;
        size = s.size;
        id_written = sym (pos_injective id);
        expiry_written = s.expiry_written;
        immediate = s.immediate;
        reduce_only = s.reduce_only;
        message_eq = rw (b.params_eq, b.id_eq) b.message_eq;
        signed = sign-valid r.0 secret hs;
      })
