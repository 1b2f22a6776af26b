-- ===== src/Trading/Direct/Allowed.antt =====
-- When src/trading.ts lets an order go straight into the queue, and what it then sends.
use fermi_v1_sdk.Base.{
  ℕ, ◌+◌, ◌≡◌, ◌≢◌, sym, ap, subst, Bool, true, false, not, Option, none, some, List, Result, ok,
  ◌>>=◌, ℤ, leb_ℤ, pos, eq_ℤ, eq_ℤ→eq, Number, whole, length, ◌==◌, from_bind, from_throw,
  ok_injective, not-false,
}
use fermi_v1_sdk.Wire.{Bytes, BigNumberish, big, to_big_int}
use fermi_v1_sdk.Platform.{Platform}
use fermi_v1_sdk.Intents.Accounts.{AccountMeta}
use fermi_v1_sdk.Intents.Messages.{build_direct_intent_message}
use fermi_v1_sdk.Intents.Instructions.{
  keypair, Ed25519Check, build_intent_ed25519_instruction, build_v5_enqueue_direct_market_ix,
}
use fermi_v1_sdk.Intents.WithIntent.{
  or_else, DirectWithIntent, build_v5_enqueue_direct_with_intent_ixs, direct_intent_of,
}
use fermi_v1_sdk.Intents.WithIntent.Signed.{SignedEnqueue, direct_with_intent-SignedEnqueue}
use fermi_v1_sdk.Intents.Payload.{encode_perp_place_order_v2}
use fermi_v1_sdk.Context.{PerpMarket, canonical_perp_remaining_accounts}
use fermi_v1_sdk.Trading.{
  MarketLots, SubmitOptions, TradingCall, place, cancel, cancel_all, market_of, payload_of,
  order_fields, direct_expiry, TradingContext, user_of,
}
use fermi_v1_sdk.Trading.Asked.{Asked, payload_of-Asked}
use fermi_v1_sdk.Trading.Direct.{pools_missing, direct_params, submit_perp_intent_direct, via_queue}

-- The expiry: as given, or twenty slots after the confirmed one.
abbrev pub ExpiresAt : Option ℤ → Result ℕ → ℤ → Type 0
ExpiresAt (some z) slot expires = z ≡ expires
ExpiresAt none slot expires = (n : ℕ) × (slot ≡ ok n) × (expires ≡ pos (n + 20))

direct_expiry-ExpiresAt :
    (o : Option ℤ) (slot : Result ℕ) {expires : ℤ}
    → direct_expiry o slot ≡ ok expires
    → ExpiresAt o slot expires
unfolding direct_expiry
direct_expiry-ExpiresAt none slot h = from_bind slot _ h λ n en k. (n, en, sym (ok_injective k))
direct_expiry-ExpiresAt (some z) slot h = ok_injective h

pools_ready : (o : Option Bool) → pools_missing o ≡ false → o ≢ some false
pools_ready none h e = cc
pools_ready (some true) h e = cc
pools_ready (some false) h e = cc

module _ (W : Platform) where
  open W use {PublicKey, to_bytes, sign_detached, verify_detached, key_of_secret, verify-sign}

  -- What goes into the queue: instructions whose signature check passes for the user's key, over the
  -- message that binds the order, with the accounts and the expiry of the order.
  pub record Allowed (slot : Result ℕ) (c : TradingContext W) (market_index : Number)
      (payload : Result Bytes) (options : SubmitOptions) (sent : DirectWithIntent PublicKey)
      : Type 0 where
    pub bytes : Bytes
    pub remaining : List (AccountMeta PublicKey)
    pub expires : ℤ
    pub nonce : BigNumberish
    pub pools : c.direct_pools_initialized ≢ some false
    pub at_once : or_else options.min_execute_slot (pos 0) ≡ pos 0
    pub order : payload ≡ ok bytes
    pub canonical :
        canonical_perp_remaining_accounts W c.group c.fermi_account (user_of W c) market_index
        ≡ ok remaining
    pub expiry : ExpiresAt options.expires_at_slot slot expires
    pub enqueue :
        SignedEnqueue W (direct_params W c market_index bytes remaining expires nonce) sent
    pub verified :
        verify_detached sent.direct_intent_message sent.pre_instruction.signature
          (to_bytes (user_of W c))
        ≡ true

  signed_by :
      (m secret : Bytes) {check : Ed25519Check}
      → build_intent_ed25519_instruction W m (keypair secret none) ≡ ok check
      → check.signature ≡ sign_detached m secret
  unfolding build_intent_ed25519_instruction
  signed_by m secret h =
      from_throw (not (length secret == 64)) _ _ h
        λ t k. ap (λ (x : Ed25519Check). x.signature) (sym (ok_injective k))

  built-verified :
      (c : TradingContext W) (market_index : Number) (payload : Bytes)
      (remaining : List (AccountMeta PublicKey)) (expires : ℤ) (nonce : BigNumberish)
      {sent : DirectWithIntent PublicKey}
      → build_v5_enqueue_direct_with_intent_ixs W
          (direct_params W c market_index payload remaining expires nonce)
        ≡ ok sent
      → verify_detached sent.direct_intent_message sent.pre_instruction.signature
          (to_bytes (user_of W c))
        ≡ true
  unfolding build_v5_enqueue_direct_with_intent_ixs
  built-verified c market_index payload remaining expires nonce h =
      let p = direct_params W c market_index payload remaining expires nonce in
      let kind : Number = whole (pos 0) in
      from_bind (to_big_int (big expires)) _ h λ z ez h2.
        from_throw (leb_ℤ z (pos 0)) _ _ h2 λ t2 h3.
          from_bind (build_direct_intent_message W (direct_intent_of W p kind z)) _ h3 λ m em h4.
            from_bind (build_intent_ed25519_instruction W m p.user_signer) _ h4 λ check ec h5.
              from_bind
                (build_v5_enqueue_direct_market_ix W p.program_id p.authority_state p.queue
                  p.direct_pool p.party.group p.market_index p.payload kind (big z) p.nonce
                  p.remaining)
                _ h5
                λ i ei h6.
                  subst
                    (λ (d : DirectWithIntent PublicKey).
                      verify_detached d.direct_intent_message d.pre_instruction.signature
                        (to_bytes (user_of W c))
                      ≡ true)
                    (ok_injective h6)
                    (subst (λ s. verify_detached m s (to_bytes (user_of W c)) ≡ true)
                      (sym (signed_by m c.secret_key ec)) (verify-sign m c.secret_key))

  module _ (slot : Result ℕ) (random : ℤ) where
    submitted-Allowed :
        (c : TradingContext W) (market_index : Number) (payload : Result Bytes)
        (options : SubmitOptions) (nonce : Option BigNumberish) {sent : DirectWithIntent PublicKey}
        → (payload >>= λ bytes.
            submit_perp_intent_direct W slot random c market_index bytes options nonce)
          ≡ ok sent
        → Allowed slot c market_index payload options sent
    unfolding submit_perp_intent_direct
    submitted-Allowed c market_index payload options nonce {sent} h =
        from_bind payload _ h λ bytes eb h0.
          from_throw (pools_missing c.direct_pools_initialized) _ _ h0 λ t1 h1.
            from_throw (not (eq_ℤ (or_else options.min_execute_slot (pos 0)) (pos 0))) _ _ h1
              λ t2 h2.
                from_bind
                  (canonical_perp_remaining_accounts W c.group c.fermi_account (user_of W c)
                    market_index)
                  _ h2
                  λ remaining er h3.
                    from_bind (direct_expiry options.expires_at_slot slot) _ h3 λ expires ee h4.
                      record {
                        bytes = bytes;
                        remaining = remaining;
                        expires = expires;
                        nonce = or_else nonce (big random);
                        pools = pools_ready c.direct_pools_initialized t1;
                        at_once = eq_ℤ→eq _ _ (not-false _ t2);
                        order = eb;
                        canonical = er;
                        expiry = direct_expiry-ExpiresAt options.expires_at_slot slot ee;
                        enqueue = direct_with_intent-SignedEnqueue W _ h4;
                        verified =
                            built-verified c market_index bytes remaining expires
                              (or_else nonce (big random)) h4;
                      }

    via_queue-Allowed :
        {F : Type 0} (is_zero : F → Bool) (lots : PerpMarket PublicKey → MarketLots F)
        (order_random : ℤ) (c : TradingContext W) (call : TradingCall F) (options : SubmitOptions)
        (nonce : Option BigNumberish) {sent : DirectWithIntent PublicKey}
        → via_queue W slot random is_zero lots order_random c call options nonce ≡ ok sent
        → Allowed slot c
            (market_of call)
            (payload_of W is_zero lots c order_random call)
            options
            sent
    unfolding via_queue
    via_queue-Allowed is_zero lots order_random c (place p) options nonce {sent} h =
        from_bind (c.group.perp_market_by_index p.market_index) _ h λ market em h1.
          subst
            (λ (m : Result (PerpMarket PublicKey)).
              Allowed slot c p.market_index
                (m >>= λ market. encode_perp_place_order_v2 (
                  order_fields is_zero (lots market) p
                    (or_else p.client_order_id (big order_random))))
                options sent)
            (sym em) (submitted-Allowed c p.market_index _ options nonce h1)
    via_queue-Allowed is_zero lots order_random c (cancel p) options nonce h =
        submitted-Allowed c p.market_index _ options nonce h
    via_queue-Allowed is_zero lots order_random c (cancel_all p) options nonce h =
        submitted-Allowed c p.market_index _ options nonce h

    -- What goes straight into the queue: the deployment's pools are not known to be missing, no earliest
    -- slot was asked for, the payload encodes the order or the cancellation asked for and holds byte by
    -- byte what was asked for, the accounts are the canonical ones, the expiry is the one given or twenty
    -- slots after the confirmed slot, and the signature in the check instruction is the user's own over
    -- the message that the enqueue carries.
    pub direct-Allowed :
        {F : Type 0} (is_zero : F → Bool) (lots : PerpMarket PublicKey → MarketLots F)
        (order_random : ℤ) (c : TradingContext W) (call : TradingCall F) (options : SubmitOptions)
        (nonce : Option BigNumberish) {sent : DirectWithIntent PublicKey}
        → via_queue W slot random is_zero lots order_random c call options nonce ≡ ok sent
        → (a : Allowed slot c
            (market_of call)
            (payload_of W is_zero lots c order_random call)
            options
            sent)
          × Asked W is_zero lots c order_random call a.bytes
    direct-Allowed is_zero lots order_random c call options nonce h =
        let a = via_queue-Allowed is_zero lots order_random c call options nonce h in
        (a, payload_of-Asked W is_zero lots c order_random call a.order)
