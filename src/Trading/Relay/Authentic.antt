-- ===== src/Trading/Relay/Authentic.antt =====
-- That a request for the relayer, as src/trading.ts builds it, can be checked by whoever receives it.
use fermi_v1_sdk.Base.{
  ℕ, ◌≤◌, ◌≡◌, refl, sym, ap, subst, ◌∙◌, arith, Bool, true, false, not, ◌&&◌, ◌||◌, List, map,
  none, some, Result, ok, ◌>>=◌, ◌++◌, ℤ, pos, negsuc, ltb_ℤ, Number, whole, Text, integer_text,
  number_text, length, ◌==◌, from_bind, from_throw, ok_injective,
}
use fermi_v1_sdk.Wire.{Bytes, BigNumberish, big, to_big_int, u64_to_le, u64_max}
use fermi_v1_sdk.Platform.{Platform}
use fermi_v1_sdk.Intents.{perp_market_target}
use fermi_v1_sdk.Intents.Accounts.{AccountMeta, hash_accounts_for_ctm_enqueue}
use fermi_v1_sdk.Intents.Payload.{encode_perp_place_order_v2}
use fermi_v1_sdk.Intents.Messages.{
  Party, IntentV3, SignedMessage, build_perp_user_intent_message_v3, message_v3_bytes, scope_bytes,
  user_intent_domain,
}
use fermi_v1_sdk.Intents.WithIntent.{or_else}
use fermi_v1_sdk.Triggers.Request.{to_relayer_account_meta}
use fermi_v1_sdk.Context.{PerpMarket, canonical_perp_remaining_accounts}
use fermi_v1_sdk.Trading.{
  MarketLots, SubmitOptions, TradingCall, place, cancel, cancel_all, market_of, payload_of,
  SubmitIntentRequest, Reply, failed, answered, on_reply, is_some, submit_intent, u64_string,
  order_fields, TradingContext, user_of, party_of,
}
use fermi_v1_sdk.Trading.Asked.{Asked, payload_of-Asked}
use fermi_v1_sdk.Trading.Relay.{
  relay_request, IntentAuth, intent_of, build_perp_intent_auth, sign_intent_message, via_relayer,
}

reply-answered :
    {R : Type 0} (r : Reply R) {response : R} → on_reply r ≡ ok response → r ≡ answered response
reply-answered (failed none) h = cc
reply-answered (failed (some code)) h = ground arith
reply-answered (answered r) h = ap answered (ok_injective h)

module _ (W : Platform) where
  open W use {
    PublicKey, to_bytes, to_base58, sign_detached, verify_detached, key_of_secret, verify-sign,
    length-sign_detached,
  }

  -- What a receiver rebuilds from the fields of a request alone: the keys that its texts name, the
  -- numbers that its decimals stand for, the message that its owner has signed, and the accounts.
  pub record Authentic (c : TradingContext W) (request : SubmitIntentRequest) : Type 0 where
    pub party : Party PublicKey
    pub queue : PublicKey
    pub remaining : List (AccountMeta PublicKey)
    pub slot : ℤ
    pub expires : ℤ
    pub id : ℕ
    pub message : SignedMessage
    pub group_text : request.group ≡ to_base58 party.group
    pub account_text : request.mango_account ≡ to_base58 party.fermi_account
    pub owner_text : request.user_owner ≡ to_base58 party.user_owner
    pub queue_text : request.execution_queue ≡ to_base58 queue
    pub accounts_listed : request.remaining_accounts ≡ map (to_relayer_account_meta W) remaining
    pub slot_text : request.min_execute_slot ≡ integer_text slot
    pub expires_text : request.expires_at_slot ≡ integer_text expires
    pub id_text : request.client_order_id ≡ integer_text (pos id)
    pub id_u64 : id ≤ u64_max
    pub market_text : request.market ≡ number_text request.target_index
    pub rebuilt :
        build_perp_user_intent_message_v3 W (record {
          party = party;
          kind = whole (pos 0);
          market_index = request.target_index;
          payload = request.payload;
          accounts_hash = hash_accounts_for_ctm_enqueue W party.group queue remaining;
          min_execute_slot = big slot;
          expires_at_slot = big expires;
          client_order_id = big (pos id);
        })
        ≡ ok message
    pub verified :
        verify_detached message.user_intent_message request.user_signature
          (to_bytes party.user_owner)
        ≡ true
    pub signature_size : length request.user_signature ≡ 64
    pub canonical :
        canonical_perp_remaining_accounts W c.group c.fermi_account party.user_owner
          request.target_index
        ≡ ok remaining
    pub owner_is_user : party.user_owner ≡ user_of W c
    pub perp_target : request.target_kind ≡ perp_market_target
    pub immediate : (request.intent_version ≡ 2) × (request.trigger_order ≡ none)

  u64_to_le-big : (v : BigNumberish) {z : ℤ} → to_big_int v ≡ ok z → u64_to_le v ≡ u64_to_le (big z)
  unfolding u64_to_le
  u64_to_le-big v e = rw (e, u64_to_le) refl

  message_v3_bytes-big :
      (i : IntentV3 PublicKey) (hash : Bytes) {z : ℤ}
      → to_big_int i.client_order_id ≡ ok z
      → message_v3_bytes W i hash ≡ message_v3_bytes W (record i { client_order_id = big z }) hash
  unfolding message_v3_bytes
  message_v3_bytes-big i hash {z} e =
      ap
        (λ (r : Result Bytes). scope_bytes W i.party i.kind i.market_index >>= λ scope.
          u64_to_le i.min_execute_slot >>= λ slot. u64_to_le i.expires_at_slot >>= λ expires.
          r >>= λ id. ok (
            user_intent_domain
            ++ (scope ++ (hash ++ (i.accounts_hash ++ (slot ++ (expires ++ id)))))))
        (u64_to_le-big i.client_order_id e)

  -- The text of an id is that of a u64.
  u64_string-text :
      (v : BigNumberish) {t : Text}
      → u64_string v ≡ ok t
      → (n : ℕ) × (to_big_int v ≡ ok (pos n)) × (n ≤ u64_max) × (t ≡ integer_text (pos n))
  unfolding u64_string
  u64_string-text v h = from_bind (to_big_int v) _ h λ z ez h1.
      from_throw (ltb_ℤ z (pos 0) || ltb_ℤ (pos u64_max) z) _ _ h1 λ t h2. range z ez t h2
    where
      range :
          (z : ℤ) {t : Text}
          → to_big_int v ≡ ok z
          → (ltb_ℤ z (pos 0) || ltb_ℤ (pos u64_max) z) ≡ false
          → ok (integer_text z) ≡ ok t
          → (n : ℕ) × (to_big_int v ≡ ok (pos n)) × (n ≤ u64_max) × (t ≡ integer_text (pos n))
      range (pos n) e out h = (n, e, ground arith, sym (ok_injective h))
      range (negsuc n) e out h = ground arith

  -- What `buildPerpIntentAuth` has put together.
  record Signed (c : TradingContext W) (market_index : Number) (payload : Bytes)
      (options : SubmitOptions) (v : BigNumberish) (auth : IntentAuth W) : Type 0 where
    message : SignedMessage
    canonical :
        canonical_perp_remaining_accounts W c.group c.fermi_account (user_of W c) market_index
        ≡ ok auth.remaining_accounts
    built :
        build_perp_user_intent_message_v3 W
          (intent_of W c market_index payload auth.remaining_accounts options v)
        ≡ ok message
    signature : auth.user_signature ≡ sign_detached message.user_intent_message c.secret_key

  sign_intent_message-eq :
      (secret message : Bytes) {signature : Bytes}
      → sign_intent_message W secret message ≡ ok signature
      → signature ≡ sign_detached message secret
  unfolding sign_intent_message
  sign_intent_message-eq secret message h =
      from_throw (not (length secret == 64)) _ _ h λ t k. sym (ok_injective k)

  auth-Signed :
      (c : TradingContext W) (market_index : Number) (payload : Bytes) (options : SubmitOptions)
      (v : BigNumberish) {auth : IntentAuth W}
      → build_perp_intent_auth W c market_index payload options v ≡ ok auth
      → Signed c market_index payload options v auth
  unfolding build_perp_intent_auth
  auth-Signed c market_index payload options v h =
      from_bind
        (canonical_perp_remaining_accounts W c.group c.fermi_account (user_of W c) market_index) _ h
        λ remaining er h1.
          from_bind
            (build_perp_user_intent_message_v3 W
              (intent_of W c market_index payload remaining options v))
            _ h1
            λ message em h2.
              from_bind (sign_intent_message W c.secret_key message.user_intent_message) _ h2
                λ signature es h3.
                  subst (Signed c market_index payload options v) (ok_injective h3) (record {
                    message = message;
                    canonical = er;
                    built = em;
                    signature = sign_intent_message-eq c.secret_key message.user_intent_message es;
                  })

  message-big :
      (i : IntentV3 PublicKey) {z : ℤ}
      → to_big_int i.client_order_id ≡ ok z
      → build_perp_user_intent_message_v3 W i
        ≡ build_perp_user_intent_message_v3 W (record i { client_order_id = big z })
  unfolding build_perp_user_intent_message_v3
  message-big i e = rw (message_v3_bytes-big i _ e) refl

  relay_request-Authentic :
      (c : TradingContext W) (market_index : Number) (payload : Bytes) (options : SubmitOptions)
      (v : BigNumberish) {request : SubmitIntentRequest}
      → relay_request W c market_index payload options v ≡ ok request
      → Authentic c request × (request.payload ≡ payload) × (request.target_index ≡ market_index)
  unfolding relay_request
  relay_request-Authentic c market_index payload options v {request} h =
      from_bind (build_perp_intent_auth W c market_index payload options v) _ h λ auth ea h1.
        from_bind (u64_string v) _ h1 λ text et h2.
          let s = auth-Signed c market_index payload options v ea in
          let (n, en, le, text_is) = u64_string-text v et in
          subst
            (λ (r : SubmitIntentRequest).
              Authentic c r × (r.payload ≡ payload) × (r.target_index ≡ market_index))
            (ok_injective h2)
            (
              record {
                party = party_of W c;
                queue = c.queue_for market_index;
                remaining = auth.remaining_accounts;
                slot = or_else options.min_execute_slot (pos 0);
                expires = or_else options.expires_at_slot (pos 0);
                id = n;
                message = s.message;
                group_text = refl;
                account_text = refl;
                owner_text = refl;
                queue_text = refl;
                accounts_listed = refl;
                slot_text = refl;
                expires_text = refl;
                id_text = text_is;
                id_u64 = le;
                market_text = refl;
                rebuilt =
                    sym (
                      message-big
                        (intent_of W c market_index payload auth.remaining_accounts options v) en)
                    ∙ s.built;
                verified =
                    subst
                      (λ t.
                        verify_detached s.message.user_intent_message t (to_bytes (user_of W c))
                        ≡ true)
                      (sym s.signature) (verify-sign s.message.user_intent_message c.secret_key);
                signature_size =
                    rw s.signature
                      (length-sign_detached s.message.user_intent_message c.secret_key);
                canonical = s.canonical;
                owner_is_user = refl;
                perp_target = refl;
                immediate = (refl, refl);
              },
              refl,
              refl,
            )

  -- A request that the relayer has answered.
  pub record Submitted {R : Type 0} (rpc : SubmitIntentRequest → Reply R) (c : TradingContext W)
      (market_index : Number) (payload : Result Bytes) (response : R) : Type 0 where
    pub request : SubmitIntentRequest
    pub answer : rpc request ≡ answered response
    pub authentic : Authentic c request
    pub order : payload ≡ ok request.payload
    pub market : request.target_index ≡ market_index

  submitted :
      {R : Type 0} (rpc : SubmitIntentRequest → Reply R) (request : SubmitIntentRequest)
      {response : R}
      → submit_intent request rpc ≡ ok response
      → rpc request ≡ answered response
  unfolding submit_intent
  submitted rpc request h =
      from_throw (is_some request.trigger_order && not (request.intent_version == 3)) _ _ h
        λ t k. reply-answered (rpc request) k

  module _ {R F : Type 0} (rpc : SubmitIntentRequest → Reply R) (random : ℤ) (is_zero : F → Bool)
      (lots : PerpMarket PublicKey → MarketLots F) (c : TradingContext W)
      (options : SubmitOptions) where
    finish_relay :
        (market_index : Number) (payload : Result Bytes) (v : BigNumberish) {response : R}
        → (payload >>= λ bytes.
            relay_request W c market_index bytes options v >>= λ request. submit_intent request rpc)
          ≡ ok response
        → Submitted rpc c market_index payload response
    finish_relay market_index payload v h = from_bind payload _ h λ bytes eb h1.
        from_bind (relay_request W c market_index bytes options v) _ h1 λ request er h2.
          let (a, same, market) = relay_request-Authentic c market_index bytes options v er in
          record {
            request = request;
            answer = submitted rpc request h2;
            authentic = a;
            order = eb ∙ ap ok (sym same);
            market = market;
          }

    via_relayer-Submitted :
        (call : TradingCall F) {response : R}
        → via_relayer W rpc random is_zero lots c call options ≡ ok response
        → Submitted rpc c (market_of call) (payload_of W is_zero lots c random call) response
    unfolding via_relayer
    via_relayer-Submitted (place p) {response} h =
        from_bind (c.group.perp_market_by_index p.market_index) _ h λ market em h1.
          subst
            (λ (m : Result (PerpMarket PublicKey)).
              Submitted rpc c p.market_index
                (m >>= λ market.
                  encode_perp_place_order_v2
                    (order_fields is_zero (lots market) p (or_else p.client_order_id (big random))))
                response)
            (sym em)
            (finish_relay p.market_index _
              (or_else p.intent_client_order_id (or_else p.client_order_id (big random))) h1)
    via_relayer-Submitted (cancel p) h =
        finish_relay p.market_index _ (or_else p.intent_client_order_id (big random)) h
    via_relayer-Submitted (cancel_all p) h =
        finish_relay p.market_index _ (or_else p.intent_client_order_id (big random)) h

    -- Whatever was submitted is a request that its receiver can check, with the payload that was asked for:
    -- an order's 49 bytes hold, at their places, the side, the price, the sizes, the id, the type, the
    -- self-trade behaviour, the reduce-only flag, the expiry and the limit that were asked for, in the
    -- market's lots or by default, and a cancellation's bytes its id or its limit. The request's texts name
    -- the keys, its user has signed the message that the receiver rebuilds from the request's own fields,
    -- and its accounts are the canonical ones. It is an immediate order, version 2 without trigger terms,
    -- on the market asked for.
    pub relayed-Submitted :
        (call : TradingCall F) {response : R}
        → via_relayer W rpc random is_zero lots c call options ≡ ok response
        → (s : Submitted rpc c (market_of call) (payload_of W is_zero lots c random call) response)
          × Asked W is_zero lots c random call s.request.payload
    relayed-Submitted call h =
        let s = via_relayer-Submitted call h in
        (s, payload_of-Asked W is_zero lots c random call s.order)
