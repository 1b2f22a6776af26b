-- ===== src/Trading/Relay.antt =====
-- The orders of src/trading.ts that go through the relayer.
pub mod Authentic
use fermi_v1_sdk.Base.{
  ℕ, Bool, not, List, map, Option, none, some, Result, ok, err, ◌>>=◌, ◌>>◌, throw_if, ℤ, pos,
  negsuc, Number, whole, Text, integer_text, number_text, length, ◌==◌,
}
use fermi_v1_sdk.Wire.{Bytes, BigNumberish, big}
use fermi_v1_sdk.Platform.{Platform}
use fermi_v1_sdk.Intents.{perp_market_target}
use fermi_v1_sdk.Intents.Accounts.{AccountMeta, hash_accounts_for_ctm_enqueue}
use fermi_v1_sdk.Intents.Payload.{
  encode_perp_place_order_v2, encode_perp_cancel_order_by_client_order_id,
  encode_perp_cancel_all_orders,
}
use fermi_v1_sdk.Intents.Messages.{IntentV3, SignedMessage, build_perp_user_intent_message_v3}
use fermi_v1_sdk.Intents.WithIntent.{or_else}
use fermi_v1_sdk.Triggers.Request.{to_relayer_account_meta}
use fermi_v1_sdk.Context.{PerpMarket, canonical_perp_remaining_accounts}
use fermi_v1_sdk.Trading.{
  MarketLots, SubmitPerpOrderParams, SubmitOptions, SubmitPerpCancelByClientIdParams,
  SubmitPerpCancelAllParams, TradingCall, place, cancel, cancel_all, SubmitIntentRequest, Reply,
  submit_intent, u64_string, order_fields, TradingContext, user_of, party_of,
}

-- `first ?? second`, where the second may be absent too
abbrev pub or_option : {A : Type 0} → Option A → Option A → Option A
or_option none o = o
or_option (some a) o = some a

module _ (W : Platform) where
  open W use {PublicKey, to_base58, sign_detached}

  unfoldable pub sign_intent_message : Bytes → Bytes → Result Bytes
  sign_intent_message private_key message = do
    throw_if (not (length private_key == 64)) "privateKey must be 64 bytes"
    ok (sign_detached message private_key)

  pub record IntentAuth : Type 0 where
    pub remaining_accounts : List (AccountMeta PublicKey)
    pub user_intent_message : Bytes
    pub user_signature : Bytes

  abbrev pub intent_of :
      TradingContext W
      → Number
      → Bytes
      → List (AccountMeta PublicKey)
      → SubmitOptions
      → BigNumberish
      → IntentV3 PublicKey
  intent_of c market_index payload remaining options client_order_id = record {
    party = party_of W c;
    kind = whole (pos 0);
    market_index = market_index;
    payload = payload;
    accounts_hash =
        hash_accounts_for_ctm_enqueue W c.group.public_key (c.queue_for market_index) remaining;
    min_execute_slot = big (or_else options.min_execute_slot (pos 0));
    expires_at_slot = big (or_else options.expires_at_slot (pos 0));
    client_order_id = client_order_id;
  }

  unfoldable pub build_perp_intent_auth :
      TradingContext W → Number → Bytes → SubmitOptions → BigNumberish → Result IntentAuth
  unfolding sign_intent_message
  build_perp_intent_auth c market_index payload options client_order_id = do
    remaining ←
        canonical_perp_remaining_accounts W c.group c.fermi_account (user_of W c) market_index
    signed ←
        build_perp_user_intent_message_v3 W
          (intent_of c market_index payload remaining options client_order_id)
    signature ← sign_intent_message c.secret_key signed.user_intent_message
    ok (record {
      remaining_accounts = remaining;
      user_intent_message = signed.user_intent_message;
      user_signature = signature;
    })

  -- The end of each function `…ViaRelayer`: the signed payload as a request.
  unfoldable pub relay_request :
      TradingContext W → Number → Bytes → SubmitOptions → BigNumberish → Result SubmitIntentRequest
  unfolding build_perp_intent_auth u64_string
  relay_request c market_index payload options intent_client_order_id = do
    signed ← build_perp_intent_auth c market_index payload options intent_client_order_id
    id ← u64_string intent_client_order_id
    ok (record {
      group = to_base58 c.group.public_key;
      execution_queue = to_base58 (c.queue_for market_index);
      market = number_text market_index;
      payload = payload;
      remaining_accounts = map (to_relayer_account_meta W) signed.remaining_accounts;
      min_execute_slot = integer_text (or_else options.min_execute_slot (pos 0));
      expires_at_slot = integer_text (or_else options.expires_at_slot (pos 0));
      user_owner = to_base58 (user_of W c);
      mango_account = to_base58 c.fermi_account.public_key;
      user_signature = signed.user_signature;
      base_fee = options.base_fee;
      max_fee_lamports = or_option options.max_fee_lamports options.base_fee;
      intent_version = 2;
      target_kind = perp_market_target;
      target_index = market_index;
      client_order_id = id;
      trigger_order = none;
    })

  -- Each function with its random number, and the relayer's reply to the request.
  module _ {R : Type 0} (rpc : SubmitIntentRequest → Reply R) (random : ℤ) where
    unfoldable pub submit_perp_order_via_relayer :
        {F : Type 0}
        → (F → Bool)
        → (PerpMarket PublicKey → MarketLots F)
        → TradingContext W
        → SubmitPerpOrderParams F
        → SubmitOptions
        → Result R
    submit_perp_order_via_relayer is_zero lots c p options = do
      let client_order_id = or_else p.client_order_id (big random)
      market ← c.group.perp_market_by_index p.market_index
      payload ← encode_perp_place_order_v2 (order_fields is_zero (lots market) p client_order_id)
      request ←
          relay_request c p.market_index payload options
            (or_else p.intent_client_order_id client_order_id)
      submit_intent request rpc

    unfoldable pub cancel_perp_order_by_client_id_via_relayer :
        TradingContext W → SubmitPerpCancelByClientIdParams → SubmitOptions → Result R
    cancel_perp_order_by_client_id_via_relayer c p options = do
      payload ← encode_perp_cancel_order_by_client_order_id p.client_order_id
      request ←
          relay_request c p.market_index payload options
            (or_else p.intent_client_order_id (big random))
      submit_intent request rpc

    unfoldable pub cancel_all_perp_orders_via_relayer :
        TradingContext W → SubmitPerpCancelAllParams → SubmitOptions → Result R
    cancel_all_perp_orders_via_relayer c p options = do
      payload ← encode_perp_cancel_all_orders (or_else p.limit (whole (pos 255)))
      request ←
          relay_request c p.market_index payload options
            (or_else p.intent_client_order_id (big random))
      submit_intent request rpc

    -- The three functions as one: what is asked of the relayer.
    unfoldable pub via_relayer :
        {F : Type 0}
        → (F → Bool)
        → (PerpMarket PublicKey → MarketLots F)
        → TradingContext W
        → TradingCall F
        → SubmitOptions
        → Result R
    unfolding submit_perp_order_via_relayer cancel_perp_order_by_client_id_via_relayer
        cancel_all_perp_orders_via_relayer
    via_relayer is_zero lots c (place p) options =
        submit_perp_order_via_relayer is_zero lots c p options
    via_relayer is_zero lots c (cancel p) options =
        cancel_perp_order_by_client_id_via_relayer c p options
    via_relayer is_zero lots c (cancel_all p) options =
        cancel_all_perp_orders_via_relayer c p options
