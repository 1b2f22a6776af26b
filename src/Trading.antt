-- ===== src/Trading.antt =====
-- src/trading.ts: orders and cancellations, through the relayer or straight into the queue. The
-- conversions of a market's prices and sizes to lots, and the addresses of queues, are library calls.
pub mod Relay
pub mod Direct
pub mod Asked
mod Tests
use fermi_v1_sdk.Base.{
  ℕ, ◌+◌, Bool, true, false, not, ◌&&◌, ◌||◌, List, map, Option, none, some, Result, ok, err, ◌>>=◌,
  ◌>>◌, throw_if, ℤ, pos, negsuc, ◌+ℤ◌, leb_ℤ, ltb_ℤ, eq_ℤ, Number, whole, Text, integer_text,
  number_text, length, ◌==◌, leb, if◌then◌else◌,
}
use fermi_v1_sdk.Wire.{Bytes, BigNumberish, big, num, to_big_int, u64_max}
use fermi_v1_sdk.Platform.{Platform}
use fermi_v1_sdk.Intents.{
  Side, bid, ask, OrderType, post_only_slide, SelfTradeBehavior, decrement_take, perp_market_target,
}
use fermi_v1_sdk.Intents.Accounts.{AccountMeta, hash_accounts_for_ctm_enqueue}
use fermi_v1_sdk.Intents.Payload.{
  PlaceOrderFields, encode_perp_place_order_v2, encode_perp_cancel_order_by_client_order_id,
  encode_perp_cancel_all_orders,
}
use fermi_v1_sdk.Intents.Messages.{
  Party, IntentV3, SignedMessage, build_perp_user_intent_message_v3,
}
use fermi_v1_sdk.Intents.Instructions.{keypair}
use fermi_v1_sdk.Intents.WithIntent.{
  or_else, DirectParams, DirectWithIntent, build_v5_enqueue_direct_with_intent_ixs,
}
use fermi_v1_sdk.Triggers.Request.{
  RelayerAccountMeta, to_relayer_account_meta, TriggerOrderTermsWire,
}
use fermi_v1_sdk.Context.{PerpMarket, FermiAccount, Group, canonical_perp_remaining_accounts}

-- The largest i64, `I64_MAX_BN`
abbrev pub i64_max : ℤ
i64_max = pos 9223372036854775807

-- A market's conversions of prices and quantities `F`, two of them optional.
pub record MarketLots (F : Type 0) : Type 0 where
  pub ui_price_to_lots : F → ℤ
  pub ui_price_to_lots_for_side : Option (F → Side → ℤ)
  pub ui_price_to_lots_round_up : Option (F → ℤ)
  pub ui_base_to_lots : F → ℤ
  pub ui_quote_to_lots : F → ℤ

pub record SubmitPerpOrderParams (F : Type 0) : Type 0 where
  pub market_index : Number
  pub side : Side
  pub price : F
  pub quantity : F
  pub max_quote_quantity : Option F
  pub client_order_id : Option BigNumberish
  pub intent_client_order_id : Option BigNumberish
  pub order_type : Option OrderType
  pub self_trade_behavior : Option SelfTradeBehavior
  pub reduce_only : Option Bool
  pub expiry_timestamp : Option Number
  pub limit : Option Number

-- `minExecuteSlot`, `expiresAtSlot`, `baseFee` and `maxFeeLamports` of the three kinds of parameters
pub record SubmitOptions : Type 0 where
  pub min_execute_slot : Option ℤ
  pub expires_at_slot : Option ℤ
  pub base_fee : Option Text
  pub max_fee_lamports : Option Text

pub record SubmitPerpCancelByClientIdParams : Type 0 where
  pub market_index : Number
  pub client_order_id : BigNumberish
  pub intent_client_order_id : Option BigNumberish

pub record SubmitPerpCancelAllParams : Type 0 where
  pub market_index : Number
  pub limit : Option Number
  pub intent_client_order_id : Option BigNumberish

pub data TradingCall (F : Type 0) : Type 0 where
  place : SubmitPerpOrderParams F → TradingCall F
  cancel : SubmitPerpCancelByClientIdParams → TradingCall F
  cancel_all : SubmitPerpCancelAllParams → TradingCall F

abbrev pub market_of : {F : Type 0} → TradingCall F → Number
market_of (place p) = p.market_index
market_of (cancel p) = p.market_index
market_of (cancel_all p) = p.market_index

-- `SubmitIntentRequest` of src/relayerClient.ts
pub record SubmitIntentRequest : Type 0 where
  pub group : Text
  pub execution_queue : Text
  pub market : Text
  pub payload : Bytes
  pub remaining_accounts : List RelayerAccountMeta
  pub min_execute_slot : Text
  pub expires_at_slot : Text
  pub user_owner : Text
  pub mango_account : Text
  pub user_signature : Bytes
  pub base_fee : Option Text
  pub max_fee_lamports : Option Text
  pub intent_version : ℕ
  pub target_kind : ℕ
  pub target_index : Number
  pub client_order_id : Text
  pub trigger_order : Option TriggerOrderTermsWire

-- What the relayer's call gives back: an error with its code, or a response.
pub data Reply (R : Type 0) : Type 0 where
  failed : Option ℕ → Reply R
  answered : R → Reply R

abbrev pub resource_exhausted : ℕ
resource_exhausted = 8

abbrev pub is_some {ℓ} : {A : Type ℓ} → Option A → Bool
is_some none = false
is_some (some a) = true

abbrev pub on_reply : {R : Type 0} → Reply R → Result R
on_reply (failed none) = err "relayer error"
on_reply (failed (some code)) =
    if code == resource_exhausted
    then err "gateway rate limit hit on SubmitIntent"
    else err "relayer error"
on_reply (answered response) = ok response

-- `FermiV1RelayerClient.submitIntent`
unfoldable pub submit_intent :
    {R : Type 0} → SubmitIntentRequest → (SubmitIntentRequest → Reply R) → Result R
submit_intent request rpc = do
  throw_if (is_some request.trigger_order && not (request.intent_version == 3))
      "trigger orders require intent_version 3; refusing immediate-order routing"
  on_reply (rpc request)

unfoldable pub u64_string : BigNumberish → Result Text
u64_string value = do
  parsed ← to_big_int value
  throw_if (ltb_ℤ parsed (pos 0) || ltb_ℤ (pos u64_max) parsed) "u64 out of range"
  ok (integer_text parsed)

unfoldable pub ui_price_to_lots_for_side : {F : Type 0} → MarketLots F → F → Side → ℤ
ui_price_to_lots_for_side m price side = elim m.ui_price_to_lots_for_side [
  | some for_side ↦ for_side price side
  | none ↦ elim side [
    | bid ↦ m.ui_price_to_lots price
    | ask ↦ elim m.ui_price_to_lots_round_up [
      | some round_up ↦ round_up price
      | none ↦ m.ui_price_to_lots price
    ]
  ]
]

-- `maxQuoteQuantity ? lots : I64_MAX`: zero counts as absent, by the test `is_zero`
abbrev pub max_quote_lots : {F : Type 0} → (F → Bool) → MarketLots F → Option F → ℤ
max_quote_lots is_zero m none = i64_max
max_quote_lots is_zero m (some q) = if is_zero q then i64_max else m.ui_quote_to_lots q

-- The fields that `submitPerpOrderViaRelayer` and `submitPerpOrderDirect` encode.
unfoldable pub order_fields :
    {F : Type 0}
    → (F → Bool)
    → MarketLots F
    → SubmitPerpOrderParams F
    → BigNumberish
    → PlaceOrderFields
order_fields is_zero m p client_order_id = record {
  side = p.side;
  price_lots = big (ui_price_to_lots_for_side m p.price p.side);
  max_base_lots = big (m.ui_base_to_lots p.quantity);
  max_quote_lots = big (max_quote_lots is_zero m p.max_quote_quantity);
  client_order_id = client_order_id;
  order_type = or_else p.order_type post_only_slide;
  self_trade_behavior = or_else p.self_trade_behavior decrement_take;
  reduce_only = or_else p.reduce_only false;
  expiry_timestamp = num (or_else p.expiry_timestamp (whole (pos 0)));
  limit = or_else p.limit (whole (pos 10));
}

-- `expiresAtSlot ?? BigInt(slot + 20)`: the slot is read only where no expiry is given.
unfoldable pub direct_expiry : Option ℤ → Result ℕ → Result ℤ
direct_expiry none slot = slot >>= λ n. ok (pos (n + 20))
direct_expiry (some z) slot = ok z

module _ (W : Platform) where
  open W use {PublicKey, to_base58, sign_detached, key_of_secret}

  -- `FermiV1Context`, with the library's functions for the addresses of a market's queue
  pub record TradingContext : Type 0 where
    pub program_id : PublicKey
    pub group : Group PublicKey
    pub fermi_account : FermiAccount PublicKey
    pub secret_key : Bytes
    pub direct_pools_initialized : Option Bool
    pub authority_state : PublicKey
    pub queue_for : Number → PublicKey
    pub direct_pool_for : Number → PublicKey

  abbrev pub user_of : TradingContext → PublicKey
  user_of c = key_of_secret c.secret_key

  abbrev pub party_of : TradingContext → Party PublicKey
  party_of c = record {
    group = c.group.public_key;
    fermi_account = c.fermi_account.public_key;
    user_owner = user_of c;
  }

  -- The payload that encodes what is asked.
  abbrev pub payload_of :
      {F : Type 0}
      → (F → Bool)
      → (PerpMarket PublicKey → MarketLots F)
      → TradingContext
      → ℤ
      → TradingCall F
      → Result Bytes
  payload_of is_zero lots c random (place p) =
      c.group.perp_market_by_index p.market_index >>= λ market.
      encode_perp_place_order_v2
        (order_fields is_zero (lots market) p (or_else p.client_order_id (big random)))
  payload_of is_zero lots c random (cancel p) =
      encode_perp_cancel_order_by_client_order_id p.client_order_id
  payload_of is_zero lots c random (cancel_all p) =
      encode_perp_cancel_all_orders (or_else p.limit (whole (pos 255)))
