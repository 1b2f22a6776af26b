-- ===== src/Intents.antt =====
-- src/intents.ts: the payloads, messages and instructions of the execution queue.
pub mod Payload
pub mod Accounts
pub mod Messages
pub mod Instructions
pub mod WithIntent
mod Tests
use fermi_v1_sdk.Base.{ℕ}

-- `QueueSideLike`, `QueuePlaceOrderTypeLike` and `QueueSelfTradeBehaviorLike`
pub data Side : Type 0 where
  bid ask : Side

pub data OrderType : Type 0 where
  limit immediate_or_cancel post_only market post_only_slide : OrderType

pub data SelfTradeBehavior : Type 0 where
  decrement_take cancel_provide abort_transaction : SelfTradeBehavior

pub data QueuePayloadVariant : Type 0 where
  perp_place_order_v2 perp_cancel_order_by_client_order_id perp_cancel_all_orders :
      QueuePayloadVariant

abbrev pub variant_byte : QueuePayloadVariant → ℕ
variant_byte perp_place_order_v2 = 0
variant_byte perp_cancel_order_by_client_order_id = 2
variant_byte perp_cancel_all_orders = 3

-- QueueItemKind.CtmWrapped and UserIntentTargetKind.PerpMarket
abbrev pub ctm_wrapped : ℕ
ctm_wrapped = 0

abbrev pub perp_market_target : ℕ
perp_market_target = 0

abbrev pub side_to_u8 : Side → ℕ
side_to_u8 bid = 0
side_to_u8 ask = 1

abbrev pub order_type_to_u8 : OrderType → ℕ
order_type_to_u8 limit = 0
order_type_to_u8 immediate_or_cancel = 1
order_type_to_u8 post_only = 2
order_type_to_u8 market = 3
order_type_to_u8 post_only_slide = 4

abbrev pub self_trade_behavior_to_u8 : SelfTradeBehavior → ℕ
self_trade_behavior_to_u8 decrement_take = 0
self_trade_behavior_to_u8 cancel_provide = 1
self_trade_behavior_to_u8 abort_transaction = 2
