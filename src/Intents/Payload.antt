-- ===== src/Intents/Payload.antt =====
-- The queue payloads of src/intents.ts.
pub mod Layout
use fermi_v1_sdk.Base.{
  ℕ, Bool, true, false, List, [], ◌∷◌, ◌++◌, Result, ok, ◌>>=◌, Number, whole, pos, if◌then◌else◌,
}
use fermi_v1_sdk.Wire.{Bytes, BigNumberish, u8, u16_to_le, u64_to_le, i64_to_le}
use fermi_v1_sdk.Intents.{
  Side, OrderType, SelfTradeBehavior, QueuePayloadVariant, perp_place_order_v2,
  perp_cancel_order_by_client_order_id, perp_cancel_all_orders, variant_byte, side_to_u8,
  order_type_to_u8, self_trade_behavior_to_u8,
}

unfoldable pub encode_queue_payload_v1 : QueuePayloadVariant → Bytes → Result Bytes
encode_queue_payload_v1 variant body = do
  reserved ← u16_to_le (whole (pos 0))
  ok ((1 ∷ variant_byte variant ∷ []) ++ (reserved ++ body))

pub record PlaceOrderFields : Type 0 where
  pub side : Side
  pub price_lots : BigNumberish
  pub max_base_lots : BigNumberish
  pub max_quote_lots : BigNumberish
  pub client_order_id : BigNumberish
  pub order_type : OrderType
  pub self_trade_behavior : SelfTradeBehavior
  pub reduce_only : Bool
  pub expiry_timestamp : BigNumberish
  pub limit : Number

unfoldable pub place_order_body : PlaceOrderFields → Result Bytes
place_order_body fields = do
  side ← u8 (whole (pos (side_to_u8 fields.side)))
  price ← i64_to_le fields.price_lots
  base ← i64_to_le fields.max_base_lots
  quote ← i64_to_le fields.max_quote_lots
  id ← u64_to_le fields.client_order_id
  type ← u8 (whole (pos (order_type_to_u8 fields.order_type)))
  behavior ← u8 (whole (pos (self_trade_behavior_to_u8 fields.self_trade_behavior)))
  reduce ← u8 (whole (pos (if fields.reduce_only then 1 else 0)))
  expiry ← u64_to_le fields.expiry_timestamp
  limit ← u8 fields.limit
  ok (
      side
      ++ (price
          ++ (base ++ (quote ++ (id ++ (type ++ (behavior ++ (reduce ++ (expiry ++ limit)))))))))

unfoldable pub encode_perp_place_order_v2 : PlaceOrderFields → Result Bytes
unfolding place_order_body encode_queue_payload_v1
encode_perp_place_order_v2 fields = do
  body ← place_order_body fields
  encode_queue_payload_v1 perp_place_order_v2 body

unfoldable pub encode_perp_cancel_order_by_client_order_id : BigNumberish → Result Bytes
unfolding encode_queue_payload_v1
encode_perp_cancel_order_by_client_order_id client_order_id = do
  body ← u64_to_le client_order_id
  encode_queue_payload_v1 perp_cancel_order_by_client_order_id body

unfoldable pub encode_perp_cancel_all_orders : Number → Result Bytes
unfolding encode_queue_payload_v1
encode_perp_cancel_all_orders limit = do
  body ← u8 limit
  encode_queue_payload_v1 perp_cancel_all_orders body
