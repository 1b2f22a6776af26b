-- ===== src/Trading/Direct.antt =====
-- The orders of src/trading.ts that go straight into the queue. Sending the transaction is a library
-- call: what is sent is the pair of instructions.
pub mod Allowed
use fermi_v1_sdk.Base.{
  ℕ, Bool, true, false, not, List, Option, none, some, Result, ok, err, ◌>>=◌, ◌>>◌, throw_if, ℤ,
  pos, negsuc, eq_ℤ, Number, whole,
}
use fermi_v1_sdk.Wire.{Bytes, BigNumberish, big}
use fermi_v1_sdk.Platform.{Platform}
use fermi_v1_sdk.Intents.Accounts.{AccountMeta}
use fermi_v1_sdk.Intents.Instructions.{keypair}
use fermi_v1_sdk.Intents.WithIntent.{
  or_else, DirectParams, DirectWithIntent, build_v5_enqueue_direct_with_intent_ixs,
}
use fermi_v1_sdk.Intents.Payload.{
  encode_perp_place_order_v2, encode_perp_cancel_order_by_client_order_id,
  encode_perp_cancel_all_orders,
}
use fermi_v1_sdk.Context.{PerpMarket, canonical_perp_remaining_accounts}
use fermi_v1_sdk.Trading.{
  MarketLots, SubmitPerpOrderParams, SubmitOptions, SubmitPerpCancelByClientIdParams,
  SubmitPerpCancelAllParams, TradingCall, place, cancel, cancel_all, order_fields, direct_expiry,
  TradingContext, user_of, party_of,
}

-- `deployment?.directPoolsInitialized === false`
abbrev pub pools_missing : Option Bool → Bool
pools_missing (some false) = true
pools_missing _ = false

module _ (W : Platform) where
  open W use {PublicKey}

  abbrev pub direct_params :
      (c : TradingContext W) (market_index : Number) (payload : Bytes)
      (remaining : List (AccountMeta PublicKey)) (expires : ℤ) (nonce : BigNumberish)
      → DirectParams PublicKey
  direct_params c market_index payload remaining expires nonce = record {
    program_id = c.program_id;
    party = party_of W c;
    authority_state = c.authority_state;
    queue = c.queue_for market_index;
    direct_pool = c.direct_pool_for market_index;
    market_index = market_index;
    remaining = remaining;
    payload = payload;
    kind = none;
    expires_at_slot = some (big expires);
    nonce = nonce;
    user_signer = keypair c.secret_key none;
  }

  -- `slot` is the connection's confirmed slot, `random` the random nonce.
  module _ (slot : Result ℕ) (random : ℤ) where
    unfoldable pub submit_perp_intent_direct :
        TradingContext W
        → Number
        → Bytes
        → SubmitOptions
        → Option BigNumberish
        → Result (DirectWithIntent PublicKey)
    submit_perp_intent_direct c market_index payload options nonce = do
      throw_if (pools_missing c.direct_pools_initialized)
          "direct pools are not initialized for this deployment; use the relayer"
      throw_if (not (eq_ℤ (or_else options.min_execute_slot (pos 0)) (pos 0)))
          "v5 direct enqueue does not support minExecuteSlot; use expiresAtSlot only"
      remaining ←
          canonical_perp_remaining_accounts W c.group c.fermi_account (user_of W c) market_index
      expires ← direct_expiry options.expires_at_slot slot
      build_v5_enqueue_direct_with_intent_ixs W
          (direct_params c market_index payload remaining expires (or_else nonce (big random)))

    -- `order_random` stands for the client order id where none is given.
    unfoldable pub submit_perp_order_direct :
        {F : Type 0}
        → (F → Bool)
        → (PerpMarket PublicKey → MarketLots F)
        → ℤ
        → TradingContext W
        → SubmitPerpOrderParams F
        → SubmitOptions
        → Option BigNumberish
        → Result (DirectWithIntent PublicKey)
    submit_perp_order_direct is_zero lots order_random c p options nonce = do
      market ← c.group.perp_market_by_index p.market_index
      payload ←
          encode_perp_place_order_v2
            (order_fields is_zero (lots market) p (or_else p.client_order_id (big order_random)))
      submit_perp_intent_direct c p.market_index payload options nonce

    unfoldable pub cancel_perp_order_by_client_id_direct :
        TradingContext W
        → SubmitPerpCancelByClientIdParams
        → SubmitOptions
        → Option BigNumberish
        → Result (DirectWithIntent PublicKey)
    cancel_perp_order_by_client_id_direct c p options nonce = do
      payload ← encode_perp_cancel_order_by_client_order_id p.client_order_id
      submit_perp_intent_direct c p.market_index payload options nonce

    unfoldable pub cancel_all_perp_orders_direct :
        TradingContext W
        → SubmitPerpCancelAllParams
        → SubmitOptions
        → Option BigNumberish
        → Result (DirectWithIntent PublicKey)
    cancel_all_perp_orders_direct c p options nonce = do
      payload ← encode_perp_cancel_all_orders (or_else p.limit (whole (pos 255)))
      submit_perp_intent_direct c p.market_index payload options nonce

    -- The three functions as one.
    unfoldable pub via_queue :
        {F : Type 0}
        → (F → Bool)
        → (PerpMarket PublicKey → MarketLots F)
        → ℤ
        → TradingContext W
        → TradingCall F
        → SubmitOptions
        → Option BigNumberish
        → Result (DirectWithIntent PublicKey)
    unfolding submit_perp_order_direct cancel_perp_order_by_client_id_direct
        cancel_all_perp_orders_direct
    via_queue is_zero lots order_random c (place p) options nonce =
        submit_perp_order_direct is_zero lots order_random c p options nonce
    via_queue is_zero lots order_random c (cancel p) options nonce =
        cancel_perp_order_by_client_id_direct c p options nonce
    via_queue is_zero lots order_random c (cancel_all p) options nonce =
        cancel_all_perp_orders_direct c p options nonce
