-- ===== src/Trading/Tests.antt =====
-- The orders of src/trading.ts on the sample group: through the relayer, and straight into the queue.
use fermi_v1_sdk.Base.{
  ℕ, ◌≡◌, ◌*◌, refl, Bool, false, [], ◌∷◌, Option, none, some, ok, err, ◌==◌, pos, ok_or,
}
use fermi_v1_sdk.Wire.{le_bytes, u8, u16_to_le, u32_to_le, u64_to_le, i64_to_le}
use fermi_v1_sdk.Platform.Sample.{sample_platform, zeros}
use fermi_v1_sdk.Intents.{ask}
use fermi_v1_sdk.Intents.Payload.{encode_perp_place_order_v2}
use fermi_v1_sdk.Intents.Messages.{
  build_perp_user_intent_message_v3, build_direct_intent_message, hash_execution_queue_payload,
}
use fermi_v1_sdk.Intents.Accounts.{
  hash_accounts_for_ctm_enqueue, hash_accounts_for_v5_direct_enqueue,
}
use fermi_v1_sdk.Intents.Instructions.{
  build_intent_ed25519_instruction, build_v5_enqueue_direct_market_ix,
}
use fermi_v1_sdk.Intents.WithIntent.{DirectWithIntent, build_v5_enqueue_direct_with_intent_ixs}
use fermi_v1_sdk.Context.{PerpMarket, canonical_perp_remaining_accounts}
use fermi_v1_sdk.Context.Sample.{group, account, two}
use fermi_v1_sdk.Trading.{
  MarketLots, SubmitPerpOrderParams, SubmitOptions, SubmitIntentRequest, Reply, failed, answered,
  TradingContext, place, payload_of, order_fields, ui_price_to_lots_for_side, submit_intent,
  direct_expiry,
}
use fermi_v1_sdk.Trading.Relay.{relay_request, via_relayer}
use fermi_v1_sdk.Trading.Relay.Authentic.{Submitted, relayed-Submitted}
use fermi_v1_sdk.Trading.Asked.{Asked}
use fermi_v1_sdk.Trading.Direct.{submit_perp_intent_direct, via_queue}
use fermi_v1_sdk.Trading.Direct.Allowed.{Allowed, direct-Allowed}

abbrev context : Option Bool → TradingContext sample_platform
context pools = record {
  program_id = 50;
  group = group;
  fermi_account = account;
  secret_key = 3 ∷ zeros 63;
  direct_pools_initialized = pools;
  authority_state = 51;
  queue_for = λ m. 52;
  direct_pool_for = λ m. 53;
}

abbrev lots : PerpMarket ℕ → MarketLots ℕ
lots m = record {
  ui_price_to_lots = λ x. pos (x * 10);
  ui_price_to_lots_for_side = none;
  ui_price_to_lots_round_up = some (λ x. pos (x * 10));
  ui_base_to_lots = λ x. pos (x * 100);
  ui_quote_to_lots = λ x. pos x;
}

abbrev order : SubmitPerpOrderParams ℕ
order = record {
  market_index = two;
  side = ask;
  price = 7;
  quantity = 2;
  max_quote_quantity = some 0;
  client_order_id = none;
  intent_client_order_id = none;
  order_type = none;
  self_trade_behavior = none;
  reduce_only = none;
  expiry_timestamp = none;
  limit = none;
}

abbrev options : SubmitOptions
options = record {
  min_execute_slot = none;
  expires_at_slot = none;
  base_fee = none;
  max_fee_lamports = none;
}

abbrev is_zero : ℕ → Bool
is_zero n = n == 0

abbrev accept : SubmitIntentRequest → Reply ℕ
accept r = answered 1

placed :
    via_relayer sample_platform accept (pos 6) is_zero lots (context none) (place order) options
    ≡ ok 1
unfolding via_relayer relay_request submit_intent encode_perp_place_order_v2 order_fields
    ui_price_to_lots_for_side build_perp_user_intent_message_v3 canonical_perp_remaining_accounts u8
    i64_to_le u64_to_le u16_to_le hash_accounts_for_ctm_enqueue
placed = refl

relayed-Submitted_example :
    (s : Submitted sample_platform accept
      (context none)
      two
      (payload_of sample_platform is_zero lots (context none) (pos 6) (place order))
      1)
    × Asked sample_platform is_zero lots (context none) (pos 6) (place order) s.request.payload
relayed-Submitted_example =
    relayed-Submitted sample_platform accept (pos 6) is_zero lots (context none) options
      (place order) placed

over_the_limit :
    via_relayer sample_platform
      (λ r. let f : Reply ℕ = failed (some 8) in f)
      (pos 6)
      is_zero
      lots
      (context none)
      (place order)
      options
    ≡ err "gateway rate limit hit on SubmitIntent"
unfolding via_relayer relay_request submit_intent encode_perp_place_order_v2 order_fields
    ui_price_to_lots_for_side build_perp_user_intent_message_v3 canonical_perp_remaining_accounts u8
    i64_to_le u64_to_le u16_to_le hash_accounts_for_ctm_enqueue
over_the_limit = refl

no_pools :
    via_queue sample_platform
      (ok 100)
      (pos 8)
      is_zero
      lots
      (pos 6)
      (context (some false))
      (place order)
      options
      none
    ≡ err "direct pools are not initialized for this deployment; use the relayer"
unfolding via_queue submit_perp_intent_direct encode_perp_place_order_v2 order_fields
    ui_price_to_lots_for_side u8 i64_to_le u64_to_le u16_to_le
no_pools = refl

abbrev unsent : DirectWithIntent ℕ
unsent = record {
  direct_intent_message = [];
  pre_instruction = record { public_key = []; message = []; signature = [] };
  enqueue_instruction = record { program_id = 0; keys = []; data_bytes = [] };
}

abbrev sent : DirectWithIntent ℕ
unfolding via_queue
sent = ok_or unsent (
    via_queue sample_platform (ok 100) (pos 8) is_zero lots (pos 6) (context none) (place order)
      options none)

direct_sent :
    via_queue sample_platform
      (ok 100)
      (pos 8)
      is_zero
      lots
      (pos 6)
      (context none)
      (place order)
      options
      none
    ≡ ok sent
unfolding via_queue submit_perp_intent_direct encode_perp_place_order_v2 order_fields
    ui_price_to_lots_for_side build_v5_enqueue_direct_with_intent_ixs
    canonical_perp_remaining_accounts u8 i64_to_le u64_to_le u16_to_le direct_expiry
    build_direct_intent_message hash_execution_queue_payload hash_accounts_for_v5_direct_enqueue
    build_intent_ed25519_instruction build_v5_enqueue_direct_market_ix u32_to_le le_bytes
direct_sent = refl

direct-Allowed_example :
    (a : Allowed sample_platform
      (ok 100)
      (context none)
      two
      (payload_of sample_platform is_zero lots (context none) (pos 6) (place order))
      options
      sent)
    × Asked sample_platform is_zero lots (context none) (pos 6) (place order) a.bytes
direct-Allowed_example =
    direct-Allowed sample_platform (ok 100) (pos 8) is_zero lots (pos 6) (context none)
      (place order) options none direct_sent
