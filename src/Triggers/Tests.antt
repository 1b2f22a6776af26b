-- ===== src/Triggers/Tests.antt =====
-- The theorems of src/triggerOrders.ts at work on a long position with a stop loss and a take profit.
use fermi_v1_sdk.Base.{
  ℕ, ◌≡◌, ◌↔◌, refl, arith, List, [], ◌∷◌, none, some, ok, ok_or, IsOk, pos, whole, codes,
}
use fermi_v1_sdk.Wire.{Bytes, read_u64, le_value}
use fermi_v1_sdk.Wire.RoundTrip.{signed}
use fermi_v1_sdk.Wire.{to_big_int, le_bytes, u8, u16_to_le, u64_to_le, i64_to_le}
use fermi_v1_sdk.Base.{text_eq}
use fermi_v1_sdk.Intents.Payload.{
  encode_perp_place_order_v2, place_order_body, encode_queue_payload_v1,
}
use fermi_v1_sdk.Intents.Accounts.{hash_accounts_for_ctm_enqueue}
use fermi_v1_sdk.Intents.Messages.{
  build_perp_user_intent_message_v3, message_v3_bytes, scope_bytes, hash_execution_queue_payload,
}
use fermi_v1_sdk.Triggers.{integer, market_index, u16, u64}
use fermi_v1_sdk.Triggers.Legs.{
  checked_limit, slippage, check_oracle, check_size, first_salt, draw, leg_message, oco_group_of,
  build_each,
}
use fermi_v1_sdk.Platform.Sample.{sample_platform, zeros}
use fermi_v1_sdk.Triggers.Terms.{TriggerTerms, trigger_terms_bytes, trigger_terms_commitment}
use fermi_v1_sdk.Triggers.Terms.Binding.{trigger_terms_bytes-binds}
use fermi_v1_sdk.Triggers.Legs.{
  SlTpParams, SlTpLeg, LegOptions, all_lots, commit, build_trigger_order_leg, build_sl_tp_legs,
  is_long,
}
use fermi_v1_sdk.Triggers.Legs.Safe.{SafeLeg, built_leg-SafeLeg, default_limit-slippage, Slipped}
use fermi_v1_sdk.Triggers.Legs.Returns.{commit-returns}
use fermi_v1_sdk.Triggers.Legs.Groups.{Grouped, build_sl_tp_legs-Grouped}
use fermi_v1_sdk.Triggers.Request.{sign_trigger_order_leg, trigger_order_request}
use fermi_v1_sdk.Triggers.Request.Intact.{Intact, request_iff}
use fermi_v1_sdk.Triggers.Request.Accepted.{build-sign-request}
use fermi_v1_sdk.Triggers.Request.Sent.{Sent, request-Sent}
use fermi_v1_sdk.Triggers.Cancel.{
  TriggerCancelParams, cancel_message_bytes, check_market, ids_bytes, scope_code,
}
use fermi_v1_sdk.Triggers.Cancel.Binding.{cancel_message-binds, SameCancel}

abbrev position : SlTpParams ℕ
position = record {
  group = 1;
  execution_queue = 4;
  market_index = whole (pos 7);
  fermi_account = 2;
  signer = 3;
  remaining_accounts = [];
  position = codes "long";
  size = all_lots;
  stop_loss_price_lots = some (pos 900);
  take_profit_price_lots = some (pos 1200);
  slippage_bps = whole (pos 50);
  expiry_ts = pos 1900000000;
  oracle_price_lots = some (pos 1000);
}

abbrev plain_options : LegOptions
plain_options = record { oco_group = none; salt = none; limit_price_lots = none }

abbrev no_leg : SlTpLeg ℕ
no_leg = record {
  kind = 0;
  terms = record {
    kind = 0;
    direction = 0;
    trigger_price_lots = pos 0;
    oco_group = pos 0;
    expiry_ts = pos 0;
    salt = pos 0;
  };
  client_order_id = pos 0;
  payload = [];
  intent_hash = [];
  params = position;
}

abbrev stop_leg : SlTpLeg ℕ × List ℕ
unfolding build_trigger_order_leg
stop_leg =
    ok_or (no_leg, [])
      (build_trigger_order_leg sample_platform position 0 (pos 900) plain_options (42 ∷ []))

stop_leg_eq :
    build_trigger_order_leg sample_platform position 0 (pos 900) plain_options (42 ∷ [])
    ≡ ok stop_leg
unfolding build_trigger_order_leg checked_limit integer market_index slippage check_oracle
    check_size first_salt draw commit trigger_terms_commitment trigger_terms_bytes u16 u64 le_bytes
    le_value encode_perp_place_order_v2 place_order_body encode_queue_payload_v1 u8 u16_to_le
    u64_to_le i64_to_le to_big_int leg_message build_perp_user_intent_message_v3 message_v3_bytes
    scope_bytes hash_execution_queue_payload hash_accounts_for_ctm_enqueue text_eq stop_leg
stop_leg_eq = refl

abbrev secret_key : Bytes
secret_key = 3 ∷ zeros 63

stop_leg_signed : sign_trigger_order_leg sample_platform stop_leg.0 secret_key ≡ ok (zeros 64)
unfolding build_trigger_order_leg checked_limit integer market_index slippage check_oracle
    check_size first_salt draw commit trigger_terms_commitment trigger_terms_bytes u16 u64 le_bytes
    le_value encode_perp_place_order_v2 place_order_body encode_queue_payload_v1 u8 u16_to_le
    u64_to_le i64_to_le to_big_int leg_message build_perp_user_intent_message_v3 message_v3_bytes
    scope_bytes hash_execution_queue_payload hash_accounts_for_ctm_enqueue text_eq stop_leg
    sign_trigger_order_leg
stop_leg_signed = refl

built_leg-SafeLeg_example : SafeLeg sample_platform position 0 (pos 900) stop_leg.0
built_leg-SafeLeg_example =
    built_leg-SafeLeg sample_platform position 0 (pos 900) plain_options (42 ∷ []) {r = stop_leg}
      stop_leg_eq

build-sign-request_example :
    IsOk (trigger_order_request sample_platform stop_leg.0 (zeros 64) (codes "AUTO"))
build-sign-request_example =
    build-sign-request sample_platform position 0 (pos 900) plain_options (42 ∷ []) secret_key
      (codes "AUTO") {r = stop_leg} {signature = zeros 64} stop_leg_eq stop_leg_signed

default_limit-slippage_example :
    (price limit : ℕ) × (pos 900 ≡ pos price)
    × (signed (read_u64 stop_leg.0.payload 5) ≡ pos limit)
    × Slipped (is_long position.position) price limit 50
default_limit-slippage_example =
    default_limit-slippage sample_platform position 0 (pos 900) none none (42 ∷ []) 50
      {r = stop_leg} refl stop_leg_eq

request_iff_example :
    IsOk (trigger_order_request sample_platform stop_leg.0 (zeros 64) (codes "AUTO"))
    ↔ Intact sample_platform stop_leg.0 (zeros 64)
request_iff_example = request_iff sample_platform stop_leg.0 (zeros 64) (codes "AUTO")

request-Sent_example : Sent sample_platform stop_leg.0 (zeros 64) build-sign-request_example.0
request-Sent_example =
    request-Sent sample_platform stop_leg.0 (zeros 64) (codes "AUTO")
      {r = build-sign-request_example.0} build-sign-request_example.1

abbrev both_legs : List (SlTpLeg ℕ) × List ℕ
unfolding build_sl_tp_legs
both_legs = ok_or ([], []) (build_sl_tp_legs sample_platform position (77 ∷ 42 ∷ 43 ∷ []))

both_legs_eq : build_sl_tp_legs sample_platform position (77 ∷ 42 ∷ 43 ∷ []) ≡ ok both_legs
unfolding build_sl_tp_legs both_legs oco_group_of build_each build_trigger_order_leg checked_limit
    integer market_index slippage check_oracle check_size first_salt draw commit
    trigger_terms_commitment trigger_terms_bytes u16 u64 le_bytes le_value
    encode_perp_place_order_v2 place_order_body encode_queue_payload_v1 u8 u16_to_le u64_to_le
    i64_to_le to_big_int leg_message build_perp_user_intent_message_v3 message_v3_bytes scope_bytes
    hash_execution_queue_payload hash_accounts_for_ctm_enqueue text_eq
both_legs_eq = refl

build_sl_tp_legs-Grouped_example : Grouped sample_platform position both_legs.0
build_sl_tp_legs-Grouped_example =
    build_sl_tp_legs-Grouped sample_platform position (77 ∷ 42 ∷ 43 ∷ []) {r = both_legs}
      both_legs_eq

abbrev terms_with : ℕ → TriggerTerms
terms_with salt = record {
  kind = 0;
  direction = 1;
  trigger_price_lots = pos 900;
  oco_group = pos 0;
  expiry_ts = pos 1900000000;
  salt = pos salt;
}

-- The commitment of the sample platform is the low byte of the salt.
commits_to_0 : trigger_terms_commitment sample_platform 1 2 (whole (pos 7)) (terms_with 0) ≡ ok 0
unfolding trigger_terms_commitment trigger_terms_bytes market_index integer u16 u64 le_bytes
    le_value
commits_to_0 = refl

again_0 : trigger_terms_commitment sample_platform 1 2 (whole (pos 7)) (terms_with 256) ≡ ok 0
unfolding trigger_terms_commitment trigger_terms_bytes market_index integer u16 u64 le_bytes
    le_value
again_0 = refl

commits_to_7 : trigger_terms_commitment sample_platform 1 2 (whole (pos 7)) (terms_with 7) ≡ ok 7
unfolding trigger_terms_commitment trigger_terms_bytes market_index integer u16 u64 le_bytes
    le_value
commits_to_7 = refl

commit-returns_example :
    commit sample_platform 1 2 (whole (pos 7)) (terms_with 0) (256 ∷ 7 ∷ [])
    ≡ ok (record { terms = terms_with 7; id = 7; draws = [] })
commit-returns_example =
    commit-returns sample_platform 1 2 (whole (pos 7)) (terms_with 0) (256 ∷ []) 7 [] 7 commits_to_0
      (again_0, tt) commits_to_7 (omega arith)

abbrev terms_bytes : Bytes
unfolding trigger_terms_bytes
terms_bytes = ok_or [] (trigger_terms_bytes sample_platform 1 2 (whole (pos 7)) (terms_with 7))

terms_bytes_eq :
    trigger_terms_bytes sample_platform 1 2 (whole (pos 7)) (terms_with 7) ≡ ok terms_bytes
unfolding trigger_terms_bytes market_index integer u16 u64 le_bytes terms_bytes
terms_bytes_eq = refl

trigger_terms_bytes-binds_example :
    (◌≡◌ {A = ℕ} 1 1)
    × (◌≡◌ {A = ℕ} 2 2)
    × (whole (pos 7) ≡ whole (pos 7))
    × (terms_with 7 ≡ terms_with 7)
trigger_terms_bytes-binds_example =
    trigger_terms_bytes-binds sample_platform 1 1 2 2 (whole (pos 7)) (whole (pos 7)) (terms_with 7)
      (terms_with 7) {bs = terms_bytes} terms_bytes_eq terms_bytes_eq

-- One cancellation of two orders, with the defaults absent and written out.
abbrev cancel : TriggerCancelParams ℕ
cancel = record {
  group = 1;
  fermi_account = 2;
  signer = 3;
  issued_at_ms = pos 1700000000000;
  scope = codes "ids";
  client_order_ids = some (pos 7 ∷ pos 8 ∷ []);
  oco_group = none;
  market_index = none;
}

abbrev same_cancel : TriggerCancelParams ℕ
same_cancel = record {
  group = 1;
  fermi_account = 2;
  signer = 3;
  issued_at_ms = pos 1700000000000;
  scope = codes "ids";
  client_order_ids = some (pos 7 ∷ pos 8 ∷ []);
  oco_group = some (pos 0);
  market_index = none;
}

abbrev cancel_bytes : Bytes
unfolding cancel_message_bytes
cancel_bytes = ok_or [] (cancel_message_bytes sample_platform cancel)

cancel_eq : cancel_message_bytes sample_platform cancel ≡ ok cancel_bytes
unfolding cancel_message_bytes cancel_bytes check_market ids_bytes scope_code market_index integer
    u16 u64 le_bytes text_eq
cancel_eq = refl

same_cancel_eq : cancel_message_bytes sample_platform same_cancel ≡ ok cancel_bytes
unfolding cancel_message_bytes cancel_bytes check_market ids_bytes scope_code market_index integer
    u16 u64 le_bytes text_eq
same_cancel_eq = refl

cancel_message-binds_example : SameCancel sample_platform cancel same_cancel
cancel_message-binds_example =
    cancel_message-binds sample_platform cancel same_cancel {bs = cancel_bytes} cancel_eq
      same_cancel_eq
