-- ===== src/Intents/Tests.antt =====
-- The theorems of src/intents.ts at work on concrete orders.
use fermi_v1_sdk.Base.{
  ℕ, ◌≡◌, ◌≢◌, refl, true, false, List, [], ◌∷◌, ◌++◌, map, none, some, ok, ok_or, pos, whole,
}
use fermi_v1_sdk.Wire.{
  Bytes, BigNumberish, big, num, to_big_int, le_bytes, u8, u16_to_le, u32_to_le, u64_to_le,
  i64_to_le,
}
use fermi_v1_sdk.Platform.Sample.{sample_platform, sample_hash, zeros}
use fermi_v1_sdk.Intents.{bid, limit, decrement_take}
use fermi_v1_sdk.Intents.Payload.{
  PlaceOrderFields, place_order_body, encode_queue_payload_v1, encode_perp_place_order_v2,
}
use fermi_v1_sdk.Intents.Payload.Layout.{place_order-layout, OrderLayout}
use fermi_v1_sdk.Intents.Accounts.{
  AccountMeta, hash_accounts_for_v5_direct_enqueue, accounts_bytes, merge_effective_runtime_flags,
}
use fermi_v1_sdk.Intents.Accounts.Merging.{merge-effective, effective}
use fermi_v1_sdk.Intents.Accounts.Unambiguous.{accounts_bytes_injective}
use fermi_v1_sdk.Intents.Messages.{
  Party, hash_execution_queue_payload, IntentV3, DirectIntent, scope_bytes, message_v2_bytes,
  message_v3_bytes, nonce_bytes, direct_intent_bytes, build_direct_intent_message,
}
use fermi_v1_sdk.Intents.Messages.Binding.{message_v3-binds, SameV3}
use fermi_v1_sdk.Intents.Messages.Domains.{domains_apart}
use fermi_v1_sdk.Intents.Instructions.{
  presigned, build_intent_ed25519_instruction, build_v5_enqueue_direct_market_ix,
}
use fermi_v1_sdk.Intents.WithIntent.{
  DirectParams, DirectWithIntent, build_v5_enqueue_direct_with_intent_ixs,
}
use fermi_v1_sdk.Intents.WithIntent.Signed.{direct_with_intent-SignedEnqueue, SignedEnqueue}

abbrev sample_order : PlaceOrderFields
sample_order = record {
  side = bid;
  price_lots = big (pos 1000);
  max_base_lots = num (whole (pos 5));
  max_quote_lots = big (pos 5000);
  client_order_id = big (pos 77);
  order_type = limit;
  self_trade_behavior = decrement_take;
  reduce_only = false;
  expiry_timestamp = big (pos 0);
  limit = whole (pos 10);
}

abbrev sample_payload : Bytes
sample_payload =
    1 ∷ 0 ∷ 0 ∷ 0 ∷ 0 ∷ (232 ∷ 3 ∷ zeros 6)
    ++ ((5 ∷ zeros 7)
        ++ ((136 ∷ 19 ∷ zeros 6) ++ ((77 ∷ zeros 7) ++ (0 ∷ 0 ∷ 0 ∷ zeros 8 ++ 10 ∷ []))))

sample_payload_eq : encode_perp_place_order_v2 sample_order ≡ ok sample_payload
unfolding encode_perp_place_order_v2 place_order_body encode_queue_payload_v1 u8 u16_to_le u64_to_le
    i64_to_le to_big_int le_bytes
sample_payload_eq = refl

place_order-layout_example : OrderLayout sample_order sample_payload
place_order-layout_example = place_order-layout sample_order sample_payload_eq

-- An account that is read-only in the list and writable among the fixed accounts.
abbrev listed : List (AccountMeta ℕ)
listed =
    record { pubkey = 5; is_signer = true; is_writable = false }
    ∷ record { pubkey = 6; is_signer = false; is_writable = false }
    ∷ []

abbrev fixed : List (AccountMeta ℕ)
fixed = record { pubkey = 6; is_signer = false; is_writable = true } ∷ []

merge-effective_example :
    merge_effective_runtime_flags sample_platform listed fixed
    ≡ map (effective sample_platform (fixed ++ listed)) listed
merge-effective_example = merge-effective sample_platform listed fixed

listed_bytes_eq : accounts_bytes sample_platform listed ≡ accounts_bytes sample_platform listed
listed_bytes_eq = refl

accounts_bytes_injective_example : listed ≡ listed
accounts_bytes_injective_example =
    accounts_bytes_injective sample_platform listed listed listed_bytes_eq

abbrev someone : Party ℕ
someone = record { group = 1; fermi_account = 2; user_owner = 3 }

abbrev intent : BigNumberish → IntentV3 ℕ
intent id = record {
  party = someone;
  kind = whole (pos 0);
  market_index = whole (pos 4);
  payload = 1 ∷ 2 ∷ [];
  accounts_hash = zeros 32;
  min_execute_slot = big (pos 0);
  expires_at_slot = big (pos 9);
  client_order_id = id;
}

-- One id as a bigint and as a number.
abbrev intent_a : IntentV3 ℕ
intent_a = intent (big (pos 300))

abbrev intent_b : IntentV3 ℕ
intent_b = intent (num (whole (pos 300)))

abbrev intent_bytes : Bytes
unfolding message_v3_bytes scope_bytes u8 u16_to_le u64_to_le to_big_int le_bytes
intent_bytes = ok_or [] (message_v3_bytes sample_platform intent_a (sample_hash (1 ∷ 2 ∷ [])))

intent_a_eq :
    message_v3_bytes sample_platform intent_a (sample_hash intent_a.payload) ≡ ok intent_bytes
unfolding message_v3_bytes scope_bytes u8 u16_to_le u64_to_le to_big_int le_bytes intent_bytes
intent_a_eq = refl

intent_b_eq :
    message_v3_bytes sample_platform intent_b (sample_hash intent_b.payload) ≡ ok intent_bytes
unfolding message_v3_bytes scope_bytes u8 u16_to_le u64_to_le to_big_int le_bytes intent_bytes
intent_b_eq = refl

message_v3-binds_example : SameV3 sample_platform intent_a intent_b
message_v3-binds_example =
    message_v3-binds sample_platform intent_a intent_b {bs = intent_bytes} refl refl intent_a_eq
      intent_b_eq

abbrev direct : DirectIntent ℕ
direct = record {
  party = someone;
  kind = whole (pos 0);
  market_index = whole (pos 4);
  payload_hash = zeros 32;
  accounts_hash = zeros 32;
  expires_at_slot = big (pos 9);
  nonce = big (pos 1);
}

abbrev v2_bytes : Bytes
unfolding message_v2_bytes scope_bytes u8 u16_to_le le_bytes
v2_bytes =
    ok_or [] (message_v2_bytes sample_platform someone (whole (pos 0)) (whole (pos 4)) (zeros 32))

v2_eq :
    message_v2_bytes sample_platform someone (whole (pos 0)) (whole (pos 4)) (zeros 32)
    ≡ ok v2_bytes
unfolding message_v2_bytes scope_bytes u8 u16_to_le le_bytes v2_bytes
v2_eq = refl

abbrev replay_bytes : Bytes
unfolding nonce_bytes scope_bytes u8 u16_to_le u64_to_le to_big_int le_bytes
replay_bytes =
    ok_or [] (nonce_bytes sample_platform someone (whole (pos 0)) (whole (pos 4)) (big (pos 1)))

replay_eq :
    nonce_bytes sample_platform someone (whole (pos 0)) (whole (pos 4)) (big (pos 1))
    ≡ ok replay_bytes
unfolding nonce_bytes scope_bytes u8 u16_to_le u64_to_le to_big_int le_bytes replay_bytes
replay_eq = refl

abbrev direct_bytes : Bytes
unfolding direct_intent_bytes scope_bytes u8 u16_to_le u64_to_le to_big_int le_bytes
direct_bytes = ok_or [] (direct_intent_bytes sample_platform direct)

direct_eq : direct_intent_bytes sample_platform direct ≡ ok direct_bytes
unfolding direct_intent_bytes scope_bytes u8 u16_to_le u64_to_le to_big_int le_bytes direct_bytes
direct_eq = refl

domains_apart_example :
    (v2_bytes ≢ intent_bytes)
    × (v2_bytes ≢ replay_bytes)
    × (v2_bytes ≢ direct_bytes)
    × (intent_bytes ≢ replay_bytes)
    × (intent_bytes ≢ direct_bytes)
    × (replay_bytes ≢ direct_bytes)
domains_apart_example =
    domains_apart sample_platform someone someone (whole (pos 0)) (whole (pos 4)) (whole (pos 0))
      (whole (pos 4)) (zeros 32) (sample_hash intent_a.payload) intent_a (big (pos 1)) direct
      {b2 = v2_bytes} {b3 = intent_bytes} {bn = replay_bytes} {bd = direct_bytes} v2_eq intent_a_eq
      replay_eq direct_eq

abbrev direct_params : DirectParams ℕ
direct_params = record {
  program_id = 10;
  party = someone;
  authority_state = 11;
  queue = 12;
  direct_pool = 13;
  market_index = whole (pos 4);
  remaining = listed;
  payload = 1 ∷ 2 ∷ [];
  kind = none;
  expires_at_slot = some (big (pos 9));
  nonce = big (pos 1);
  user_signer = presigned 3 (zeros 64);
}

abbrev no_enqueue : DirectWithIntent ℕ
no_enqueue = record {
  direct_intent_message = [];
  pre_instruction = record { public_key = []; message = []; signature = [] };
  enqueue_instruction = record { program_id = 0; keys = []; data_bytes = [] };
}

abbrev direct_enqueue : DirectWithIntent ℕ
unfolding build_v5_enqueue_direct_with_intent_ixs
direct_enqueue =
    ok_or no_enqueue (build_v5_enqueue_direct_with_intent_ixs sample_platform direct_params)

direct_enqueue_eq :
    build_v5_enqueue_direct_with_intent_ixs sample_platform direct_params ≡ ok direct_enqueue
unfolding build_v5_enqueue_direct_with_intent_ixs build_direct_intent_message direct_intent_bytes
    scope_bytes u8 u16_to_le u32_to_le u64_to_le to_big_int le_bytes
    build_intent_ed25519_instruction build_v5_enqueue_direct_market_ix direct_enqueue
    hash_execution_queue_payload hash_accounts_for_v5_direct_enqueue
direct_enqueue_eq = refl

direct_with_intent-SignedEnqueue_example :
    SignedEnqueue sample_platform direct_params direct_enqueue
direct_with_intent-SignedEnqueue_example =
    direct_with_intent-SignedEnqueue sample_platform direct_params {r = direct_enqueue}
      direct_enqueue_eq
