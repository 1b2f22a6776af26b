-- ===== src/Intents/Messages.antt =====
-- The messages of src/intents.ts that a user signs, each the SHA-256 of the bytes built here.
pub mod Binding
pub mod Domains
use fermi_v1_sdk.Base.{
  ℕ, List, [], ◌∷◌, ◌++◌, Result, ok, ◌>>=◌, ◌>>◌, throw_if, Number, whole, pos, Text, codes,
  length, not, ◌==◌,
}
use fermi_v1_sdk.Wire.{Bytes, BigNumberish, u8, u16_to_le, u64_to_le}
use fermi_v1_sdk.Platform.{Platform}
use fermi_v1_sdk.Intents.{perp_market_target}

abbrev pub user_intent_domain : Bytes
user_intent_domain = codes "mango-v5-user-intent-v2"

abbrev pub legacy_user_intent_domain : Bytes
legacy_user_intent_domain = codes "mango-v4-user-intent-v2"

abbrev pub user_nonce_domain : Bytes
user_nonce_domain = codes "mango-v5-user-nonce-v1"

abbrev pub direct_intent_domain : Bytes
direct_intent_domain = codes "mango-v5-direct-intent-v1"

-- Whom an intent is for, which every message names.
pub record Party (K : Type 0) : Type 0 where
  pub group : K
  pub fermi_account : K
  pub user_owner : K

pub record IntentV3 (K : Type 0) : Type 0 where
  pub party : Party K
  pub kind : Number
  pub market_index : Number
  pub payload : Bytes
  pub accounts_hash : Bytes
  pub min_execute_slot : BigNumberish
  pub expires_at_slot : BigNumberish
  pub client_order_id : BigNumberish

pub record DirectIntent (K : Type 0) : Type 0 where
  pub party : Party K
  pub kind : Number
  pub market_index : Number
  pub payload_hash : Bytes
  pub accounts_hash : Bytes
  pub expires_at_slot : BigNumberish
  pub nonce : BigNumberish

pub record SignedMessage : Type 0 where
  pub payload_hash : Bytes
  pub user_intent_message : Bytes

module _ (W : Platform) where
  open W use {PublicKey, to_bytes, sha256}

  unfoldable pub hash_execution_queue_payload : Bytes → Bytes
  hash_execution_queue_payload payload = sha256 payload

  -- group, account, owner, kind, target and market: what follows the domain in each message
  unfoldable pub scope_bytes : Party PublicKey → Number → Number → Result Bytes
  scope_bytes party kind market_index = do
    k ← u8 kind
    t ← u8 (whole (pos perp_market_target))
    m ← u16_to_le market_index
    ok (
        to_bytes party.group
        ++ (to_bytes party.fermi_account ++ (to_bytes party.user_owner ++ (k ++ (t ++ m)))))

  unfoldable pub message_v2_bytes : Party PublicKey → Number → Number → Bytes → Result Bytes
  unfolding scope_bytes
  message_v2_bytes party kind market_index payload_hash = do
    scope ← scope_bytes party kind market_index
    ok (legacy_user_intent_domain ++ (scope ++ payload_hash))

  unfoldable pub build_perp_user_intent_message_v2 :
      Party PublicKey → Number → Number → Bytes → Result SignedMessage
  unfolding hash_execution_queue_payload message_v2_bytes
  build_perp_user_intent_message_v2 party kind market_index payload = do
    let payload_hash = hash_execution_queue_payload payload
    bytes ← message_v2_bytes party kind market_index payload_hash
    ok (record { payload_hash = payload_hash; user_intent_message = sha256 bytes })

  unfoldable pub message_v3_bytes : IntentV3 PublicKey → Bytes → Result Bytes
  unfolding scope_bytes
  message_v3_bytes i payload_hash = do
    scope ← scope_bytes i.party i.kind i.market_index
    slot ← u64_to_le i.min_execute_slot
    expires ← u64_to_le i.expires_at_slot
    id ← u64_to_le i.client_order_id
    ok (
        user_intent_domain
        ++ (scope ++ (payload_hash ++ (i.accounts_hash ++ (slot ++ (expires ++ id))))))

  unfoldable pub build_perp_user_intent_message_v3 : IntentV3 PublicKey → Result SignedMessage
  unfolding hash_execution_queue_payload message_v3_bytes
  build_perp_user_intent_message_v3 i = do
    throw_if (not (length i.accounts_hash == 32)) "accountsHash must be 32 bytes"
    let payload_hash = hash_execution_queue_payload i.payload
    bytes ← message_v3_bytes i payload_hash
    ok (record { payload_hash = payload_hash; user_intent_message = sha256 bytes })

  unfoldable pub nonce_bytes : Party PublicKey → Number → Number → BigNumberish → Result Bytes
  unfolding scope_bytes
  nonce_bytes party kind market_index nonce = do
    scope ← scope_bytes party kind market_index
    n ← u64_to_le nonce
    ok (user_nonce_domain ++ (scope ++ n))

  unfoldable pub build_user_nonce_replay_hash :
      Party PublicKey → Number → Number → BigNumberish → Result Bytes
  unfolding nonce_bytes
  build_user_nonce_replay_hash party kind market_index nonce = do
    bytes ← nonce_bytes party kind market_index nonce
    ok (sha256 bytes)

  unfoldable pub direct_intent_bytes : DirectIntent PublicKey → Result Bytes
  unfolding scope_bytes
  direct_intent_bytes i = do
    scope ← scope_bytes i.party i.kind i.market_index
    expires ← u64_to_le i.expires_at_slot
    n ← u64_to_le i.nonce
    ok (direct_intent_domain ++ (scope ++ (i.payload_hash ++ (i.accounts_hash ++ (expires ++ n)))))

  unfoldable pub build_direct_intent_message : DirectIntent PublicKey → Result Bytes
  unfolding direct_intent_bytes
  build_direct_intent_message i = do
    throw_if (not (length i.payload_hash == 32)) "payloadHash must be 32 bytes"
    throw_if (not (length i.accounts_hash == 32)) "accountsHash must be 32 bytes"
    bytes ← direct_intent_bytes i
    ok (sha256 bytes)
