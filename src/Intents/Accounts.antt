-- ===== src/Intents/Accounts.antt =====
-- The account hashes of src/intents.ts: runtime flags are merged, then the list is hashed.
pub mod Merging
pub mod Unambiguous
use fermi_v1_sdk.Base.{
  ℕ, Bool, true, false, ◌||◌, List, [], ◌∷◌, ◌++◌, map, Option, none, some, Text, text_eq,
  if◌then◌else◌,
}
use fermi_v1_sdk.Wire.{Bytes}
use fermi_v1_sdk.Platform.{Platform}
use mathlib.Core.List.{foldl}

pub record AccountMeta (K : Type 0) : Type 0 where
  pub pubkey : K
  pub is_signer : Bool
  pub is_writable : Bool

pub record Flags : Type 0 where
  pub signer : Bool
  pub writable : Bool

-- JavaScript's `Map`: an entry keeps its place when it is set again.
abbrev pub Flagged : Type 0
Flagged = List (Text × Flags)

unfoldable pub map_get : Text → Flagged → Option Flags
map_get key [] = none
map_get key ((k, v) ∷ m) = if text_eq k key then some v else map_get key m

unfoldable pub map_set : Text → Flags → Flagged → Flagged
map_set key v [] = (key, v) ∷ []
map_set key v ((k, w) ∷ m) = if text_eq k key then (k, v) ∷ m else (k, w) ∷ map_set key v m

abbrev pub flag_byte : Bool → ℕ
flag_byte true = 1
flag_byte false = 0

module _ (W : Platform) where
  open W use {PublicKey, equals, to_bytes, to_base58, sysvar_instructions, sha256}

  -- `bytes` of `hashExecutionQueueAccounts`: 34 bytes for each account
  unfoldable pub accounts_bytes : List (AccountMeta PublicKey) → Bytes
  accounts_bytes [] = []
  accounts_bytes (a ∷ rest) =
      to_bytes a.pubkey ++ (flag_byte a.is_signer ∷ flag_byte a.is_writable ∷ accounts_bytes rest)

  unfoldable pub hash_execution_queue_accounts : List (AccountMeta PublicKey) → Bytes
  unfolding accounts_bytes
  hash_execution_queue_accounts accounts = sha256 (accounts_bytes accounts)

  -- One round of the loop of `mergeEffectiveRuntimeFlags`.
  unfoldable pub merge_step : Flagged → AccountMeta PublicKey → Flagged
  merge_step merged a = elim (map_get (to_base58 a.pubkey) merged) [
    | none ↦
        map_set (to_base58 a.pubkey) (record { signer = a.is_signer; writable = a.is_writable })
          merged
    | some prev ↦
        map_set (to_base58 a.pubkey)
          (record {
            signer = prev.signer || a.is_signer;
            writable = prev.writable || a.is_writable;
          })
          merged
  ]

  unfoldable pub merge_all : Flagged → List (AccountMeta PublicKey) → Flagged
  merge_all merged [] = merged
  merge_all merged (a ∷ rest) = merge_all (merge_step merged a) rest

  unfoldable pub with_flags : Flagged → AccountMeta PublicKey → AccountMeta PublicKey
  with_flags merged a = elim (map_get (to_base58 a.pubkey) merged) [
    | none ↦ a
    | some f ↦ record { pubkey = a.pubkey; is_signer = f.signer; is_writable = f.writable }
  ]

  unfoldable pub merge_effective_runtime_flags :
      List (AccountMeta PublicKey) → List (AccountMeta PublicKey) → List (AccountMeta PublicKey)
  unfolding merge_all with_flags
  merge_effective_runtime_flags remaining fixed =
      map (with_flags (merge_all [] (fixed ++ remaining))) remaining

  abbrev pub meta : PublicKey → Bool → Bool → AccountMeta PublicKey
  meta k signer writable = record { pubkey = k; is_signer = signer; is_writable = writable }

  unfoldable pub hash_accounts_for_ctm_enqueue :
      PublicKey → PublicKey → List (AccountMeta PublicKey) → Bytes
  unfolding merge_effective_runtime_flags hash_execution_queue_accounts
  hash_accounts_for_ctm_enqueue group execution_queue remaining = hash_execution_queue_accounts (
      merge_effective_runtime_flags remaining (
        meta group false true
        ∷ meta execution_queue false true
        ∷ meta sysvar_instructions false false
        ∷ []))

  -- The flags that a direct enqueue gives to the accounts that it fixes.
  unfoldable pub direct_flags :
      PublicKey → PublicKey → AccountMeta PublicKey → AccountMeta PublicKey
  direct_flags group execution_queue a =
      if equals a.pubkey group || equals a.pubkey execution_queue
      then meta a.pubkey false true
      else if equals a.pubkey sysvar_instructions
      then meta a.pubkey false false
      else a

  -- `findIndex`, and the write at that index: only the first match changes.
  unfoldable pub clear_owner :
      PublicKey → List (AccountMeta PublicKey) → List (AccountMeta PublicKey)
  clear_owner owner [] = []
  clear_owner owner (a ∷ rest) =
      if equals a.pubkey owner then meta a.pubkey false false ∷ rest else a ∷ clear_owner owner rest

  unfoldable pub direct_accounts :
      PublicKey
      → PublicKey
      → List (AccountMeta PublicKey)
      → PublicKey
      → List (AccountMeta PublicKey)
  unfolding direct_flags clear_owner
  direct_accounts group execution_queue remaining owner =
      clear_owner owner (map (direct_flags group execution_queue) remaining)

  unfoldable pub hash_accounts_for_v5_direct_enqueue :
      PublicKey → PublicKey → List (AccountMeta PublicKey) → PublicKey → Bytes
  unfolding direct_accounts hash_execution_queue_accounts
  hash_accounts_for_v5_direct_enqueue group execution_queue remaining owner =
      hash_execution_queue_accounts (direct_accounts group execution_queue remaining owner)
