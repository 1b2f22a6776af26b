-- ===== src/Flp/Instructions.antt =====
-- The instructions that a pool client builds, `instruction` of src/flp/index.ts (src/flp/v4.ts builds its
-- own in the same way): the accounts of a call in the order of the interface description, which is a
-- parameter. Encoding the arguments is a library call.
pub mod Accounts
mod Tests
use fermi_v1_sdk.Base.{
  Bool, true, false, not, ◌&&◌, ◌||◌, List, [], ◌∷◌, ◌++◌, Option, none, some, Result, ok, err,
  ◌>>=◌, ◌>>◌, Text, codes, text_eq, if◌then◌else◌,
}
use fermi_v1_sdk.Wire.{Bytes}
use fermi_v1_sdk.Platform.{Platform}
use fermi_v1_sdk.Intents.Accounts.{AccountMeta, meta}
use fermi_v1_sdk.Intents.Instructions.{Instruction}

-- An account of the description, or a group of such under a name.
mutual
  pub data Item : Type 0 where
    account : (name : Text) (is_mut is_signer is_optional : Bool) → Item
    group : (name : Text) → Items → Item

  pub data Items : Type 0 where
    nil : Items
    cons : Item → Items → Items

-- `FLP_IDL.instructions`
pub record IdlInstruction : Type 0 where
  pub name : Text
  pub accounts : Items

unfoldable pub find_instruction : Text → List IdlInstruction → Option IdlInstruction
find_instruction name [] = none
find_instruction name (ix ∷ rest) =
    if text_eq ix.name name then some ix else find_instruction name rest

module _ (W : Platform) (program_id : W.PublicKey) (accounts : Text → Option W.PublicKey) where
  open W use {PublicKey, equals}

  -- `item.isOptional && (!pubkey || pubkey.equals(this.programId))`
  abbrev pub is_omitted : Bool → Option PublicKey → Bool
  is_omitted is_optional none = is_optional
  is_omitted is_optional (some k) = is_optional && equals k program_id

  unfoldable pub account_key : Text → Bool → Bool → Bool → Result (AccountMeta PublicKey)
  account_key path is_mut is_signer is_optional =
      if is_omitted is_optional (accounts path)
      then ok (meta W program_id false false)
      else elim (accounts path) [
        | none ↦ err "Missing FLP account"
        | some k ↦ ok (meta W k is_signer is_mut)
      ]

  unfoldable mutual
    unfolding account_key

    pub visit_item : Text → Item → Result (List (AccountMeta PublicKey))
    visit_item prefix (account name is_mut is_signer is_optional) =
        account_key (prefix ++ name) is_mut is_signer is_optional >>= λ m. ok (m ∷ [])
    visit_item prefix (group name items) = visit ((prefix ++ name) ++ codes ".") items

    pub visit : Text → Items → Result (List (AccountMeta PublicKey))
    visit prefix nil = ok []
    visit prefix (cons item items) =
        visit_item prefix item >>= λ here. visit prefix items >>= λ rest. ok (here ++ rest)

  unfoldable pub instruction :
      List IdlInstruction
      → Text
      → (Text → Result Bytes)
      → List (AccountMeta PublicKey)
      → Result (Instruction PublicKey)
  instruction idl name encode remaining = elim (find_instruction name idl) [
    | none ↦ err "Unknown FLP instruction"
    | some definition ↦ visit [] definition.accounts >>= λ keys. encode name >>= λ bytes.
        ok (record { program_id = program_id; keys = keys ++ remaining; data_bytes = bytes })
  ]
