-- ===== src/Intents/WithIntent.antt =====
-- The pairs of instructions of src/intents.ts: the signature check of a message, and the enqueue that
-- the message allows.
pub mod Signed
use fermi_v1_sdk.Base.{
  ℕ, Bool, false, not, List, [], ◌∷◌, Option, none, some, Result, ok, err, ◌>>=◌, ◌>>◌, throw_if,
  Number, whole, pos, ℤ, leb_ℤ, eq_ℤ,
}
use fermi_v1_sdk.Wire.{Bytes, BigNumberish, big, num, to_big_int}
use fermi_v1_sdk.Platform.{Platform}
use fermi_v1_sdk.Intents.{ctm_wrapped}
use fermi_v1_sdk.Intents.Accounts.{
  AccountMeta, hash_accounts_for_ctm_enqueue, hash_accounts_for_v5_direct_enqueue,
}
use fermi_v1_sdk.Intents.Messages.{
  Party, DirectIntent, SignedMessage, hash_execution_queue_payload,
  build_perp_user_intent_message_v2, build_direct_intent_message,
}
use fermi_v1_sdk.Intents.Instructions.{
  CtmEnvelopeWire, IntentSigner, Instruction, Ed25519Check, build_intent_ed25519_instruction,
  build_enqueue_direct_ix, build_v5_enqueue_direct_market_ix,
}

pub record WithIntentParams (K : Type 0) : Type 0 where
  pub program_id : K
  pub party : Party K
  pub execution_queue : K
  pub market_index : Number
  pub remaining : List (AccountMeta K)
  pub payload : Bytes
  pub min_execute_slot : Option BigNumberish
  pub expires_at_slot : Option BigNumberish
  pub user_signer : IntentSigner K

pub record WithIntent (K : Type 0) : Type 0 where
  pub envelope : CtmEnvelopeWire
  pub user_intent_message : Bytes
  pub pre_instruction : Ed25519Check
  pub enqueue_instruction : Instruction K

pub record DirectParams (K : Type 0) : Type 0 where
  pub program_id : K
  pub party : Party K
  pub authority_state : K
  pub queue : K
  pub direct_pool : K
  pub market_index : Number
  pub remaining : List (AccountMeta K)
  pub payload : Bytes
  pub kind : Option Number
  pub expires_at_slot : Option BigNumberish
  pub nonce : BigNumberish
  pub user_signer : IntentSigner K

pub record DirectWithIntent (K : Type 0) : Type 0 where
  pub direct_intent_message : Bytes
  pub pre_instruction : Ed25519Check
  pub enqueue_instruction : Instruction K

-- `value ?? other`
abbrev pub or_else {ℓ} : {A : Type ℓ} → Option A → A → A
or_else none d = d
or_else (some a) d = a

abbrev pub zero_number : Number
zero_number = whole (pos 0)

-- `kind !== QueueItemKind.CtmWrapped`
abbrev pub is_ctm_wrapped : Number → Bool
is_ctm_wrapped (whole z) = eq_ℤ z (pos ctm_wrapped)
is_ctm_wrapped _ = false

module _ (W : Platform) where
  open W use {PublicKey}

  unfoldable pub build_enqueue_direct_with_intent_ixs :
      WithIntentParams PublicKey → Result (WithIntent PublicKey)
  build_enqueue_direct_with_intent_ixs p = do
    signed ← build_perp_user_intent_message_v2 W p.party zero_number p.market_index p.payload
    let accounts_hash = hash_accounts_for_ctm_enqueue W p.party.group p.execution_queue p.remaining
    slot ← to_big_int (or_else p.min_execute_slot (num zero_number))
    expires ← to_big_int (or_else p.expires_at_slot (num zero_number))
    let envelope : CtmEnvelopeWire = record {
      sequence = pos 0;
      min_execute_slot = slot;
      kind = whole (pos ctm_wrapped);
      payload_hash = signed.payload_hash;
      accounts_hash = accounts_hash;
      expires_at_slot = expires;
    }
    check ← build_intent_ed25519_instruction W signed.user_intent_message p.user_signer
    enqueue ←
        build_enqueue_direct_ix W p.program_id p.party.group p.execution_queue p.market_index
          p.remaining envelope p.payload
    ok (record {
      envelope = envelope;
      user_intent_message = signed.user_intent_message;
      pre_instruction = check;
      enqueue_instruction = enqueue;
    })

  -- What the user signs for a direct enqueue.
  abbrev pub direct_intent_of : DirectParams PublicKey → Number → ℤ → DirectIntent PublicKey
  direct_intent_of p kind expires = record {
    party = p.party;
    kind = kind;
    market_index = p.market_index;
    payload_hash = hash_execution_queue_payload W p.payload;
    accounts_hash =
        hash_accounts_for_v5_direct_enqueue W p.party.group p.queue p.remaining p.party.user_owner;
    expires_at_slot = big expires;
    nonce = p.nonce;
  }

  unfoldable pub build_v5_enqueue_direct_with_intent_ixs :
      DirectParams PublicKey → Result (DirectWithIntent PublicKey)
  build_v5_enqueue_direct_with_intent_ixs p = do
    let kind = or_else p.kind (whole (pos ctm_wrapped))
    throw_if (not (is_ctm_wrapped kind)) "v5 direct enqueue requires QueueItemKind.CtmWrapped"
    expires ← to_big_int (or_else p.expires_at_slot (num zero_number))
    throw_if (leb_ℤ expires (pos 0)) "r9 direct intents require a non-zero expiresAtSlot"
    message ← build_direct_intent_message W (direct_intent_of p kind expires)
    check ← build_intent_ed25519_instruction W message p.user_signer
    enqueue ←
        build_v5_enqueue_direct_market_ix W p.program_id p.authority_state p.queue p.direct_pool
          p.party.group p.market_index p.payload kind (big expires) p.nonce p.remaining
    ok (record {
      direct_intent_message = message;
      pre_instruction = check;
      enqueue_instruction = enqueue;
    })
