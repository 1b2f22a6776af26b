-- ===== src/Intents/Instructions.antt =====
-- The instructions of src/intents.ts that put an order into the execution queue.
use fermi_v1_sdk.Base.{
  true, false, not, List, [], ◌∷◌, ◌++◌, Option, none, some, Result, ok, ◌>>=◌, ◌>>◌, throw_if,
  Number, whole, pos, ℤ, length, codes, String, ◌==◌, take, drop,
}
use fermi_v1_sdk.Wire.{Bytes, BigNumberish, big, u8, u16_to_le, u32_to_le, u64_to_le}
use fermi_v1_sdk.Platform.{Platform}
use fermi_v1_sdk.Intents.Accounts.{AccountMeta, meta}

pub record CtmEnvelopeWire : Type 0 where
  pub sequence : ℤ
  pub min_execute_slot : ℤ
  pub kind : Number
  pub payload_hash : Bytes
  pub accounts_hash : Bytes
  pub expires_at_slot : ℤ

-- `IntentSigner`: a key pair with an optional public key of its own, or a finished signature
pub data IntentSigner (K : Type 0) : Type 0 where
  keypair : Bytes → Option Bytes → IntentSigner K
  presigned : K → Bytes → IntentSigner K

-- web3.js's `TransactionInstruction`
pub record Instruction (K : Type 0) : Type 0 where
  pub program_id : K
  pub keys : List (AccountMeta K)
  pub data_bytes : Bytes

-- The arguments of `Ed25519Program.createInstructionWithPublicKey`, in place of its encoding.
pub record Ed25519Check : Type 0 where
  pub public_key : Bytes
  pub message : Bytes
  pub signature : Bytes

unfoldable pub encode_envelope : CtmEnvelopeWire → Result Bytes
encode_envelope e = do
  throw_if (not (length e.payload_hash == 32)) "payloadHash must be 32 bytes"
  throw_if (not (length e.accounts_hash == 32)) "accountsHash must be 32 bytes"
  sequence ← u64_to_le (big e.sequence)
  slot ← u64_to_le (big e.min_execute_slot)
  kind ← u8 e.kind
  expires ← u64_to_le (big e.expires_at_slot)
  ok (sequence ++ (slot ++ (kind ++ (e.payload_hash ++ (e.accounts_hash ++ expires)))))

module _ (W : Platform) where
  open W use {PublicKey, to_bytes, sha256, sysvar_instructions, sign_detached}

  -- `global:` and the name, hashed and cut to eight bytes; the cache holds what this computes
  unfoldable pub anchor_instruction_discriminator : String → Bytes
  anchor_instruction_discriminator ix_name = take 8 (sha256 (codes "global:" ++ codes ix_name))

  -- `createInstructionWithPublicKey` asserts that the public key has 32 bytes. The end of a secret key of
  -- 64 bytes has, and so have the bytes of a `PublicKey`.
  unfoldable pub build_intent_ed25519_instruction :
      Bytes → IntentSigner PublicKey → Result Ed25519Check
  build_intent_ed25519_instruction message (keypair private_key none) = do
    throw_if (not (length private_key == 64)) "keypair privateKey must be 64 bytes"
    ok (record {
      public_key = drop 32 private_key;
      message = message;
      signature = sign_detached message private_key;
    })
  build_intent_ed25519_instruction message (keypair private_key (some public_key)) = do
    throw_if (not (length private_key == 64)) "keypair privateKey must be 64 bytes"
    throw_if (not (length public_key == 32)) "Public Key must be 32 bytes"
    ok (record {
      public_key = public_key;
      message = message;
      signature = sign_detached message private_key;
    })
  build_intent_ed25519_instruction message (presigned public_key signature) = do
    throw_if (not (length signature == 64)) "presigned signature must be 64 bytes"
    ok (record { public_key = to_bytes public_key; message = message; signature = signature })

  unfoldable pub build_enqueue_direct_ix :
      (program_id group execution_queue : PublicKey) (market_index : Number)
      (remaining : List (AccountMeta PublicKey)) (envelope : CtmEnvelopeWire) (payload : Bytes)
      → Result (Instruction PublicKey)
  unfolding encode_envelope anchor_instruction_discriminator
  build_enqueue_direct_ix program_id group execution_queue market_index remaining envelope payload =
      do
        market ← u16_to_le market_index
        header ← encode_envelope envelope
        size ← u32_to_le (whole (pos (length payload)))
        ok (record {
          program_id = program_id;
          keys =
              (meta W group false true
                ∷ meta W execution_queue false true
                ∷ meta W sysvar_instructions false false
                ∷ [])
              ++ (remaining ++ meta W program_id false false ∷ []);
          data_bytes =
              anchor_instruction_discriminator "execution_queue_enqueue_direct"
              ++ (market ++ (header ++ (size ++ payload)));
        })

  unfoldable pub build_v5_enqueue_direct_market_ix :
      (program_id authority_state queue direct_pool group : PublicKey) (market_index : Number)
      (payload : Bytes) (kind : Number) (expires_at_slot nonce : BigNumberish)
      (remaining : List (AccountMeta PublicKey))
      → Result (Instruction PublicKey)
  unfolding anchor_instruction_discriminator
  build_v5_enqueue_direct_market_ix program_id authority_state queue direct_pool group market_index
        payload kind expires_at_slot nonce remaining =
      do
        market ← u16_to_le market_index
        size ← u32_to_le (whole (pos (length payload)))
        k ← u8 kind
        expires ← u64_to_le expires_at_slot
        n ← u64_to_le nonce
        ok (record {
          program_id = program_id;
          keys =
              meta W group false false
              ∷ meta W authority_state false false
              ∷ meta W queue false false
              ∷ meta W direct_pool false true
              ∷ meta W sysvar_instructions false false
              ∷ remaining;
          data_bytes =
              anchor_instruction_discriminator "execution_queue_v5_enqueue_direct_market"
              ++ (market ++ (size ++ (payload ++ (k ++ (expires ++ n)))));
        })
