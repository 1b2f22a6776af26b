-- ===== src/Intents/WithIntent/Signed.antt =====
-- That a direct enqueue of src/intents.ts carries what its owner signs.
use fermi_v1_sdk.Base.{
  not-false, ℕ, true, false, not, ◌++◌, Result, ok, Number, whole, other, pos, negsuc, ℤ, ◌≤ℤ◌, ◌≡◌,
  refl, sym, ◌∙◌, ap, subst, arith, length, ◌==◌, from_bind, from_throw, ok_injective, leb_ℤ, none,
  some,
}
use fermi_v1_sdk.Wire.{Bytes, big, num, to_big_int, u8, u16_to_le, u32_to_le, u64_to_le}
use fermi_v1_sdk.Platform.{Platform}
use fermi_v1_sdk.Intents.{ctm_wrapped, perp_market_target}
use fermi_v1_sdk.Intents.Accounts.{hash_accounts_for_v5_direct_enqueue}
use fermi_v1_sdk.Intents.Messages.{
  direct_intent_domain, direct_intent_bytes, build_direct_intent_message, scope_bytes,
  hash_execution_queue_payload,
}
use fermi_v1_sdk.Intents.Instructions.{
  IntentSigner, keypair, presigned, Instruction, Ed25519Check, anchor_instruction_discriminator,
  build_intent_ed25519_instruction, build_v5_enqueue_direct_market_ix,
}
use fermi_v1_sdk.Intents.WithIntent.{
  DirectParams, DirectWithIntent, or_else, zero_number, is_ctm_wrapped, direct_intent_of,
  build_v5_enqueue_direct_with_intent_ixs,
}

is_ctm_wrapped_eq : (k : Number) → is_ctm_wrapped k ≡ true → k ≡ whole (pos ctm_wrapped)
is_ctm_wrapped_eq (whole (pos n)) h = ground arith
is_ctm_wrapped_eq (whole (negsuc n)) h = cc
is_ctm_wrapped_eq (other t) h = cc

positive : (z : ℤ) → leb_ℤ z (pos 0) ≡ false → pos 1 ≤ℤ z
positive (pos n) h = ground arith
positive (negsuc n) h = ground arith

same {ℓ} : {A : Type ℓ} {r : Result A} {a b : A} → r ≡ ok a → r ≡ ok b → a ≡ b
same ha hb = ok_injective (sym ha ∙ hb)

size_of : (n : ℕ) → not (n == 64) ≡ false → n ≡ 64
size_of n h = ground arith

module _ (W : Platform) where
  open W use {PublicKey, to_bytes, sha256, length-sign_detached}

  -- The signature that the check instruction is given has 64 bytes, and the message is the one asked.
  checks-message :
      (m : Bytes) (signer : IntentSigner PublicKey) {c : Ed25519Check}
      → build_intent_ed25519_instruction W m signer ≡ ok c
      → (c.message ≡ m) × (length c.signature ≡ 64)
  unfolding build_intent_ed25519_instruction
  checks-message m (keypair private_key none) h =
      from_throw (not (length private_key == 64)) _ _ h λ t k.
        subst (λ (c : Ed25519Check). (c.message ≡ m) × (length c.signature ≡ 64)) (ok_injective k)
          (refl, length-sign_detached m private_key)
  checks-message m (keypair private_key (some public_key)) h =
      from_throw (not (length private_key == 64)) _ _ h λ t k.
        from_throw (not (length public_key == 32)) _ _ k λ t₂ k₂.
          subst (λ (c : Ed25519Check). (c.message ≡ m) × (length c.signature ≡ 64))
            (ok_injective k₂) (refl, length-sign_detached m private_key)
  checks-message m (presigned public_key signature) h =
      from_throw (not (length signature == 64)) _ _ h λ t k.
        subst (λ (c : Ed25519Check). (c.message ≡ m) × (length c.signature ≡ 64)) (ok_injective k)
          (refl, size_of (length signature) t)

  -- The bytes of one direct enqueue: the fields that are signed, and the same fields in the data of
  -- the instruction.
  pub record SignedEnqueue (p : DirectParams PublicKey) (r : DirectWithIntent PublicKey)
      : Type 0 where
    pub market : Bytes
    pub kind : Bytes
    pub target : Bytes
    pub expires : Bytes
    pub nonce : Bytes
    pub size : Bytes
    pub slot : ℤ
    pub kind_wrapped : or_else p.kind (whole (pos ctm_wrapped)) ≡ whole (pos ctm_wrapped)
    pub slot_eq : to_big_int (or_else p.expires_at_slot (num zero_number)) ≡ ok slot
    pub slot_positive : pos 1 ≤ℤ slot
    pub expires_eq : u64_to_le (big slot) ≡ ok expires
    pub nonce_eq : u64_to_le p.nonce ≡ ok nonce
    pub market_eq : u16_to_le p.market_index ≡ ok market
    pub size_eq : u32_to_le (whole (pos (length p.payload))) ≡ ok size
    pub message_eq :
        r.direct_intent_message
        ≡ sha256 (
            direct_intent_domain
            ++ ((to_bytes p.party.group
                  ++ (to_bytes p.party.fermi_account
                      ++ (to_bytes p.party.user_owner ++ (kind ++ (target ++ market)))))
                ++ (sha256 p.payload
                    ++ (hash_accounts_for_v5_direct_enqueue W p.party.group p.queue p.remaining
                          p.party.user_owner
                        ++ (expires ++ nonce)))))
    pub data_eq :
        r.enqueue_instruction.data_bytes
        ≡ anchor_instruction_discriminator W "execution_queue_v5_enqueue_direct_market"
          ++ (market ++ (size ++ (p.payload ++ (kind ++ (expires ++ nonce)))))
    pub checked : r.pre_instruction.message ≡ r.direct_intent_message
    pub signature_size : length r.pre_instruction.signature ≡ 64

  -- What went into a direct intent's message.
  record MessageBytes (p : DirectParams PublicKey) (kind : Number) (z : ℤ) (m : Bytes)
      : Type 0 where
    market : Bytes
    k : Bytes
    target : Bytes
    expires : Bytes
    nonce : Bytes
    k_eq : u8 kind ≡ ok k
    market_eq : u16_to_le p.market_index ≡ ok market
    expires_eq : u64_to_le (big z) ≡ ok expires
    nonce_eq : u64_to_le p.nonce ≡ ok nonce
    message_eq :
        m
        ≡ sha256 (
            direct_intent_domain
            ++ ((to_bytes p.party.group
                  ++ (to_bytes p.party.fermi_account
                      ++ (to_bytes p.party.user_owner ++ (k ++ (target ++ market)))))
                ++ (sha256 p.payload
                    ++ (hash_accounts_for_v5_direct_enqueue W p.party.group p.queue p.remaining
                          p.party.user_owner
                        ++ (expires ++ nonce)))))

  message-MessageBytes :
      (p : DirectParams PublicKey) (kind : Number) (z : ℤ) {m : Bytes}
      → build_direct_intent_message W (direct_intent_of W p kind z) ≡ ok m
      → MessageBytes p kind z m
  unfolding build_direct_intent_message direct_intent_bytes scope_bytes hash_execution_queue_payload
  message-MessageBytes p kind z h =
      let i = direct_intent_of W p kind z in
      from_throw (not (length i.payload_hash == 32)) _ _ h λ t1 h1.
        from_throw (not (length i.accounts_hash == 32)) _ _ h1 λ t2 h2.
          from_bind (direct_intent_bytes W (direct_intent_of W p kind z)) _ h2 λ bytes eb kb.
            from_bind (scope_bytes W p.party kind p.market_index) _ eb λ scope es ks.
              from_bind (u64_to_le (big z)) _ ks λ expires ee ke.
                from_bind (u64_to_le p.nonce) _ ke λ nonce en kn.
                  from_bind (u8 kind) _ es λ k ek kk.
                    from_bind (u8 (whole (pos perp_market_target))) _ kk λ target et kt.
                      from_bind (u16_to_le p.market_index) _ kt λ market em km. record {
                        market = market;
                        k = k;
                        target = target;
                        expires = expires;
                        nonce = nonce;
                        k_eq = ek;
                        market_eq = em;
                        expires_eq = ee;
                        nonce_eq = en;
                        message_eq =
                            sym (ok_injective kb)
                            ∙ ap sha256 (sym (ok_injective kn) ∙ rw (sym (ok_injective km)) refl);
                      }

  -- What went into the data of the instruction.
  record IxBytes (p : DirectParams PublicKey) (kind : Number) (z : ℤ) (i : Instruction PublicKey)
      : Type 0 where
    market : Bytes
    size : Bytes
    k : Bytes
    expires : Bytes
    nonce : Bytes
    k_eq : u8 kind ≡ ok k
    market_eq : u16_to_le p.market_index ≡ ok market
    size_eq : u32_to_le (whole (pos (length p.payload))) ≡ ok size
    expires_eq : u64_to_le (big z) ≡ ok expires
    nonce_eq : u64_to_le p.nonce ≡ ok nonce
    data_eq :
        i.data_bytes
        ≡ anchor_instruction_discriminator W "execution_queue_v5_enqueue_direct_market"
          ++ (market ++ (size ++ (p.payload ++ (k ++ (expires ++ nonce)))))

  ix-IxBytes :
      (p : DirectParams PublicKey) (kind : Number) (z : ℤ) {i : Instruction PublicKey}
      → build_v5_enqueue_direct_market_ix W p.program_id p.authority_state p.queue p.direct_pool
          p.party.group p.market_index p.payload kind
          (big z)
          p.nonce
          p.remaining
        ≡ ok i
      → IxBytes p kind z i
  unfolding build_v5_enqueue_direct_market_ix
  ix-IxBytes p kind z h = from_bind (u16_to_le p.market_index) _ h λ market em km.
      from_bind (u32_to_le (whole (pos (length p.payload)))) _ km λ size es ks.
        from_bind (u8 kind) _ ks λ k ek kk. from_bind (u64_to_le (big z)) _ kk λ expires ee ke.
          from_bind (u64_to_le p.nonce) _ ke λ nonce en kn.
            subst (IxBytes p kind z) (ok_injective kn) (record {
              market = market;
              size = size;
              k = k;
              expires = expires;
              nonce = nonce;
              k_eq = ek;
              market_eq = em;
              size_eq = es;
              expires_eq = ee;
              nonce_eq = en;
              data_eq = refl;
            })

  -- When a direct enqueue with its signature is built, the item is CTM-wrapped, the expiry slot is
  -- at least 1, and the signed message is the hash of the domain, group, account, owner, kind,
  -- market, payload hash, account hash, expiry and nonce. The instruction carries that same market,
  -- payload, kind, expiry and nonce, and the check instruction that message with a 64-byte signature.
  pub direct_with_intent-SignedEnqueue :
      (p : DirectParams PublicKey) {r : DirectWithIntent PublicKey}
      → build_v5_enqueue_direct_with_intent_ixs W p ≡ ok r
      → SignedEnqueue p r
  unfolding build_v5_enqueue_direct_with_intent_ixs
  direct_with_intent-SignedEnqueue p {r} h =
      let kind : Number = or_else p.kind (whole (pos ctm_wrapped)) in
      from_throw (not (is_ctm_wrapped kind)) _ _ h λ t1 h1.
        from_bind (to_big_int (or_else p.expires_at_slot (num zero_number))) _ h1 λ z ez kz.
          from_throw (leb_ℤ z (pos 0)) _ _ kz λ t2 h2.
            from_bind (build_direct_intent_message W (direct_intent_of W p kind z)) _ h2 λ m em km.
              from_bind (build_intent_ed25519_instruction W m p.user_signer) _ km λ c ec kc.
                from_bind
                  (build_v5_enqueue_direct_market_ix W p.program_id p.authority_state p.queue
                    p.direct_pool p.party.group p.market_index p.payload kind (big z) p.nonce
                    p.remaining)
                  _ kc
                  λ i ei ki.
                    let s = message-MessageBytes p kind z em in
                    let d = ix-IxBytes p kind z ei in
                    let (cm, cl) = checks-message m p.user_signer ec in
                    subst (SignedEnqueue p) (ok_injective ki) (record {
                      market = s.market;
                      kind = s.k;
                      target = s.target;
                      expires = s.expires;
                      nonce = s.nonce;
                      size = d.size;
                      slot = z;
                      kind_wrapped = is_ctm_wrapped_eq kind (not-false (is_ctm_wrapped kind) t1);
                      slot_eq = ez;
                      slot_positive = positive z t2;
                      expires_eq = s.expires_eq;
                      nonce_eq = s.nonce_eq;
                      market_eq = s.market_eq;
                      size_eq = d.size_eq;
                      message_eq = s.message_eq;
                      data_eq =
                          rw
                            (
                              same s.market_eq d.market_eq,
                              same s.k_eq d.k_eq,
                              same s.expires_eq d.expires_eq,
                              same s.nonce_eq d.nonce_eq,
                            )
                            d.data_eq;
                      checked = cm;
                      signature_size = cl;
                    })
