-- ===== src/Intents/Messages/Domains.antt =====
-- The kinds of message are kept apart by their domains: src/intents.ts.
use fermi_v1_sdk.Base.{
  ℕ, ◌≡◌, ◌≢◌, refl, arith, ok, Number, get_elem?, some, from_bind, ok_injective, subst,
}
use fermi_v1_sdk.Wire.{Bytes, BigNumberish, u64_to_le}
use fermi_v1_sdk.Platform.{Platform}
use fermi_v1_sdk.Intents.Messages.{
  Party, IntentV3, DirectIntent, scope_bytes, message_v2_bytes, message_v3_bytes,
  direct_intent_bytes, nonce_bytes,
}

-- What tells the four domains apart: the version digit, the first letter of the word after it, and,
-- for the words `user-intent` and `user-nonce`, the sixth letter.
record Mark (bs : Bytes) (version word letter : ℕ) : Type 0 where
  version_at : get_elem? bs 7 ≡ some version
  word_at : get_elem? bs 9 ≡ some word
  letter_at : get_elem? bs 14 ≡ some letter

at_equal :
    {bs cs : Bytes} (place : ℕ) {a : ℕ}
    → bs ≡ cs
    → get_elem? bs place ≡ some a
    → get_elem? cs place ≡ some a
at_equal place {a} e h = subst (λ x. get_elem? x place ≡ some a) e h

-- One place holds one byte.
apart :
    (bs : Bytes) (place a b : ℕ)
    → a ≢ b
    → get_elem? bs place ≡ some a
    → get_elem? bs place ≡ some b
    → ⊥
apart bs place a b ne ha hb = ne (ground (arith, ha, hb))

module _ (W : Platform) where
  open W use {PublicKey}

  v2-Mark :
      (p : Party PublicKey) (k m : Number) (h : Bytes) {bs : Bytes}
      → message_v2_bytes W p k m h ≡ ok bs
      → Mark bs b'4' b'u' b'i'
  unfolding message_v2_bytes
  v2-Mark p k m h e = from_bind (scope_bytes W p k m) _ e λ s es cs.
      subst (λ x. Mark x b'4' b'u' b'i') (ok_injective cs)
        (record { version_at = refl; word_at = refl; letter_at = refl })

  v3-Mark :
      (i : IntentV3 PublicKey) (h : Bytes) {bs : Bytes}
      → message_v3_bytes W i h ≡ ok bs
      → Mark bs b'5' b'u' b'i'
  unfolding message_v3_bytes
  v3-Mark i h e = from_bind (scope_bytes W i.party i.kind i.market_index) _ e λ s es cs.
      from_bind (u64_to_le i.min_execute_slot) _ cs λ slot el cl.
        from_bind (u64_to_le i.expires_at_slot) _ cl λ expires ee ce.
          from_bind (u64_to_le i.client_order_id) _ ce λ id ei ci.
            subst (λ x. Mark x b'5' b'u' b'i') (ok_injective ci)
              (record { version_at = refl; word_at = refl; letter_at = refl })

  nonce-Mark :
      (p : Party PublicKey) (k m : Number) (n : BigNumberish) {bs : Bytes}
      → nonce_bytes W p k m n ≡ ok bs
      → Mark bs b'5' b'u' b'n'
  unfolding nonce_bytes
  nonce-Mark p k m n e = from_bind (scope_bytes W p k m) _ e λ s es cs.
      from_bind (u64_to_le n) _ cs λ b eb cb.
        subst (λ x. Mark x b'5' b'u' b'n') (ok_injective cb)
          (record { version_at = refl; word_at = refl; letter_at = refl })

  direct-Mark :
      (i : DirectIntent PublicKey) {bs : Bytes}
      → direct_intent_bytes W i ≡ ok bs
      → Mark bs b'5' b'd' b't'
  unfolding direct_intent_bytes
  direct-Mark i e = from_bind (scope_bytes W i.party i.kind i.market_index) _ e λ s es cs.
      from_bind (u64_to_le i.expires_at_slot) _ cs λ expires ee ce.
        from_bind (u64_to_le i.nonce) _ ce λ n en cn.
          subst (λ x. Mark x b'5' b'd' b't') (ok_injective cn)
            (record { version_at = refl; word_at = refl; letter_at = refl })

  -- A V2 message, a V3 message, a nonce record and a direct intent never have the same bytes before
  -- hashing, whatever they hold: a signature of one kind is none of another.
  pub domains_apart :
      (p q : Party PublicKey) (k m l n : Number) (h g : Bytes) (i : IntentV3 PublicKey)
      (nonce : BigNumberish) (d : DirectIntent PublicKey) {b2 b3 bn bd : Bytes}
      → message_v2_bytes W p k m h ≡ ok b2
      → message_v3_bytes W i g ≡ ok b3
      → nonce_bytes W q l n nonce ≡ ok bn
      → direct_intent_bytes W d ≡ ok bd
      → (b2 ≢ b3) × (b2 ≢ bn) × (b2 ≢ bd) × (b3 ≢ bn) × (b3 ≢ bd) × (bn ≢ bd)
  domains_apart p q k m l n h g i nonce d h2 h3 hn hd =
      let m2 = v2-Mark p k m h h2 in
      let m3 = v3-Mark i g h3 in
      let mn = nonce-Mark q l n nonce hn in
      let md = direct-Mark d hd in
      (
        λ e. apart _ 7 b'4' b'5' (omega arith) (at_equal 7 e m2.version_at) m3.version_at,
        λ e. apart _ 7 b'4' b'5' (omega arith) (at_equal 7 e m2.version_at) mn.version_at,
        λ e. apart _ 7 b'4' b'5' (omega arith) (at_equal 7 e m2.version_at) md.version_at,
        λ e. apart _ 14 b'i' b'n' (omega arith) (at_equal 14 e m3.letter_at) mn.letter_at,
        λ e. apart _ 9 b'u' b'd' (omega arith) (at_equal 9 e m3.word_at) md.word_at,
        λ e. apart _ 9 b'u' b'd' (omega arith) (at_equal 9 e mn.word_at) md.word_at,
      )
