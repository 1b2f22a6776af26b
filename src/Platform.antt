-- ===== src/Platform.antt =====
-- What the source calls and does not hold: public keys of @solana/web3.js, SHA-256 of Node's crypto
-- and signatures of tweetnacl, with the documented behaviour that the code relies on.
pub mod Sample
use fermi_v1_sdk.Base.{ℕ, ◌≡◌, ◌↔◌, Bool, true, List, Text, length, All, ◌<◌}

pub record Platform : Type 1 where
  pub PublicKey : Type 0
  pub equals : PublicKey → PublicKey → Bool
  pub to_bytes : PublicKey → List ℕ
  pub to_base58 : PublicKey → Text
  pub sysvar_instructions : PublicKey
  pub default_key : PublicKey
  pub sha256 : List ℕ → List ℕ
  -- nacl.sign.detached, its verification, and the public half of a secret key
  pub sign_detached : List ℕ → List ℕ → List ℕ
  pub verify_detached : List ℕ → List ℕ → List ℕ → Bool
  pub key_of_secret : List ℕ → PublicKey
  -- `buffer.toString('hex')`
  pub to_hex : List ℕ → List ℕ
  pub equals_iff : (a b : PublicKey) → (equals a b ≡ true) ↔ (a ≡ b)
  pub length-to_bytes : (k : PublicKey) → length (to_bytes k) ≡ 32
  pub to_bytes_injective : (a b : PublicKey) → to_bytes a ≡ to_bytes b → a ≡ b
  pub to_base58_injective : (a b : PublicKey) → to_base58 a ≡ to_base58 b → a ≡ b
  pub length-sha256 : (m : List ℕ) → length (sha256 m) ≡ 32
  pub sha256_bytes : (m : List ℕ) → All (λ b. b < 256) (sha256 m)
  pub length-sign_detached : (m secret : List ℕ) → length (sign_detached m secret) ≡ 64
  pub verify-sign :
      (m secret : List ℕ)
      → verify_detached m (sign_detached m secret) (to_bytes (key_of_secret secret)) ≡ true
