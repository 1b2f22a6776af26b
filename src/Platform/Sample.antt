-- ===== src/Platform/Sample.antt =====
-- A platform that the tests compute with: keys are numbers, and the hash holds one byte of its
-- input, the lowest one of the salt in a trigger's terms.
use fermi_v1_sdk.Base.{
  ℕ, zero, suc, ◌%◌, ◌<◌, ◌≡◌, refl, arith, true, List, [], ◌∷◌, All, ==_iff, ◌==◌, get_or,
  cons_parts, Text,
}
use fermi_v1_sdk.Platform.{Platform}

abbrev pub zeros : ℕ → List ℕ
zeros zero = []
zeros (suc n) = 0 ∷ zeros n

abbrev pub key_bytes : ℕ → List ℕ
key_bytes k = k ∷ zeros 31

abbrev pub sample_hash : List ℕ → List ℕ
sample_hash m = (get_or m 117 1 % 256) ∷ zeros 31

pub key_bytes_injective : (a b : ℕ) → key_bytes a ≡ key_bytes b → a ≡ b
key_bytes_injective a b e = (cons_parts e).0

pub key_text_injective : (a b : ℕ) → ◌≡◌ {A = Text} (a ∷ []) (b ∷ []) → a ≡ b
key_text_injective a b e = (cons_parts e).0

pub hash_bytes : (m : List ℕ) → All (λ b. b < 256) (sample_hash m)
hash_bytes m = (omega arith, zeros_bytes 31)
  where
    zeros_bytes : (n : ℕ) → All (λ b. b < 256) (zeros n)
    zeros_bytes zero = tt
    zeros_bytes (suc n) = (omega arith, zeros_bytes n)

abbrev pub sample_platform : Platform
sample_platform = record {
  PublicKey = ℕ;
  equals = λ a b. a == b;
  to_bytes = key_bytes;
  to_base58 = λ k. k ∷ [];
  sysvar_instructions = 90;
  default_key = 0;
  sha256 = sample_hash;
  sign_detached = λ m s. zeros 64;
  verify_detached = λ m s k. true;
  key_of_secret = λ s. get_or s 0 0;
  to_hex = λ m. m;
  equals_iff = ==_iff;
  length-to_bytes = λ k. refl;
  to_bytes_injective = key_bytes_injective;
  to_base58_injective = key_text_injective;
  length-sha256 = λ m. refl;
  sha256_bytes = hash_bytes;
  length-sign_detached = λ m s. refl;
  verify-sign = λ m s. refl;
}
