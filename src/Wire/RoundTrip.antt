-- ===== src/Wire/RoundTrip.antt =====
-- What is written can be read back: src/intents.ts.
use fermi_v1_sdk.Base.{
  ℕ, zero, suc, ◌*◌, ◌/◌, ◌-◌, ◌≤◌, ◌<◌, ◌≡◌, refl, ap, arith, [], ◌∷◌, true, ltb, if◌then◌else◌,
  ok, ℤ, pos, negsuc, length, All, from_bind,
}
use fermi_v1_sdk.Wire.{
  Bytes, BigNumberish, to_big_int, le_bytes, le_value, u64_to_le, i64_to_le, u64_of, u64_max,
  i64_bound, i64_word, fits_i64,
}

pub length-le_bytes : (k n : ℕ) → length (le_bytes k n) ≡ k
unfolding le_bytes
length-le_bytes zero n = refl
length-le_bytes (suc k) n = ap suc (length-le_bytes k (n / 256))

abbrev pub IsByte : ℕ → Type 0
IsByte b = b < 256

pub le_bytes-IsByte : (k n : ℕ) → All IsByte (le_bytes k n)
unfolding le_bytes
le_bytes-IsByte zero n = tt
le_bytes-IsByte (suc k) n = (omega arith, le_bytes-IsByte k (n / 256))

-- 256 ^ k, by the recursion that the bytes follow
abbrev pub room : ℕ → ℕ
room zero = 1
room (suc k) = 256 * room k

pub le_value-le_bytes : (k n : ℕ) → n < room k → le_value (le_bytes k n) ≡ n
unfolding le_bytes le_value
le_value-le_bytes zero n h = omega arith
le_value-le_bytes (suc k) n h = let ih = le_value-le_bytes k (n / 256) (omega arith) in omega arith

pub le_value-lt : (bs : Bytes) → All IsByte bs → le_value bs < room (length bs)
unfolding le_value
le_value-lt [] h = omega arith
le_value-lt (b ∷ bs) (p, h) = omega (arith, le_value-lt bs h)

pub le_value-u64 : (n : ℕ) → n ≤ u64_max → le_value (le_bytes 8 n) ≡ n
le_value-u64 n h = le_value-le_bytes 8 n (omega arith)

-- What a written u64 stands for.
pub record Wrote (v : BigNumberish) (bs : Bytes) : Type 0 where
  pub n : ℕ
  pub value_eq : to_big_int v ≡ ok (pos n)
  pub fits : n ≤ u64_max
  pub bytes_eq : bs ≡ le_bytes 8 n

u64_of-Wrote :
    (v : BigNumberish) (z : ℤ) {bs : Bytes} → to_big_int v ≡ ok z → u64_of z ≡ ok bs → Wrote v bs
u64_of-Wrote v (pos n) e h = record {
  n = n;
  value_eq = e;
  fits = ground arith;
  bytes_eq = ground arith;
}
u64_of-Wrote v (negsuc n) e h = cc

pub u64_to_le-Wrote : (v : BigNumberish) {bs : Bytes} → u64_to_le v ≡ ok bs → Wrote v bs
unfolding u64_to_le
u64_to_le-Wrote v {bs} h = from_bind (to_big_int v) u64_of h λ z e k. u64_of-Wrote v z e k

-- The integer that a two's complement word stands for.
pub signed : ℕ → ℤ
signed w = if ltb w i64_bound then pos w else negsuc (u64_max - w)

pub record WroteSigned (v : BigNumberish) (bs : Bytes) : Type 0 where
  pub z : ℤ
  pub value_eq : to_big_int v ≡ ok z
  pub fits : fits_i64 z ≡ true
  pub bytes_eq : bs ≡ le_bytes 8 (i64_word z)

pub i64_to_le-WroteSigned : (v : BigNumberish) {bs : Bytes} → i64_to_le v ≡ ok bs → WroteSigned v bs
unfolding i64_to_le
i64_to_le-WroteSigned v {bs} h =
    from_bind (to_big_int v) _ h
      λ z e k. record { z = z; value_eq = e; fits = ground arith; bytes_eq = ground arith }

i64_word-le : (z : ℤ) → fits_i64 z ≡ true → i64_word z ≤ u64_max
i64_word-le (pos n) h = ground arith
i64_word-le (negsuc n) h = omega arith

signed-i64_word : (z : ℤ) → fits_i64 z ≡ true → signed (i64_word z) ≡ z
unfolding signed
signed-i64_word (pos n) h = ground arith
signed-i64_word (negsuc n) h = ground arith

-- A signed word that is read back is the number that was written.
pub signed-le_value : (z : ℤ) → fits_i64 z ≡ true → signed (le_value (le_bytes 8 (i64_word z))) ≡ z
signed-le_value z h = rw (le_value-u64 (i64_word z) (i64_word-le z h)) (signed-i64_word z h)
