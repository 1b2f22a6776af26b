-- ===== src/Wire.antt =====
-- The fixed-width encoders of src/intents.ts. A buffer is the list of its bytes.
pub mod RoundTrip
pub mod Injective
use fermi_v1_sdk.Base.{
  String, ℕ, zero, suc, ◌+◌, ◌*◌, ◌/◌, ◌%◌, ◌-◌, List, [], ◌∷◌, Bool, leb, ltb, if◌then◌else◌,
  Result, ok, err, ◌>>=◌, ℤ, pos, negsuc, Number, whole, other, is_safe_integer, take, drop,
}

abbrev pub Bytes : Type 0
Bytes = List ℕ

-- `bigint | number`
pub data BigNumberish : Type 0 where
  big : ℤ → BigNumberish
  num : Number → BigNumberish

unfoldable pub to_big_int : BigNumberish → Result ℤ
to_big_int (big z) = ok z
to_big_int (num (whole z)) =
    if is_safe_integer (whole z) then ok z else err "number inputs must be safe integers"
to_big_int (num (other t)) = err "number inputs must be safe integers"

-- The `k` low bytes of a number, the lowest first: what `writeUInt16LE`, `writeUInt32LE` and
-- `writeBigUInt64LE` put into a buffer.
unfoldable pub le_bytes : ℕ → ℕ → Bytes
le_bytes zero n = []
le_bytes (suc k) n = (n % 256) ∷ le_bytes k (n / 256)

-- The number that such bytes stand for.
unfoldable pub le_value : Bytes → ℕ
le_value [] = 0
le_value (b ∷ bs) = b + 256 * le_value bs

-- `buffer.readBigUInt64LE(offset)`, within the buffer
abbrev pub read_u64 : Bytes → ℕ → ℕ
read_u64 bytes offset = le_value (take 8 (drop offset bytes))

-- `n` as an unsigned number of one, two or four bytes, by its largest value
abbrev pub unsigned_le : ℕ → ℕ → String → Number → Result Bytes
unsigned_le k most message (whole (pos n)) = if leb n most then ok (le_bytes k n) else err message
unsigned_le k most message _ = err message

unfoldable pub u8 : Number → Result Bytes
u8 value = unsigned_le 1 0xff "u8 out of range" value

unfoldable pub u16_to_le : Number → Result Bytes
u16_to_le value = unsigned_le 2 0xffff "u16 out of range" value

unfoldable pub u32_to_le : Number → Result Bytes
u32_to_le value = unsigned_le 4 0xffffffff "u32 out of range" value

abbrev pub u64_max : ℕ
u64_max = 18446744073709551615

-- 2^63
abbrev pub i64_bound : ℕ
i64_bound = 9223372036854775808

abbrev pub u64_of : ℤ → Result Bytes
u64_of (pos n) = if leb n u64_max then ok (le_bytes 8 n) else err "u64 out of range"
u64_of (negsuc n) = err "u64 out of range"

unfoldable pub u64_to_le : BigNumberish → Result Bytes
unfolding to_big_int
u64_to_le value = do n ← to_big_int value; u64_of n

-- Two's complement: `negsuc n` is -(n + 1).
abbrev pub i64_word : ℤ → ℕ
i64_word (pos n) = n
i64_word (negsuc n) = u64_max - n

abbrev pub fits_i64 : ℤ → Bool
fits_i64 (pos n) = ltb n i64_bound
fits_i64 (negsuc n) = ltb n i64_bound

unfoldable pub i64_to_le : BigNumberish → Result Bytes
unfolding to_big_int
i64_to_le value = do
  n ← to_big_int value
  if fits_i64 n then ok (le_bytes 8 (i64_word n)) else err "i64 out of range"
