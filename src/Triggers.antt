-- ===== src/Triggers.antt =====
-- src/triggerOrders.ts: stop-loss and take-profit orders that a keeper holds until their price.
pub mod Terms
pub mod Legs
pub mod Request
pub mod Cancel
pub mod Listing
mod Tests
use fermi_v1_sdk.Base.{
  ℕ, Bool, ◌&&◌, String, Result, ok, err, ◌>>=◌, ℤ, pos, negsuc, Number, whole, other, leb, ltb,
  if◌then◌else◌,
}
use fermi_v1_sdk.Wire.{Bytes, le_bytes, u64_max}

-- `TriggerKind` and `TriggerDirection` are numbers, and a caller may pass others.
abbrev pub stop_loss : ℕ
stop_loss = 0

abbrev pub take_profit : ℕ
take_profit = 1

abbrev pub at_or_above : ℕ
at_or_above = 0

abbrev pub at_or_below : ℕ
at_or_below = 1

abbrev pub i64_max : ℕ
i64_max = 9223372036854775807

-- `integer(value, max, label, min)`: the value, which is then not negative
unfoldable pub integer : ℤ → ℕ → String → ℕ → Result ℕ
integer (pos n) most label least = if leb least n && leb n most then ok n else err label
integer (negsuc n) most label least = err label

-- `marketIndex(value)`: the index, once it is known to be one
unfoldable pub market_index : Number → Result ℕ
market_index (whole (pos n)) = if ltb n 0xffff then ok n else err "marketIndex must be 0 to 65534"
market_index _ = err "marketIndex must be 0 to 65534"

unfoldable pub u64 : ℤ → Result Bytes
unfolding integer
u64 value = integer value u64_max "u64 is out of range; use bigint" 0 >>= λ n. ok (le_bytes 8 n)

-- `writeUInt16LE` throws for a value that two bytes do not hold.
unfoldable pub u16 : Number → Result Bytes
u16 (whole (pos n)) = if leb n 0xffff then ok (le_bytes 2 n) else err "value is out of range"
u16 _ = err "value is out of range"
