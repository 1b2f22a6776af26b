-- ===== src/Base/Decimals.antt =====
-- Decimal texts: what `toString()` of a bigint and `String(n)` of an integer write.
use Prim.Native.Nat.{ℕ, zero, suc, ◌+◌, ◌-◌, ◌*◌, ◌/◌, ◌%◌, ◌≤◌, ◌<◌}
use mathlib.Core.Path.{◌≡◌, refl, ap}
use mathlib.Core.Bool.{true}
use mathlib.Core.List.{[], ◌∷◌, ◌++◌}
use native.Mathlib.Omega.{arith}
use fermi_v1_sdk.Base.Tests.{ltb, if◌then◌else◌, ltb-cases, lt→ltb, ge→ltb}
use mathlib.Core.Logic.{inl, inr}
use fermi_v1_sdk.Base.Ints.{ℤ, pos, negsuc, Number, whole, other}
use fermi_v1_sdk.Base.Lists.{all, length}
use fermi_v1_sdk.Base.Texts.{Text, is_digit}

-- The digits of `n`, the last one first in the recursion; the fuel bounds their number.
unfoldable pub digits : ℕ → ℕ → Text
digits zero n = []
digits (suc fuel) n =
    let rest = digits fuel (n / 10) in
    if ltb n 10 then (48 + n) ∷ [] else rest ++ (48 + n % 10) ∷ []

unfoldable pub decimal : ℕ → Text
unfolding digits
decimal n = digits (suc n) n

unfoldable pub integer_text : ℤ → Text
unfolding decimal
integer_text (pos n) = decimal n
integer_text (negsuc n) = b'-' ∷ decimal (suc n)

-- `String(n)`; the callers have checked that `n` is an integer.
unfoldable pub number_text : Number → Text
unfolding integer_text
number_text (whole z) = integer_text z
number_text (other t) = []

-- The number that a text of digits stands for.
unfoldable pub value_from : ℕ → Text → ℕ
value_from acc [] = acc
value_from acc (c ∷ s) = value_from (acc * 10 + c - 48) s

abbrev pub decimal_value : Text → ℕ
decimal_value s = value_from 0 s

value_from-append :
    (acc c : ℕ) (s : Text) → value_from acc (s ++ c ∷ []) ≡ value_from acc s * 10 + c - 48
unfolding value_from
value_from-append acc c [] = refl
value_from-append acc c (d ∷ s) = value_from-append (acc * 10 + d - 48) c s

value_from-digits : (fuel n : ℕ) → n < fuel → value_from 0 (digits fuel n) ≡ n
unfolding digits
value_from-digits zero n h = omega arith
value_from-digits (suc fuel) n h = elim (ltb-cases n 10) [
  | inl lt ↦ rw (lt→ltb n 10 lt) (unfold value_from in omega arith)
  | inr ge ↦
      let ih = value_from-digits fuel (n / 10) (omega arith) in
      rw (ge→ltb n 10 ge, value_from-append 0 (48 + n % 10) (digits fuel (n / 10)), ih)
        (omega arith)
]

pub decimal_value-decimal : (n : ℕ) → decimal_value (decimal n) ≡ n
unfolding decimal
decimal_value-decimal n = value_from-digits (suc n) n (omega arith)

all-append-digit :
    (s : Text) (c : ℕ)
    → all is_digit s ≡ true
    → is_digit c ≡ true
    → all is_digit (s ++ c ∷ []) ≡ true
all-append-digit [] c h k = ground arith
all-append-digit (d ∷ s) c h k = ground (arith, all-append-digit s c)

digits-digits : (fuel n : ℕ) → all is_digit (digits fuel n) ≡ true
unfolding digits
digits-digits zero n = refl
digits-digits (suc fuel) n = elim (ltb-cases n 10) [
  | inl lt ↦ rw (lt→ltb n 10 lt) (ground arith)
  | inr ge ↦ rw (ge→ltb n 10 ge) (
      all-append-digit (digits fuel (n / 10)) (48 + n % 10) (digits-digits fuel (n / 10))
        (ground arith))
]

pub decimal-digits : (n : ℕ) → all is_digit (decimal n) ≡ true
unfolding decimal
decimal-digits n = digits-digits (suc n) n

-- 10 ^ k
abbrev pub ten : ℕ → ℕ
ten zero = 1
ten (suc k) = 10 * ten k

length-append-one : (s : Text) (c : ℕ) → length (s ++ c ∷ []) ≡ suc (length s)
length-append-one [] c = refl
length-append-one (d ∷ s) c = ap suc (length-append-one s c)

more_digits : (n k : ℕ) → 10 ≤ n → n < 10 * ten k → 1 ≤ k
more_digits n zero g t = absurd (omega arith)
more_digits n (suc k) g t = omega arith

length-digits :
    (fuel n k : ℕ)
    → n < fuel
    → n < ten k
    → 1 ≤ k
    → (1 ≤ length (digits fuel n)) × (length (digits fuel n) ≤ k)
unfolding digits
length-digits zero n k h t o = absurd (omega arith)
length-digits (suc fuel) n zero h t o = absurd (omega arith)
length-digits (suc fuel) n (suc k) h t o = elim (ltb-cases n 10) [
  | inl lt ↦ rw (lt→ltb n 10 lt) (omega arith, omega arith)
  | inr ge ↦
      let (lo, hi) =
        length-digits fuel (n / 10) k (omega arith) (omega arith) (more_digits n k ge t) in
      rw (ge→ltb n 10 ge, length-append-one (digits fuel (n / 10)) (48 + n % 10))
        (omega arith, omega arith)
]

pub length-decimal :
    (n k : ℕ) → n < ten k → 1 ≤ k → (1 ≤ length (decimal n)) × (length (decimal n) ≤ k)
unfolding decimal
length-decimal n k t o = length-digits (suc n) n k (omega arith) t o
