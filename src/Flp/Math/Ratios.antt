-- ===== src/Flp/Math/Ratios.antt =====
-- What the ratios and `applyRatioFloor` of src/flp/math.ts compute, on every branch.
use native.Mathlib.Nat.{div-add-mod, mod-lt}
use fermi_v1_sdk.Base.{ℕ, ◌+◌, ◌*◌, ◌/◌, ◌≤◌, ◌<◌, ◌≡◌, refl, ◌↔◌, arith, ok, ℤ, pos, negsuc}
use fermi_v1_sdk.Flp.Math.{u64_max, u128_max, ShareRatio, apply_ratio_floor}

-- `n / d` is the number of times that `d` goes into `n`.
pub div_bounds : (n d : ℕ) → 0 < d → (n / d * d ≤ n) × (n < (n / d + 1) * d)
div_bounds n d h = grind (arith, div-add-mod, mod-lt)

pub div_unique : (n d q : ℕ) → q * d ≤ n → n < (q + 1) * d → n / d ≡ q
div_unique n d q h k = grind (arith, div_bounds)

-- The checked and rounded product, where nothing is negative.
pub record FloorOf (amount : ℤ) (ratio : ShareRatio) (r : ℕ) : Type 0 where
  pub a : ℕ
  pub n : ℕ
  pub d : ℕ
  pub amount_eq : amount ≡ pos a
  pub numerator_eq : ratio.numerator ≡ pos n
  pub denominator_eq : ratio.denominator ≡ pos d
  pub d_pos : 0 < d
  pub a_fits : a ≤ u64_max
  pub n_fits : n ≤ u128_max
  pub d_fits : d ≤ u128_max
  pub product_fits : a * n ≤ u128_max
  pub fits : r ≤ u64_max
  pub below : r * d ≤ a * n
  pub above : a * n < (r + 1) * d

apply_parts :
    (a n d : ℕ) {r : ℕ}
    → apply_ratio_floor (pos a) (record { numerator = pos n; denominator = pos d }) ≡ ok r
    → (0 < d)
      × (a ≤ u64_max)
      × (n ≤ u128_max)
      × (d ≤ u128_max)
      × (a * n ≤ u128_max)
      × (r ≤ u64_max)
      × (r ≡ a * n / d)
unfolding apply_ratio_floor
apply_parts a n d h = ground arith

apply_sound :
    (amount num den : ℤ) {r : ℕ}
    → apply_ratio_floor amount (record { numerator = num; denominator = den }) ≡ ok r
    → FloorOf amount (record { numerator = num; denominator = den }) r
unfolding apply_ratio_floor
apply_sound (pos a) (pos n) (pos d) {r} h =
    let (dp, af, nf, df, pf, rf, e) = apply_parts a n d h in
    let (lo, hi) = div_bounds (a * n) d dp in
    record {
      a = a;
      n = n;
      d = d;
      amount_eq = refl;
      numerator_eq = refl;
      denominator_eq = refl;
      d_pos = dp;
      a_fits = af;
      n_fits = nf;
      d_fits = df;
      product_fits = pf;
      fits = rf;
      below = rw e lo;
      above = rw e hi;
    }
apply_sound (negsuc a) num den h = ground arith
apply_sound (pos a) (negsuc n) den h = ground arith
apply_sound (pos a) (pos n) (negsuc d) h = ground arith

apply_value :
    (a n d r : ℕ)
    → 0 < d
    → a ≤ u64_max
    → n ≤ u128_max
    → d ≤ u128_max
    → a * n ≤ u128_max
    → r ≤ u64_max
    → a * n / d ≡ r
    → apply_ratio_floor (pos a) (record { numerator = pos n; denominator = pos d }) ≡ ok r
unfolding apply_ratio_floor
apply_value a n d r dp af nf df pf rf e = ground arith

apply_complete :
    (amount num den : ℤ) (r : ℕ)
    → FloorOf amount (record { numerator = num; denominator = den }) r
    → apply_ratio_floor amount (record { numerator = num; denominator = den }) ≡ ok r
apply_complete amount num den r f =
    let e : f.a * f.n / f.d ≡ r = div_unique (f.a * f.n) f.d r f.below f.above in
    rw (f.amount_eq, f.numerator_eq, f.denominator_eq)
      (apply_value f.a f.n f.d r f.d_pos f.a_fits f.n_fits f.d_fits f.product_fits f.fits e)

-- `applyRatioFloor` returns a number exactly when no input is negative, the denominator is not
-- zero, the amount is a u64, ratio and product are u128, and the result is a u64; the number is
-- the quotient rounded down.
pub apply_ratio_floor_iff :
    (amount : ℤ) (ratio : ShareRatio) (r : ℕ)
    → (apply_ratio_floor amount ratio ≡ ok r) ↔ FloorOf amount ratio r
apply_ratio_floor_iff amount ratio r = (
  apply_sound amount ratio.numerator ratio.denominator,
  apply_complete amount ratio.numerator ratio.denominator r,
)
