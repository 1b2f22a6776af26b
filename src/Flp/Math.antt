-- ===== src/Flp/Math.antt =====
-- src/flp/math.ts, and `batchPayout` of src/flp/v4.ts: share prices, fees and payouts. An amount
-- that has passed `u64` is a natural number; a value that may be negative stays an integer.
pub mod Ratios
pub mod Fees
pub mod Payouts
pub mod Recovery
pub mod NoProfit
mod Tests
use fermi_v1_sdk.Base.{
  ℕ, ◌+◌, ◌*◌, ◌/◌, ◌-◌, Bool, true, false, not, ◌&&◌, ◌||◌, ltb, leb, ◌==◌, if◌then◌else◌, Result,
  ok, err, ◌>>=◌, ◌>>◌, throw_if, ℤ, pos, negsuc, pos_part, sub_ℕ, ◌+ℤ◌, leb_ℤ, ltb_ℤ, Number,
  whole, other,
}

abbrev pub virtual_assets : ℕ
virtual_assets = 1000000

abbrev pub virtual_shares : ℕ
virtual_shares = 1000000

abbrev pub price_scale : ℕ
price_scale = 1000000000000

abbrev pub u64_max : ℕ
u64_max = 18446744073709551615

abbrev pub u128_max : ℕ
u128_max = 340282366920938463463374607431768211455

-- 2^63
abbrev pub i64_bound : ℕ
i64_bound = 9223372036854775808

unfoldable pub u64 : ℤ → Result ℕ
u64 (pos n) = if leb n u64_max then ok n else err "Expected u64"
u64 (negsuc n) = err "Expected u64"

unfoldable pub nav_i64 : ℤ → Result ℤ
nav_i64 (pos n) = if ltb n i64_bound then ok (pos n) else err "Expected i64 NAV"
nav_i64 (negsuc n) = if ltb n i64_bound then ok (negsuc n) else err "Expected i64 NAV"

unfoldable pub fee_rate : Number → Result ℕ
fee_rate (whole (pos n)) = if leb n 10000 then ok n else err "Invalid fee bps"
fee_rate (whole (negsuc n)) = err "Invalid fee bps"
fee_rate (other t) = err "Invalid fee bps"

pub record ShareRatio : Type 0 where
  pub numerator : ℤ
  pub denominator : ℤ

unfoldable pub pricing_supply : ℤ → ℤ → ℤ → Result ℕ
unfolding u64
pricing_supply mint_supply owed_unminted_shares locked_shares = do
  m ← u64 mint_supply
  o ← u64 owed_unminted_shares
  l ← u64 locked_shares
  u64 (pos (m + o + l))

unfoldable pub deposit_ratio : ℤ → ℤ → Result ShareRatio
unfolding u64 nav_i64 ◌+ℤ◌
deposit_ratio supply nav_high = do
  s ← u64 supply
  n ← nav_i64 nav_high
  throw_if (leb_ℤ n (pos 0) && not (s == 0) || leb_ℤ (n +ℤ pos virtual_assets) (pos 0))
      "Vault insolvent"
  ok (record { numerator = pos (s + virtual_shares); denominator = n +ℤ pos virtual_assets })

unfoldable pub withdraw_ratio : ℤ → ℤ → Result ShareRatio
unfolding u64 nav_i64 ◌+ℤ◌
withdraw_ratio supply nav_low = do
  s ← u64 supply
  n ← nav_i64 nav_low
  ok (record {
    numerator = if leb_ℤ n (pos 0) then pos 0 else n +ℤ pos virtual_assets;
    denominator = pos (s + virtual_shares);
  })

unfoldable pub recovery_withdraw_ratio : ℤ → ℤ → Result ShareRatio
unfolding u64 nav_i64
recovery_withdraw_ratio supply nav_low = do
  s ← u64 supply
  n ← nav_i64 nav_low
  throw_if (s == 0 || ltb_ℤ n (pos 0)) "Vault insolvent"
  ok (record { numerator = n; denominator = pos s })

-- Past the first two tests the parts of the ratio are not negative, and are their `pos_part`s.
unfoldable pub apply_ratio_floor : ℤ → ShareRatio → Result ℕ
unfolding u64
apply_ratio_floor amount ratio = do
  a ← u64 amount
  throw_if
      (ltb_ℤ ratio.numerator (pos 0)
        || (leb_ℤ ratio.denominator (pos 0)
            || (ltb_ℤ (pos u128_max) ratio.numerator
                || (ltb_ℤ (pos u128_max) ratio.denominator
                    || ltb u128_max (a * pos_part ratio.numerator)))))
      "Invalid or overflowing u128 ratio"
  u64 (pos (a * pos_part ratio.numerator / pos_part ratio.denominator))

unfoldable pub price_e12 : ℤ → ℤ → Result ℕ
unfolding u64 nav_i64 ◌+ℤ◌
price_e12 nav supply = do
  n ← nav_i64 nav
  s ← u64 supply
  let assets = n +ℤ pos virtual_assets
  ok (if leb_ℤ assets (pos 0) then 0 else pos_part assets * price_scale / (s + virtual_shares))

-- (x * bps + 9_999) / 10_000
abbrev pub fee_up : ℕ → ℕ → ℕ
fee_up x bps = (x * bps + 9999) / 10000

pub record DepositQuote : Type 0 where
  pub amount : ℕ
  pub fee : ℕ
  pub net : ℤ
  pub shares : ℕ

unfoldable pub quote_deposit : ℤ → ℤ → ℤ → Number → Result DepositQuote
quote_deposit amount supply nav_high deposit_fee_bps = do
  a ← u64 amount
  bps ← fee_rate deposit_fee_bps
  ratio ← deposit_ratio supply nav_high
  shares ← apply_ratio_floor (sub_ℕ a (fee_up a bps)) ratio
  ok (record { amount = a; fee = fee_up a bps; net = sub_ℕ a (fee_up a bps); shares = shares })

pub record Payout : Type 0 where
  pub shares : ℤ
  pub gross : ℕ
  pub fee : ℕ
  pub net : ℤ

unfoldable pub claim_payout : ℤ → ShareRatio → Number → Result Payout
claim_payout shares ratio withdraw_fee_bps = do
  gross ← apply_ratio_floor shares ratio
  bps ← fee_rate withdraw_fee_bps
  ok (record {
    shares = shares;
    gross = gross;
    fee = fee_up gross bps;
    net = sub_ℕ gross (fee_up gross bps);
  })

-- The checks and the division of `batchPayout`, once no input is negative.
unfoldable pub batch_checked : ℕ → ℕ → ℕ → ℕ → Result Payout
batch_checked shares numerator denominator bps = do
  throw_if
      (ltb u128_max numerator || (ltb u128_max denominator || ltb u128_max (shares * numerator)))
      "Payout ratio exceeds u128"
  let gross = shares * numerator / denominator
  throw_if (ltb u64_max gross || ltb u64_max shares) "Payout exceeds u64"
  let fee = gross * bps / 10000
  ok (record { shares = pos shares; gross = gross; fee = fee; net = sub_ℕ gross fee })

-- `!denominator`, and the range of the fee: the rate, or none.
unfoldable pub batch_bps : ℕ → Number → Result ℕ
batch_bps denominator (whole (pos n)) =
    if denominator == 0 || ltb 10000 n then err "Invalid payout ratio or fee" else ok n
batch_bps denominator _ = err "Invalid payout ratio or fee"

unfoldable pub batch_payout : ℤ → ℤ → ℤ → Number → Result Payout
unfolding batch_bps batch_checked
batch_payout (pos shares) (pos numerator) (pos denominator) fee_bps = do
  bps ← batch_bps denominator fee_bps
  batch_checked shares numerator denominator bps
batch_payout _ _ _ fee_bps = err "Negative payout input"
