-- ===== src/Flp/Math/Tests.antt =====
-- The theorems of src/flp/math.ts at work on concrete vaults.
use fermi_v1_sdk.Base.{
  ℕ, ◌+◌, ◌*◌, ◌≤◌, ◌<◌, ◌≡◌, ◌↔◌, refl, arith, List, [], ◌∷◌, ok, pos, ◌+ℤ◌, ◌≤ℤ◌, whole,
}
use fermi_v1_sdk.Flp.Math.{
  ShareRatio, DepositQuote, Payout, quote_deposit, withdraw_ratio, recovery_withdraw_ratio,
  claim_payout, batch_payout, apply_ratio_floor, u64, nav_i64, fee_rate, deposit_ratio, batch_bps,
  batch_checked,
}
use fermi_v1_sdk.Flp.Math.Ratios.{apply_ratio_floor_iff, FloorOf}
use fermi_v1_sdk.Flp.Math.Fees.{quote_deposit-fee}
use fermi_v1_sdk.Flp.Math.Payouts.{claims-le-batch, claim_each, total_net, total_gross, sum}
use fermi_v1_sdk.Flp.Math.Recovery.{recovery_claims-le-nav}
use fermi_v1_sdk.Flp.Math.NoProfit.{deposit-withdraw-le}

abbrev half : ShareRatio
half = record { numerator = pos 1; denominator = pos 2 }

apply_ratio_floor_iff_example : (apply_ratio_floor (pos 7) half ≡ ok 3) ↔ FloorOf (pos 7) half 3
apply_ratio_floor_iff_example = apply_ratio_floor_iff (pos 7) half 3

half_of_seven : apply_ratio_floor (pos 7) half ≡ ok 3
unfolding apply_ratio_floor u64
half_of_seven = refl

-- 1,000,001 units into an empty vault at 30 basis points.
abbrev quoted : DepositQuote
quoted = record { amount = 1000001; fee = 3001; net = pos 997000; shares = 997000 }

quoted_eq : quote_deposit (pos 1000001) (pos 0) (pos 0) (whole (pos 30)) ≡ ok quoted
unfolding quote_deposit u64 fee_rate deposit_ratio nav_i64 apply_ratio_floor ◌+ℤ◌
quoted_eq = refl

quote_deposit-fee_example :
    (pos 1000001 ≡ pos quoted.amount)
    × (quoted.net +ℤ pos quoted.fee ≡ pos 1000001)
    × (pos 0 ≤ℤ quoted.net)
    × (quoted.amount * 30 ≤ quoted.fee * 10000)
    × (quoted.fee * 10000 < quoted.amount * 30 + 10000)
quote_deposit-fee_example =
    quote_deposit-fee (pos 1000001) (pos 0) (pos 0) 30 {q = quoted} quoted_eq

abbrev after : ShareRatio
after = record { numerator = pos 1997000; denominator = pos 1997000 }

after_eq : withdraw_ratio (pos 997000) (pos 0 +ℤ quoted.net) ≡ ok after
unfolding withdraw_ratio u64 nav_i64 ◌+ℤ◌
after_eq = refl

abbrev withdrawn : Payout
withdrawn = record { shares = pos 997000; gross = 997000; fee = 997; net = pos 996003 }

withdrawn_eq : claim_payout (pos 997000) after (whole (pos 10)) ≡ ok withdrawn
unfolding claim_payout apply_ratio_floor u64 fee_rate
withdrawn_eq = refl

deposit-withdraw-le_example : (pos withdrawn.gross ≤ℤ quoted.net) × (withdrawn.net ≤ℤ quoted.net)
deposit-withdraw-le_example =
    deposit-withdraw-le (pos 1000001) 0 (pos 0) (whole (pos 30)) (whole (pos 10)) {q = quoted}
      {ratio = after} {p = withdrawn} quoted_eq after_eq withdrawn_eq

abbrev two_claims : List ℕ
two_claims = 7 ∷ 5 ∷ []

abbrev two_payouts : List Payout
two_payouts =
    record { shares = pos 7; gross = 3; fee = 1; net = pos 2 }
    ∷ record { shares = pos 5; gross = 2; fee = 1; net = pos 1 }
    ∷ []

two_payouts_eq : claim_each half (whole (pos 100)) two_claims ≡ ok two_payouts
unfolding claim_payout apply_ratio_floor u64 fee_rate
two_payouts_eq = refl

abbrev one_batch : Payout
one_batch = record { shares = pos 12; gross = 6; fee = 0; net = pos 6 }

one_batch_eq :
    batch_payout (pos (sum two_claims)) half.numerator half.denominator (whole (pos 100))
    ≡ ok one_batch
unfolding batch_payout batch_bps batch_checked
one_batch_eq = refl

claims-le-batch_example : total_net two_payouts ≤ℤ one_batch.net
claims-le-batch_example =
    claims-le-batch half (whole (pos 100)) two_claims {ps = two_payouts} {b = one_batch}
      two_payouts_eq one_batch_eq

abbrev recovered : ShareRatio
recovered = record { numerator = pos 10; denominator = pos 20 }

recovered_eq : recovery_withdraw_ratio (pos 20) (pos 10) ≡ ok recovered
unfolding recovery_withdraw_ratio u64 nav_i64
recovered_eq = refl

recovered_payouts_eq : claim_each recovered (whole (pos 100)) two_claims ≡ ok two_payouts
unfolding claim_payout apply_ratio_floor u64 fee_rate
recovered_payouts_eq = refl

recovery_claims-le-nav_example : pos (total_gross two_payouts) ≤ℤ pos 10
recovery_claims-le-nav_example =
    recovery_claims-le-nav 20 (pos 10) (whole (pos 100)) two_claims {ratio = recovered}
      {ps = two_payouts} recovered_eq recovered_payouts_eq (omega arith)
