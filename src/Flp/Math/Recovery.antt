-- ===== src/Flp/Math/Recovery.antt =====
-- Full recovery pays real assets: `recoveryWithdrawRatio` of src/flp/math.ts.
use fermi_v1_sdk.Base.{
  ℕ, ◌+◌, ◌*◌, ◌≤◌, ◌<◌, ◌≡◌, refl, arith, ok, ℤ, pos, negsuc, ◌≤ℤ◌, Number, List, [], ◌∷◌,
  from_bind, ok_injective, subst,
}
use fermi_v1_sdk.Flp.Math.{ShareRatio, recovery_withdraw_ratio, claim_payout, Payout}
use fermi_v1_sdk.Flp.Math.Payouts.{claim_payout-Claimed, claim_each, total_gross, sum, gross_bound}

recovery_parts :
    (supply nav : ℤ) {num den : ℤ}
    → recovery_withdraw_ratio supply nav ≡ ok (record { numerator = num; denominator = den })
    → (n d : ℕ) × (num ≡ pos n) × (den ≡ pos d) × (supply ≡ pos d) × (nav ≡ pos n) × (0 < d)
unfolding recovery_withdraw_ratio
recovery_parts (pos s) (pos n) h = (n, s, ground arith, ground arith, refl, refl, ground arith)
recovery_parts (pos s) (negsuc n) h = ground arith
recovery_parts (negsuc s) nav h = ground arith

within_assets : (g d n total : ℕ) → 0 < d → g * d ≤ total * n → total ≤ d → g ≤ n
within_assets g d n total hd hg ht = let m : total * n ≤ d * n = grind arith in grind arith

gross_total :
    (n d : ℕ) (bps : Number) (ss : List ℕ) {ps : List Payout}
    → claim_each (record { numerator = pos n; denominator = pos d }) bps ss ≡ ok ps
    → total_gross ps * d ≤ sum ss * n
gross_total n d bps [] h = subst (λ ps. total_gross ps * d ≤ 0 * n) (ok_injective h) (omega arith)
gross_total n d bps (s ∷ ss) h =
    let ratio : ShareRatio = record { numerator = pos n; denominator = pos d } in
    from_bind (claim_payout (pos s) ratio bps) _ h λ p ep kp.
      from_bind (claim_each ratio bps ss) _ kp λ ps eps kps.
        let c = claim_payout-Claimed (pos s) ratio bps ep in
        subst (λ ps. total_gross ps * d ≤ (s + sum ss) * n) (ok_injective kps)
          (omega (arith, gross_bound s n d c.gross_of, gross_total n d bps ss eps))

-- In recovery, claims on no more than the whole supply take no more than the assets, whatever the
-- fee: gross payouts add up to at most `navLow`.
pub recovery_claims-le-nav :
    (supply : ℕ) (nav : ℤ) (bps : Number) (ss : List ℕ) {ratio : ShareRatio} {ps : List Payout}
    → recovery_withdraw_ratio (pos supply) nav ≡ ok ratio
    → claim_each ratio bps ss ≡ ok ps
    → sum ss ≤ supply
    → pos (total_gross ps) ≤ℤ nav
recovery_claims-le-nav supply nav bps ss {ratio} {ps} hr hc hs =
    let (n, d, en, ed, es, ev, dp) =
      recovery_parts (pos supply) nav {num = ratio.numerator} {den = ratio.denominator} hr in
    let er : ratio ≡ record { numerator = pos n; denominator = pos d } =
      λ i. record { numerator = en i; denominator = ed i } in
    let le = gross_total n d bps ss (subst (λ r. claim_each r bps ss ≡ ok ps) er hc) in
    let sd : supply ≡ d = ground (arith, es) in
    let within : total_gross ps ≤ n =
      within_assets (total_gross ps) d n (sum ss) dp le (rw (← sd) hs) in
    rw ev (omega arith)
