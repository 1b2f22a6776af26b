-- ===== src/Flp/Math/NoProfit.antt =====
-- A deposit followed at once by a withdrawal: `quoteDeposit`, `withdrawRatio` and `claimPayout` of
-- src/flp/math.ts.
use fermi_v1_sdk.Base.{
  ℕ, ◌+◌, ◌≤◌, ◌<◌, ◌≡◌, arith, ok, ℤ, pos, negsuc, ◌≤ℤ◌, ◌+ℤ◌, Number, ◌⊎◌, inl, inr, sub_ℕ_parts,
  pos_injective, sym, ◌∙◌, ◌*◌,
}
use fermi_v1_sdk.Flp.Math.{
  ShareRatio, deposit_ratio, withdraw_ratio, quote_deposit, claim_payout, DepositQuote, Payout,
  virtual_assets, virtual_shares,
}
use fermi_v1_sdk.Flp.Math.Ratios.{apply_ratio_floor_iff}
use fermi_v1_sdk.Flp.Math.Fees.{quote_deposit-Quoted}
use fermi_v1_sdk.Flp.Math.Payouts.{claim_payout-Claimed}

-- `s` shares and `m` assets, both with the virtual offsets: x assets buy y shares, which are worth
-- no more than x once both are in the vault.
no_gain : (s m x y g : ℕ) → 0 < s → y * m ≤ x * s → g * (s + y) ≤ y * (m + x) → g ≤ x
no_gain s m x y g hs hy hg =
    let k : ℕ = s + y in
    let le : g * k ≤ x * k = omega arith in let kp : 0 < k = omega arith in cancel g x k kp le
  where
    cancel : (g x k : ℕ) → 0 < k → g * k ≤ x * k → g ≤ x
    cancel g x k kp le = grind arith

deposit_parts :
    (s : ℕ) (nav : ℤ) {num den : ℤ}
    → deposit_ratio (pos s) nav ≡ ok (record { numerator = num; denominator = den })
    → (num ≡ pos (s + virtual_shares))
      × (den ≡ nav +ℤ pos virtual_assets)
      × (pos 0 ≤ℤ nav +ℤ pos virtual_assets)
unfolding deposit_ratio
deposit_parts s (pos n) h = (ground arith, ground arith, ground arith)
deposit_parts s (negsuc n) h = (ground arith, ground arith, ground arith)

withdraw_parts :
    (s : ℕ) (nav : ℤ) {num den : ℤ}
    → withdraw_ratio (pos s) nav ≡ ok (record { numerator = num; denominator = den })
    → (den ≡ pos (s + virtual_shares)) × ((num ≡ pos 0) ⊎ (num ≡ nav +ℤ pos virtual_assets))
unfolding withdraw_ratio
withdraw_parts s (pos n) h = (ground arith, ground arith)
withdraw_parts s (negsuc n) h = (ground arith, ground arith)

-- The numbers behind one round trip, whichever numerator the withdrawal uses.
round_trip :
    (s m x y g n : ℕ)
    → y * m ≤ x * (s + virtual_shares)
    → g * (s + y + virtual_shares) ≤ y * n
    → (n ≡ 0) ⊎ (n ≡ m + x)
    → g ≤ x
round_trip s m x y g n hy hg (inl e) =
    let z : g * (s + y + virtual_shares) ≤ y * 0 = rw e at hg in grind arith
round_trip s m x y g n hy hg (inr e) =
    let w : g * (s + y + virtual_shares) ≤ y * (m + x) = rw e at hg in
    no_gain (s + virtual_shares) m x y g (omega arith) hy (omega arith)

numerator_cases :
    (nav net num : ℤ) (m x n : ℕ)
    → nav +ℤ pos virtual_assets ≡ pos m
    → net ≡ pos x
    → num ≡ pos n
    → (num ≡ pos 0) ⊎ (num ≡ nav +ℤ net +ℤ pos virtual_assets)
    → (n ≡ 0) ⊎ (n ≡ m + x)
unfolding ◌+ℤ◌
numerator_cases nav net num m x n hm hx hn (inl e) = inl (ground arith)
numerator_cases (pos v) net num m x n hm hx hn (inr e) = inr (ground arith)
numerator_cases (negsuc v) net num m x n hm hx hn (inr e) = inr (ground arith)

-- Shares bought by a deposit and withdrawn at the price of the same valuation, with the deposit's
-- net amount added to it, are worth no more than that net amount, even before the withdrawal fee.
pub deposit-withdraw-le :
    (amount : ℤ) (supply : ℕ) (nav : ℤ) (bps bps' : Number) {q : DepositQuote} {ratio : ShareRatio}
    {p : Payout}
    → quote_deposit amount (pos supply) nav bps ≡ ok q
    → withdraw_ratio (pos (supply + q.shares)) (nav +ℤ q.net) ≡ ok ratio
    → claim_payout (pos q.shares) ratio bps' ≡ ok p
    → (pos p.gross ≤ℤ q.net) × (p.net ≤ℤ q.net)
deposit-withdraw-le amount supply nav bps bps' {q} {ratio} {p} hq hw hc =
    let t = quote_deposit-Quoted amount (pos supply) nav bps hq in
    let (en, ed, nn) =
      deposit_parts supply nav {num = t.ratio.numerator} {den = t.ratio.denominator} t.ratio_eq in
    let (wd, wn) =
      withdraw_parts (supply + q.shares) (nav +ℤ q.net) {num = ratio.numerator}
        {den = ratio.denominator} hw in
    let f = (apply_ratio_floor_iff q.net t.ratio q.shares).0 t.shares_eq in
    let c = claim_payout-Claimed (pos q.shares) ratio bps' hc in
    let g = c.gross_of in
    let hn : f.n ≡ supply + virtual_shares = pos_injective (sym f.numerator_eq ∙ en) in
    let ga : g.a ≡ q.shares = pos_injective (sym g.amount_eq) in
    let gd : g.d ≡ supply + q.shares + virtual_shares = pos_injective (sym g.denominator_eq ∙ wd) in
    let hy : q.shares * f.d ≤ f.a * (supply + virtual_shares) = rw hn at f.below in
    let hg : p.gross * (supply + q.shares + virtual_shares) ≤ q.shares * g.n =
      rw (ga, gd) at g.below in
    let cases =
      numerator_cases nav q.net ratio.numerator f.d f.a g.n (sym ed ∙ f.denominator_eq) f.amount_eq
        g.numerator_eq wn in
    let le : p.gross ≤ f.a = round_trip supply f.d f.a q.shares p.gross g.n hy hg cases in
    let gross_le : pos p.gross ≤ℤ q.net = rw f.amount_eq (omega arith) in
    let net_le : p.net ≤ℤ pos p.gross = rw c.net_eq (omega (arith, sub_ℕ_parts p.gross p.fee)) in
    (gross_le, omega arith)
