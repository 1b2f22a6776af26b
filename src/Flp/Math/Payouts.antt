-- ===== src/Flp/Math/Payouts.antt =====
-- Individual claims against the batch that funds them: `claimPayout` and `recoveryWithdrawRatio` of
-- src/flp/math.ts, `batchPayout` of src/flp/v4.ts.
use fermi_v1_sdk.Base.{
  ℕ, ◌+◌, ◌*◌, ◌/◌, ◌-◌, ◌≤◌, ◌<◌, ◌≡◌, refl, arith, Result, ok, ℤ, pos, negsuc, sub_ℕ, ◌≤ℤ◌, ◌+ℤ◌,
  pos_part, neg_part, sub_ℕ_parts, nonneg_sum, Number, whole, other, from_bind, ok_injective, subst,
  List, [], ◌∷◌, map_result,
}
use fermi_v1_sdk.Flp.Math.{
  fee_rate, fee_up, ShareRatio, apply_ratio_floor, claim_payout, Payout, batch_payout,
}
use fermi_v1_sdk.Flp.Math.Ratios.{FloorOf, apply_ratio_floor_iff, div_bounds}
use fermi_v1_sdk.Flp.Math.Fees.{fee_rate_range, fee_up-le}

-- The steps that a claim went through.
pub record Claimed (shares : ℤ) (ratio : ShareRatio) (bps : Number) (p : Payout) : Type 0 where
  pub rate : ℕ
  pub rate_fits : rate ≤ 10000
  pub rate_eq : bps ≡ whole (pos rate)
  pub gross_of : FloorOf shares ratio p.gross
  pub shares_eq : p.shares ≡ shares
  pub fee_eq : p.fee ≡ fee_up p.gross rate
  pub net_eq : p.net ≡ sub_ℕ p.gross p.fee

pub claim_payout-Claimed :
    (shares : ℤ) (ratio : ShareRatio) (bps : Number) {p : Payout}
    → claim_payout shares ratio bps ≡ ok p
    → Claimed shares ratio bps p
unfolding claim_payout
claim_payout-Claimed shares ratio bps {p} h =
    from_bind (apply_ratio_floor shares ratio) _ h λ g eg kg.
      from_bind (fee_rate bps) _ kg λ b eb kb.
        subst (Claimed shares ratio bps) (ok_injective kb) (record {
          rate = b;
          rate_fits = (fee_rate_range bps eb).1;
          rate_eq = (fee_rate_range bps eb).0;
          gross_of = (apply_ratio_floor_iff shares ratio g).0 eg;
          shares_eq = refl;
          fee_eq = refl;
          net_eq = refl;
        })

-- What a claim pays is no more than the gross amount less the exact fee.
pub claim_net_bound :
    (shares : ℤ) (ratio : ShareRatio) (rate : ℕ) (p : Payout)
    → Claimed shares ratio (whole (pos rate)) p
    → (pos_part p.net * 10000 + p.gross * rate ≤ p.gross * 10000) × (neg_part p.net ≡ 0)
claim_net_bound shares ratio rate p c =
    let same : rate ≡ c.rate = ground (arith, c.rate_eq) in
    net_of p rate (rw same c.rate_fits) (rw same c.fee_eq) c.net_eq
  where
    net_of :
        (p : Payout) (rate : ℕ)
        → rate ≤ 10000
        → p.fee ≡ fee_up p.gross rate
        → p.net ≡ sub_ℕ p.gross p.fee
        → (pos_part p.net * 10000 + p.gross * rate ≤ p.gross * 10000) × (neg_part p.net ≡ 0)
    net_of p rate hr hf hn =
        let le : fee_up p.gross rate ≤ p.gross = fee_up-le p.gross rate hr in
        (ground arith, ground arith)

abbrev pub total_net : List Payout → ℤ
total_net [] = pos 0
total_net (p ∷ ps) = p.net +ℤ total_net ps

abbrev pub total_gross : List Payout → ℕ
total_gross [] = 0
total_gross (p ∷ ps) = p.gross + total_gross ps

abbrev pub sum : List ℕ → ℕ
sum [] = 0
sum (s ∷ ss) = s + sum ss

-- `shares.map((s) => claimPayout(s, ratio, bps))`
abbrev pub claim_each : ShareRatio → Number → List ℕ → Result (List Payout)
claim_each ratio bps ss = map_result (λ s. claim_payout (pos s) ratio bps) ss

pub gross_bound :
    (s n d : ℕ) {g : ℕ}
    → FloorOf (pos s) (record { numerator = pos n; denominator = pos d }) g
    → g * d ≤ s * n
gross_bound s n d {g} f =
    let ea : s ≡ f.a = ground (arith, f.amount_eq) in
    let en : n ≡ f.n = ground (arith, f.numerator_eq) in
    let ed : d ≡ f.d = ground (arith, f.denominator_eq) in rw (ea, en, ed) f.below

abbrev pub Totals : ℕ → ℕ → ℕ → ℕ → List Payout → Type 0
Totals n d rate total ps =
    (total_gross ps * d ≤ total * n)
    × (pos_part (total_net ps) * 10000 + total_gross ps * rate ≤ total_gross ps * 10000)
    × (neg_part (total_net ps) ≡ 0)

add_claim :
    (n d rate s total : ℕ) (p : Payout) (ps : List Payout)
    → p.gross * d ≤ s * n
    → pos_part p.net * 10000 + p.gross * rate ≤ p.gross * 10000
    → neg_part p.net ≡ 0
    → Totals n d rate total ps
    → Totals n d rate (s + total) (p ∷ ps)
add_claim n d rate s total p ps hg hn hz (tg, tn, tz) =
    let (hp, hq) = nonneg_sum p.net (total_net ps) hz tz in (omega arith, omega arith, hq)

-- Rounding each claim down loses against one division of the sum.
pub totals :
    (n d rate : ℕ) (ss : List ℕ) {ps : List Payout}
    → claim_each (record { numerator = pos n; denominator = pos d }) (whole (pos rate)) ss ≡ ok ps
    → Totals n d rate (sum ss) ps
totals n d rate [] h = subst (Totals n d rate 0) (ok_injective h) (omega arith)
totals n d rate (s ∷ ss) h =
    let ratio : ShareRatio = record { numerator = pos n; denominator = pos d } in
    from_bind (claim_payout (pos s) ratio (whole (pos rate))) _ h λ p ep kp.
      from_bind (claim_each ratio (whole (pos rate)) ss) _ kp λ ps eps kps.
        let c = claim_payout-Claimed (pos s) ratio (whole (pos rate)) ep in
        let (hn, hz) = claim_net_bound (pos s) ratio rate p c in
        subst (Totals n d rate (s + sum ss)) (ok_injective kps) (
          add_claim n d rate s (sum ss) p ps (gross_bound s n d c.gross_of) hn hz
            (totals n d rate ss eps))

batch_gross :
    (shares n d rate : ℕ) {b : Payout}
    → batch_payout (pos shares) (pos n) (pos d) (whole (pos rate)) ≡ ok b
    → (0 < d)
      × (rate ≤ 10000)
      × (b.gross ≡ shares * n / d)
      × (b.net ≡ sub_ℕ b.gross (b.gross * rate / 10000))
unfolding batch_payout
batch_gross shares n d rate {b} h = ground arith

pub le_quotient : (g a d : ℕ) → 0 < d → g * d ≤ a → g ≤ a / d
le_quotient g a d hd h = grind (arith, div_bounds)

-- A larger gross amount pays at least as much, with the fee rounded down.
batch_within :
    (gross G rate net : ℕ)
    → rate ≤ 10000
    → gross ≤ G
    → net * 10000 + gross * rate ≤ gross * 10000
    → net + G * rate / 10000 ≤ G
batch_within gross G rate net hr hg hn =
    let k : ℕ = G - gross in
    let e : G ≡ gross + k = omega arith in
    let kr : k * rate ≤ k * 10000 = grind arith in rw e (omega arith)

claims_within :
    (num den : ℤ) (bps : Number) (ss : List ℕ) {ps : List Payout} {b : Payout}
    → claim_each (record { numerator = num; denominator = den }) bps ss ≡ ok ps
    → batch_payout (pos (sum ss)) num den bps ≡ ok b
    → total_net ps ≤ℤ b.net
claims_within (pos n) (pos d) (whole (pos rate)) ss {ps} {b} hc hb =
    let (dp, hr, hg, hn) = batch_gross (sum ss) n d rate hb in
    let (tg, tn, tz) = totals n d rate ss hc in
    let G : ℕ = sum ss * n / d in
    let le : total_gross ps ≤ G = le_quotient (total_gross ps) (sum ss * n) d dp tg in
    let paid : pos_part (total_net ps) + G * rate / 10000 ≤ G =
      batch_within (total_gross ps) G rate (pos_part (total_net ps)) hr le tn in
    rw (hn, hg) (omega (arith, sub_ℕ_parts G (G * rate / 10000)))
claims_within (pos n) (pos d) (whole (negsuc rate)) ss hc hb = unfold batch_payout in cc hb
claims_within (pos n) (pos d) (other t) ss hc hb = unfold batch_payout in cc hb
claims_within (pos n) (negsuc d) bps ss hc hb = unfold batch_payout in cc hb
claims_within (negsuc n) den bps ss hc hb = unfold batch_payout in cc hb

-- The claims of a batch, each rounded against its holder, never add up to more than `batchPayout`
-- sets aside for their shares at the same ratio and fee.
pub claims-le-batch :
    (ratio : ShareRatio) (bps : Number) (ss : List ℕ) {ps : List Payout} {b : Payout}
    → claim_each ratio bps ss ≡ ok ps
    → batch_payout (pos (sum ss)) ratio.numerator ratio.denominator bps ≡ ok b
    → total_net ps ≤ℤ b.net
claims-le-batch ratio bps ss hc hb = claims_within ratio.numerator ratio.denominator bps ss hc hb
