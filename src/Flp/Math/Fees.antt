-- ===== src/Flp/Math/Fees.antt =====
-- The fee of a deposit, src/flp/math.ts.
use fermi_v1_sdk.Base.{
  ℕ, ◌+◌, ◌*◌, ◌≤◌, ◌<◌, ◌≡◌, refl, arith, ok, ℤ, pos, negsuc, sub_ℕ, Number, whole, other,
  from_bind, ok_injective, subst, ◌+ℤ◌, ◌≤ℤ◌,
}
use fermi_v1_sdk.Flp.Math.{
  u64, fee_rate, u64_max, deposit_ratio, apply_ratio_floor, quote_deposit, DepositQuote, ShareRatio,
  fee_up,
}

-- What `fee_rate` accepts.
pub fee_rate_range :
    (bps : Number) {b : ℕ} → fee_rate bps ≡ ok b → (bps ≡ whole (pos b)) × (b ≤ 10000)
unfolding fee_rate
fee_rate_range (whole (pos n)) h = ground arith
fee_rate_range (whole (negsuc n)) h = cc
fee_rate_range (other t) h = cc

-- A fee that is rounded up never passes the amount.
pub fee_up-le : (x b : ℕ) → b ≤ 10000 → fee_up x b ≤ x
fee_up-le x b h = grind arith

pub u64_value : (n : ℤ) {a : ℕ} → u64 n ≡ ok a → (n ≡ pos a) × (a ≤ u64_max)
unfolding u64
u64_value (pos n) h = ground arith
u64_value (negsuc n) h = cc

-- The steps that a quote went through.
pub record Quoted (amount supply nav : ℤ) (bps : Number) (q : DepositQuote) : Type 0 where
  pub rate : ℕ
  pub ratio : ShareRatio
  pub rate_fits : rate ≤ 10000
  pub rate_eq : bps ≡ whole (pos rate)
  pub amount_eq : amount ≡ pos q.amount
  pub amount_fits : q.amount ≤ u64_max
  pub fee_eq : q.fee ≡ fee_up q.amount rate
  pub net_eq : q.net ≡ sub_ℕ q.amount q.fee
  pub ratio_eq : deposit_ratio supply nav ≡ ok ratio
  pub shares_eq : apply_ratio_floor q.net ratio ≡ ok q.shares

fee_facts :
    (q : DepositQuote) (amount : ℤ) (bps : ℕ)
    → bps ≤ 10000
    → amount ≡ pos q.amount
    → q.fee ≡ fee_up q.amount bps
    → q.net ≡ sub_ℕ q.amount q.fee
    → (amount ≡ pos q.amount)
      × (q.net +ℤ pos q.fee ≡ amount)
      × (pos 0 ≤ℤ q.net)
      × (q.amount * bps ≤ q.fee * 10000)
      × (q.fee * 10000 < q.amount * bps + 10000)
unfolding ◌+ℤ◌
fee_facts q amount bps hb ha hf hn =
    let le : fee_up q.amount bps ≤ q.amount = fee_up-le q.amount bps hb in
    (ha, ground arith, ground arith, omega arith, omega arith)

pub quote_deposit-Quoted :
    (amount supply nav : ℤ) (bps : Number) {q : DepositQuote}
    → quote_deposit amount supply nav bps ≡ ok q
    → Quoted amount supply nav bps q
unfolding quote_deposit
quote_deposit-Quoted amount supply nav bps {q} h = from_bind (u64 amount) _ h λ a ea ka.
    from_bind (fee_rate bps) _ ka λ b eb kb. from_bind (deposit_ratio supply nav) _ kb λ r er kr.
      from_bind (apply_ratio_floor (sub_ℕ a (fee_up a b)) r) _ kr λ s es ks.
        subst (Quoted amount supply nav bps) (ok_injective ks) (record {
          rate = b;
          ratio = r;
          rate_fits = (fee_rate_range bps eb).1;
          rate_eq = (fee_rate_range bps eb).0;
          amount_eq = (u64_value amount ea).0;
          amount_fits = (u64_value amount ea).1;
          fee_eq = refl;
          net_eq = refl;
          ratio_eq = er;
          shares_eq = es;
        })

-- A deposit's fee is the least number that is at least `amount * bps / 10000`; fee and net are the
-- amount, and neither is negative.
pub quote_deposit-fee :
    (amount supply nav : ℤ) (bps : ℕ) {q : DepositQuote}
    → quote_deposit amount supply nav (whole (pos bps)) ≡ ok q
    → (amount ≡ pos q.amount)
      × (q.net +ℤ pos q.fee ≡ amount)
      × (pos 0 ≤ℤ q.net)
      × (q.amount * bps ≤ q.fee * 10000)
      × (q.fee * 10000 < q.amount * bps + 10000)
quote_deposit-fee amount supply nav bps {q} h =
    let t = quote_deposit-Quoted amount supply nav (whole (pos bps)) h in
    let e : bps ≡ t.rate = ground (arith, t.rate_eq) in
    fee_facts q amount bps (rw e t.rate_fits) t.amount_eq (rw e t.fee_eq) t.net_eq
