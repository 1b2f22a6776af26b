-- ===== src/Flp/Vaults/Delay.antt =====
-- How long a change of parameters waits: `stagedParamsDelaySeconds` of src/flp/index.ts.
use fermi_v1_sdk.Base.{
  ℕ, ◌+◌, ◌≤◌, ◌<◌, ◌≡◌, ◌⊎◌, inl, inr, arith, Bool, false, if◌then◌else◌, max, Bool-cases,
}
use fermi_v1_sdk.Flp.Vaults.{
  VaultParams, Timing, favourable, no_costlier, staged_params_delay_seconds,
}

-- A change that can cost a holder of shares: a higher fee or a higher minimum.
abbrev pub Costs : VaultParams → VaultParams → Type 0
Costs p next =
    (p.mgmt_fee_bps < next.mgmt_fee_bps)
    ⊎ ((p.perf_fee_bps < next.perf_fee_bps)
        ⊎ ((p.deposit_fee_bps < next.deposit_fee_bps)
            ⊎ ((p.withdraw_fee_bps < next.withdraw_fee_bps)
                ⊎ ((p.min_deposit < next.min_deposit)
                    ⊎ (p.min_withdraw_shares < next.min_withdraw_shares)))))

Costs-not_favourable : (p next : VaultParams) → Costs p next → no_costlier p next ≡ false
unfolding no_costlier
Costs-not_favourable p next (inl h) = ground arith
Costs-not_favourable p next (inr (inl h)) = ground arith
Costs-not_favourable p next (inr (inr (inl h))) = ground arith
Costs-not_favourable p next (inr (inr (inr (inl h)))) = ground arith
Costs-not_favourable p next (inr (inr (inr (inr (inl h))))) = ground arith
Costs-not_favourable p next (inr (inr (inr (inr (inr h))))) = ground arith

-- The wait that a scheduled timing asks for
abbrev pub scheduled_wait : Timing → ℕ
scheduled_wait timing =
    if timing.enabled then timing.epoch_duration_s + timing.request_cutoff_s else 0

-- Every change waits at least the timelock; and either it raises no fee and no minimum, or it also waits
-- at least a whole epoch and its cutoff, by the timing in force and by a timing that is scheduled.
pub staged_delay-ge :
    (p : VaultParams) (timing : Timing) (next : VaultParams)
    → (p.timelock_s ≤ staged_params_delay_seconds p timing next)
      × ((¬ Costs p next)
          ⊎ ((p.epoch_duration_s + p.request_cutoff_s ≤ staged_params_delay_seconds p timing next)
              × (scheduled_wait timing ≤ staged_params_delay_seconds p timing next)))
unfolding staged_params_delay_seconds favourable
staged_delay-ge p timing next = (
  lock (favourable p timing next) p.timelock_s _,
  elim (Bool-cases (no_costlier p next)) [
    | inl t ↦ inl (λ c. cc (Costs-not_favourable p next c))
    | inr f ↦ inr (rw f (omega arith, omega arith))
  ],
)
  where
    lock : (b : Bool) (t rest : ℕ) → t ≤ (if b then t else max t rest)
    lock b t rest = ground arith
