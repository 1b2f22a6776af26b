-- ===== src/Flp/Vaults/Tests.antt =====
-- The decisions of src/flp/index.ts at work on concrete vaults.
use fermi_v1_sdk.Base.{
  ◌⊎◌, ℕ, false, arith, ◌≤◌, ◌≡◌, ◌↔◌, refl, Bool, true, [], ◌∷◌, none, some, Result, ok, err, ◌==◌,
  whole, pos, if◌then◌else◌,
}
use fermi_v1_sdk.Flp.Vaults.{
  none_epoch, EpochRecord, VaultParams, Timing, batch_limit, deferred_batches, close_epoch_batches,
  favourable, no_costlier, staged_params_delay_seconds,
}
use fermi_v1_sdk.Flp.Vaults.Walk.{close_epoch_batches_iff, Limit, Collected}
use fermi_v1_sdk.Flp.Vaults.Delay.{staged_delay-ge, Costs}
use fermi_v1_sdk.Flp.Vaults.Gates.{
  has, pre_deposit_flag, withdrawals_paused_flag, pre_deposit_v3, request_deposit, pre_withdraw_v3,
  terminal_redeem, unsigned_u64, vault_mode, deposits_unavailable, deposit_instruction,
  trading_withdrawal_instruction, withdrawal_instruction, public_refund_instruction, graduate_ix,
}
use fermi_v1_sdk.Flp.Vaults.Phases.{deposit-exit, deposit-returns, Exits}

abbrev same : ℕ → ℕ → Bool
same a b = a == b

-- Epoch 5 links to epoch 7, the last; epoch 9 links to itself.
abbrev queue : ℕ → Result (EpochRecord ℕ)
queue n =
    if n == 5
    then ok (record { vault = 1; epoch = 5; wd_status = 2; next_deferred = 7 })
    else if n == 7
    then ok (record { vault = 1; epoch = 7; wd_status = 2; next_deferred = none_epoch })
    else if n == 9
    then ok (record { vault = 1; epoch = 9; wd_status = 2; next_deferred = 9 })
    else err "no record"

two_batches : close_epoch_batches same queue 1 5 (some (whole (pos 8))) ≡ ok (5 ∷ 7 ∷ [])
unfolding close_epoch_batches batch_limit deferred_batches
two_batches = refl

cycle_refused : close_epoch_batches same queue 1 9 none ≡ err "Invalid deferred queue cycle"
unfolding close_epoch_batches batch_limit deferred_batches
cycle_refused = refl

nine_refused :
    close_epoch_batches same queue 1 5 (some (whole (pos 9))) ≡ err "maxBatches must be 1 to 8"
unfolding close_epoch_batches batch_limit deferred_batches
nine_refused = refl

close_epoch_batches_iff_example :
    (close_epoch_batches same queue 1 5 (some (whole (pos 8))) ≡ ok (5 ∷ 7 ∷ [])) ↔ (
      (limit : ℕ) × Limit (some (whole (pos 8))) limit
      × Collected same queue 1 limit 5 [] (5 ∷ 7 ∷ []))
close_epoch_batches_iff_example =
    close_epoch_batches_iff same queue 1 5 (some (whole (pos 8))) (5 ∷ 7 ∷ [])

abbrev params : ℕ → VaultParams
params fee = record {
  epoch_duration_s = 3600;
  request_cutoff_s = 300;
  timelock_s = 600;
  mgmt_fee_bps = fee;
  perf_fee_bps = 1000;
  deposit_fee_bps = 0;
  withdraw_fee_bps = 10;
  upnl_haircut_bps = 500;
  min_post_withdraw_init_ratio_bps = 12000;
  breaker_drawdown_bps = 2000;
  breaker_min_init_ratio_bps = 11000;
  breaker_window_s = 86400;
  min_deposit = 1000;
  min_withdraw_shares = 1000;
  equity_window_s = 300;
}

abbrev timing : Timing
timing = record { enabled = true; epoch_duration_s = 7200; request_cutoff_s = 600 }

higher_fee_waits : staged_params_delay_seconds (params 100) timing (params 200) ≡ 7800
unfolding staged_params_delay_seconds favourable no_costlier
higher_fee_waits = refl

staged_delay-ge_example :
    (600 ≤ staged_params_delay_seconds (params 100) timing (params 200))
    × ((¬ Costs (params 100) (params 200))
        ⊎ ((3900 ≤ staged_params_delay_seconds (params 100) timing (params 200))
            × (7800 ≤ staged_params_delay_seconds (params 100) timing (params 200))))
staged_delay-ge_example = staged_delay-ge (params 100) timing (params 200)

open_before_graduation : deposit_instruction 10 (pos 5) ≡ ok (pre_deposit_v3 5)
unfolding deposit_instruction deposits_unavailable vault_mode has unsigned_u64
open_before_graduation = refl

closed_redeems : withdrawal_instruction 34 (pos 5) ≡ ok (terminal_redeem 5)
unfolding withdrawal_instruction trading_withdrawal_instruction has unsigned_u64
closed_redeems = refl

refund_while_paused : public_refund_instruction 10 (pos 5) ≡ ok (pre_withdraw_v3 5)
unfolding public_refund_instruction has unsigned_u64
refund_while_paused = refl

graduation_waits : graduate_ix 3 10 ≡ err "Withdrawals are paused; graduation must wait"
unfolding graduate_ix vault_mode has
graduation_waits = refl

deposit-exit_example :
    (n : ℕ) × (pos 5 ≡ pos n)
    × Exits
        (has 10 pre_deposit_flag)
        (has 10 withdrawals_paused_flag)
        n
        (pre_deposit_v3 5)
        (withdrawal_instruction 10 (pos 5))
deposit-exit_example = deposit-exit 10 (pos 5) open_before_graduation

open_vault : deposits_unavailable 2 ≡ false
unfolding deposits_unavailable vault_mode has
open_vault = refl

deposit-returns_example :
    deposit_instruction 2 (pos 5)
    ≡ ok (if has 2 pre_deposit_flag then pre_deposit_v3 5 else request_deposit 5)
deposit-returns_example = deposit-returns 2 5 open_vault (omega arith)
