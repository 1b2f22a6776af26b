-- ===== src/Flp/Vaults.antt =====
-- src/flp/index.ts: decisions of the pool client on the state of a vault. A program address is made
-- from an epoch by a library, so that a batch account is its epoch here.
pub mod Walk
pub mod Delay
pub mod Gates
pub mod Phases
mod Tests
use fermi_v1_sdk.Base.{
  ℕ, zero, suc, ◌+◌, Bool, true, false, not, ◌&&◌, ◌||◌, List, [], ◌∷◌, Option, none, some, Result,
  ok, err, ◌>>=◌, ◌>>◌, throw_if, ◌==◌, leb, ltb, if◌then◌else◌, any, max, Number, whole, pos,
}

-- The largest u64 stands for no epoch.
abbrev pub none_epoch : ℕ
none_epoch = 18446744073709551615

abbrev pub max_equity_batches : ℕ
max_equity_batches = 8

abbrev pub default_equity_batches : ℕ
default_equity_batches = 2

pub record EpochRecord (K : Type 0) : Type 0 where
  pub vault : K
  pub epoch : ℕ
  pub wd_status : ℕ
  pub next_deferred : ℕ

-- `options.maxBatches ?? DEFAULT_EQUITY_BATCHES`, within its range
unfoldable pub batch_limit : Option Number → Result ℕ
batch_limit none = ok default_equity_batches
batch_limit (some (whole (pos n))) =
    if ltb n 1 || ltb max_equity_batches n then err "maxBatches must be 1 to 8" else ok n
batch_limit (some _) = err "maxBatches must be 1 to 8"

module _ {K : Type 0} (same_key : K → K → Bool) (fetch_epoch : ℕ → Result (EpochRecord K)) where
  abbrev pub record_matches : K → ℕ → EpochRecord K → Bool
  record_matches vault next r = same_key r.vault vault && (r.epoch == next && r.wd_status == 2)

  -- The loop of `closeEpoch`: the batches that may still be added, the next epoch, and those seen.
  unfoldable pub deferred_batches : K → ℕ → ℕ → List ℕ → Result (List ℕ)
  deferred_batches vault zero next seen = ok []
  deferred_batches vault (suc left) next seen = elim (next == none_epoch) [
    | true ↦ ok []
    | false ↦
        throw_if (any (λ e. e == next) seen) "Invalid deferred queue cycle"
        >> (fetch_epoch next >>= λ r.
            throw_if (not (record_matches vault next r))
              "Deferred queue changed; refresh vault state"
            >> (deferred_batches vault left r.next_deferred (next ∷ seen) >>= λ rest.
                ok (next ∷ rest)))
  ]

  unfoldable pub close_epoch_batches : K → ℕ → Option Number → Result (List ℕ)
  unfolding batch_limit deferred_batches
  close_epoch_batches vault head options = do
    limit ← batch_limit options
    deferred_batches vault limit head []

-- The parts of `VaultParams` that `stagedParamsDelaySeconds` reads.
pub record VaultParams : Type 0 where
  pub epoch_duration_s : ℕ
  pub request_cutoff_s : ℕ
  pub timelock_s : ℕ
  pub mgmt_fee_bps : ℕ
  pub perf_fee_bps : ℕ
  pub deposit_fee_bps : ℕ
  pub withdraw_fee_bps : ℕ
  pub upnl_haircut_bps : ℕ
  pub min_post_withdraw_init_ratio_bps : ℕ
  pub breaker_drawdown_bps : ℕ
  pub breaker_min_init_ratio_bps : ℕ
  pub breaker_window_s : ℕ
  pub min_deposit : ℕ
  pub min_withdraw_shares : ℕ
  pub equity_window_s : ℕ

-- `scheduledTiming`
pub record Timing : Type 0 where
  pub enabled : Bool
  pub epoch_duration_s : ℕ
  pub request_cutoff_s : ℕ

-- The first six tests of `favourable`: no fee and no minimum is higher.
unfoldable pub no_costlier : VaultParams → VaultParams → Bool
no_costlier p next =
    leb next.mgmt_fee_bps p.mgmt_fee_bps
    && (leb next.perf_fee_bps p.perf_fee_bps
        && (leb next.deposit_fee_bps p.deposit_fee_bps
            && (leb next.withdraw_fee_bps p.withdraw_fee_bps
                && (leb next.min_deposit p.min_deposit
                    && leb next.min_withdraw_shares p.min_withdraw_shares))))

unfoldable pub favourable : VaultParams → Timing → VaultParams → Bool
unfolding no_costlier
favourable p timing next =
    no_costlier p next
    && (next.epoch_duration_s
          == (if timing.enabled then timing.epoch_duration_s else p.epoch_duration_s)
        && (next.request_cutoff_s
              == (if timing.enabled then timing.request_cutoff_s else p.request_cutoff_s)
            && (next.timelock_s == p.timelock_s
                && (next.upnl_haircut_bps == p.upnl_haircut_bps
                    && (next.min_post_withdraw_init_ratio_bps == p.min_post_withdraw_init_ratio_bps
                        && (next.breaker_drawdown_bps == p.breaker_drawdown_bps
                            && (next.breaker_min_init_ratio_bps == p.breaker_min_init_ratio_bps
                                && (next.breaker_window_s == p.breaker_window_s
                                    && next.equity_window_s == p.equity_window_s))))))))

unfoldable pub staged_params_delay_seconds : VaultParams → Timing → VaultParams → ℕ
unfolding favourable
staged_params_delay_seconds p timing next =
    if favourable p timing next
    then p.timelock_s
    else max p.timelock_s (
        max (p.epoch_duration_s + p.request_cutoff_s)
          (if timing.enabled then timing.epoch_duration_s + timing.request_cutoff_s else 0))
