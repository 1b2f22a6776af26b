-- ===== src/Flp/V4/Operate.antt =====
-- src/flp/v4.ts: the instructions that run a pool, its funding window, and its recovery. Reading an account
-- and adding the event queues of a list of health accounts are calls of the network.
use fermi_v1_sdk.Base.{
  ℕ, ◌+◌, ◌-◌, ◌^◌, ℤ, pos, negsuc, leb_ℤ, Bool, true, false, not, ◌&&◌, ◌||◌, List, [], ◌∷◌, ◌++◌,
  Result, ok, ◌>>=◌, ◌>>◌, throw_if, codes, if◌then◌else◌, ltb, ◌==◌, Number, whole, length, map,
}
use fermi_v1_sdk.Intents.Accounts.{AccountMeta}
use fermi_v1_sdk.Flp.Vaults.{none_epoch, EpochRecord, deferred_batches, max_equity_batches}
use fermi_v1_sdk.Flp.Vaults.Gates.{has, unwind_flag}
use fermi_v1_sdk.Flp.V4.Flows.{
  writable_meta, in_bounds, recovering_or_closed, recovery_metas, record_or_none, flow_call,
}
use fermi_v1_sdk.Flp.V4.{Addresses, VaultState, Named, amount, Call, uint, require_v4}

pub record FundingWindow (K : Type 0) : Type 0 where
  pub vault : K
  pub version : ℕ
  pub closed_epoch : ℤ
  pub scheduled_start : ℤ
  pub deadline : ℤ
  pub eligible : Bool

-- The epoch that the window closed is a u64 below the largest one, and is the one before the vault's.
unfoldable pub follows : ℤ → ℕ → Bool
follows (pos n) epoch = ltb n (2 ^ 64) && (ltb n (2 ^ 64 - 1) && n + 1 == epoch)
follows (negsuc n) epoch = false

unfoldable pub funding_window_is_open : {K : Type 0} → FundingWindow K → ℤ → Bool
funding_window_is_open w now = w.eligible && (leb_ℤ w.scheduled_start now && leb_ℤ now w.deadline)

-- The limit once it is within its range
abbrev limit_of : Number → ℕ
limit_of (whole (pos n)) = n
limit_of _ = 0

module _ {K : Type 0} (A : Addresses K) (read_window : K → Result (FundingWindow K))
    (read_epoch : K → Result (EpochRecord K))
    (with_event_queues : List (AccountMeta K) → Result (List (AccountMeta K))) (vault : K) where
  unfoldable pub funding_window_is_current : FundingWindow K → VaultState K → Bool
  unfolding follows
  funding_window_is_current w state =
      w.version == 1 && (A.equals w.vault vault && follows w.closed_epoch state.epoch)

  unfoldable pub fetch_funding_window : VaultState K → Result (FundingWindow K)
  unfolding funding_window_is_current
  fetch_funding_window state = do
    w ← read_window (A.funding_window vault)
    throw_if (not (funding_window_is_current w state)) "Funding window changed; refresh vault state"
    ok w

  unfoldable pub fetch_epoch : ℕ → Result (EpochRecord K)
  unfolding uint
  fetch_epoch epoch = do
    generation ← uint (pos epoch) 64
    r ← read_epoch (A.epoch_record vault generation)
    throw_if (not (A.equals r.vault vault && r.epoch == generation)) "Epoch identity mismatch"
    ok r

  unfoldable pub fund_head : VaultState K → Named K → List (AccountMeta K) → Result (Call K)
  unfolding flow_call
  fund_head state accounts health = do
    throw_if (state.deferred_head == none_epoch) "No deferred head"
    require_v4 A vault state
    queues ← with_event_queues health
    flow_call A vault (codes "fundHeadV2") state accounts [] []
        (queues ++ (if has state.status unwind_flag then recovery_metas A vault false else []))

  unfoldable pub fund_head_if_open :
      VaultState K → Named K → List (AccountMeta K) → ℤ → Result (Call K)
  unfolding fetch_funding_window funding_window_is_open fund_head
  fund_head_if_open state accounts health chain_time = do
    w ← fetch_funding_window state
    throw_if (not (funding_window_is_open w chain_time)) "Funding window is not open"
    fund_head state accounts health

  unfoldable pub close_epoch :
      VaultState K → Named K → List (AccountMeta K) → Number → Result (Call K)
  unfolding deferred_batches fetch_epoch flow_call
  close_epoch state accounts health max_batches = do
    throw_if (not (in_bounds 1 max_equity_batches max_batches)) "Unsupported deferred batch count"
    batches ←
        deferred_batches A.equals fetch_epoch vault (limit_of max_batches) state.deferred_head []
    require_v4 A vault state
    queues ← with_event_queues health
    flow_call A vault (codes "closeEpochV4") state accounts
        ((codes "epochRecord", A.epoch_record vault state.epoch)
          ∷ (codes "deferredTailRecord", record_or_none A vault state.deferred_tail)
          ∷ [])
        ((codes "deferredBatchCount", amount (length batches)) ∷ [])
        (map (λ e. writable_meta (A.epoch_record vault e)) batches
          ++ queues
          ++ (if has state.status unwind_flag then recovery_metas A vault true else []))

  unfoldable pub sweep_idle : VaultState K → Named K → List (AccountMeta K) → ℤ → Result (Call K)
  unfolding flow_call
  sweep_idle state accounts health max_amount = do
    throw_if (recovering_or_closed state.status)
        "Sweeps are unavailable during recovery or after closure"
    require_v4 A vault state
    n ← uint max_amount 64
    queues ← with_event_queues health
    flow_call A vault (codes "sweepIdleV2") state accounts [] ((codes "maxAmount", amount n) ∷ [])
        queues

  unfoldable pub cure_deferred : VaultState K → K → Named K → List (AccountMeta K) → Result (Call K)
  unfolding flow_call
  cure_deferred state signer accounts health = do
    throw_if (state.deferred_head == none_epoch || recovering_or_closed state.status)
        "No eligible deferred head"
    require_v4 A vault state
    queues ← with_event_queues health
    flow_call A vault (codes "cureDeferredV2") state accounts ((codes "signer", signer) ∷ []) []
        queues
