-- ===== src/Flp/V4/Recovery.antt =====
-- src/flp/v4.ts: the instructions that start and drive the recovery of a pool.
use fermi_v1_sdk.Base.{
  ℕ, ℤ, Bool, true, false, not, List, [], ◌∷◌, ◌++◌, Option, none, some, Result, ◌>>=◌, ◌>>◌,
  throw_if, codes, ◌==◌, Number,
}
use fermi_v1_sdk.Intents.Accounts.{AccountMeta}
use fermi_v1_sdk.Flp.V4.Flows.{writable_meta, in_bounds, recovery_metas, flow_call}
use fermi_v1_sdk.Flp.V4.{
  Addresses, VaultState, Named, amount, flag, Call, uint, uint_number, require_v4,
}

-- `recoveryMarketMetas`
pub record RecoveryMarket (K : Type 0) : Type 0 where
  pub market : K
  pub bids : K
  pub asks : K

unfoldable pub recovery_market_metas : {K : Type 0} → List (RecoveryMarket K) → List (AccountMeta K)
recovery_market_metas [] = []
recovery_market_metas (m ∷ ms) =
    writable_meta m.market ∷ writable_meta m.bids ∷ writable_meta m.asks ∷ recovery_market_metas ms

module _ {K : Type 0} (A : Addresses K)
    (with_event_queues : List (AccountMeta K) → Result (List (AccountMeta K))) (vault : K) where
  abbrev pub trigger_accounts : VaultState K → K → K → K → Named K
  trigger_accounts state signer core_program deferred =
      (codes "signer", signer)
      ∷ (codes "fermi.group", state.group)
      ∷ (codes "fermi.fermiAccount", state.fermi_account)
      ∷ (codes "fermi.fermiProgram", core_program)
      ∷ (codes "deferredRecord", deferred)
      ∷ []

  -- `head === undefined ? this.programId : deriveEpoch(this.programId, vault, head)`
  abbrev pub trigger_record : Option ℕ → K
  trigger_record none = A.program_id
  trigger_record (some head) = A.epoch_record vault head

  unfoldable pub trigger_unwind :
      VaultState K → K → K → List (RecoveryMarket K) → Bool → Option ℕ → Result (Call K)
  unfolding flow_call recovery_market_metas
  trigger_unwind state signer core_program markets full head =
      flow_call A vault (codes "triggerUnwind") state []
        (trigger_accounts state signer core_program (trigger_record head))
        ((codes "full", flag full) ∷ [])
        (recovery_market_metas markets ++ recovery_metas A vault true)

  -- A fraction that is no integer is turned away, by the range test here, by `uint` or by both in the code.
  unfoldable pub trigger_partial_unwind :
      VaultState K → K → K → List (RecoveryMarket K) → Number → Result (Call K)
  unfolding flow_call recovery_market_metas uint_number
  trigger_partial_unwind state signer core_program markets fraction_bps = do
    throw_if (not (in_bounds 1 10000 fraction_bps)) "Invalid reduction"
    require_v4 A vault state
    n ← uint_number fraction_bps 16
    flow_call A vault (codes "triggerPartialUnwind") state []
        (trigger_accounts state signer core_program A.program_id)
        ((codes "fractionBps", amount n) ∷ [])
        (recovery_market_metas markets ++ recovery_metas A vault true)

  unfoldable pub unwind_step : VaultState K → Named K → List (AccountMeta K) → ℤ → Result (Call K)
  unfolding flow_call
  unwind_step state accounts health max_base_lots = do
    size ← uint max_base_lots 63
    throw_if (size == 0) "maxBaseLots must be positive"
    flow_call A vault (codes "unwindStepV2") state accounts []
        ((codes "maxBaseLots", amount size) ∷ []) (health ++ recovery_metas A vault false)

  unfoldable pub finish_unwind : VaultState K → Named K → List (AccountMeta K) → Result (Call K)
  unfolding flow_call
  finish_unwind state accounts health =
      flow_call A vault (codes "finishUnwind") state accounts [] []
        (health ++ recovery_metas A vault false)

  abbrev pub abort_unwind : K → Call K
  abort_unwind admin = record {
    name = codes "abortUnwind";
    accounts = (codes "vault", vault) ∷ (codes "admin", admin) ∷ [];
    args = [];
    remaining = recovery_metas A vault true;
  }

  unfoldable pub extend_partial_unwind :
      VaultState K → Named K → List (AccountMeta K) → Number → Result (Call K)
  unfolding flow_call uint_number
  extend_partial_unwind state accounts health reduction_bps = do
    throw_if (not (in_bounds 5000 10000 reduction_bps))
        "Invalid reduction: extendPartialUnwindV2 takes 5000 to 10000 bps"
    require_v4 A vault state
    n ← uint_number reduction_bps 16
    queues ← with_event_queues health
    flow_call A vault (codes "extendPartialUnwindV2") state accounts []
        ((codes "reductionBps", amount n) ∷ []) (queues ++ recovery_metas A vault true)
