-- ===== src/Flp/V4/Flows.antt =====
-- src/flp/v4.ts: the accounts that the instructions of a pool share.
use fermi_v1_sdk.Base.{
  ℕ, Bool, true, false, List, [], ◌∷◌, ◌++◌, Result, ok, ◌>>=◌, ◌>>◌, Text, codes, if◌then◌else◌,
  leb, ◌&&◌, ◌==◌, ◌||◌, Number, whole, pos,
}
use fermi_v1_sdk.Intents.Accounts.{AccountMeta}
use fermi_v1_sdk.Flp.Vaults.{none_epoch}
use fermi_v1_sdk.Flp.Vaults.Gates.{has, unwind_flag, closed_flag}
use fermi_v1_sdk.Flp.V4.{Addresses, VaultState, Named, Arg, Call, require_v4}

abbrev pub writable_meta : {K : Type 0} → K → AccountMeta K
writable_meta k = record { pubkey = k; is_signer = false; is_writable = true }

-- An integer from `lo` to `hi`
abbrev pub in_bounds : ℕ → ℕ → Number → Bool
in_bounds lo hi (whole (pos n)) = leb lo n && leb n hi
in_bounds lo hi _ = false

-- `status & (STATUS.unwind | STATUS.closed)`
abbrev pub recovering_or_closed : ℕ → Bool
recovering_or_closed status = has status unwind_flag || has status closed_flag

module _ {K : Type 0} (A : Addresses K) (vault : K) where
  abbrev pub recovery_metas : Bool → List (AccountMeta K)
  recovery_metas writable =
      record { pubkey = A.recovery_targets vault; is_signer = false; is_writable = writable } ∷ []

  abbrev pub record_or_none : ℕ → K
  record_or_none epoch = if epoch == none_epoch then A.program_id else A.epoch_record vault epoch

  unfoldable pub flow_accounts : VaultState K → Named K → Result (Named K)
  unfolding require_v4
  flow_accounts state accounts =
      require_v4 A vault state
      >> ok (
          accounts
          ++ ((codes "vault", vault)
              ∷ (codes "authority", A.authority vault)
              ∷ (codes "fundingWindow", A.funding_window vault)
              ∷ (codes "headRecord", record_or_none state.deferred_head)
              ∷ (codes "shareMint", state.share_mint)
              ∷ (codes "depositEscrow", state.deposit_escrow)
              ∷ (codes "redemptionEscrow", state.redemption_escrow)
              ∷ (codes "token2022Program", A.token_2022_program)
              ∷ (codes "systemProgram", A.default_key)
              ∷ []))

  -- A call whose accounts are those of a flow, with those of `over` put last.
  unfoldable pub flow_call :
      Text
      → VaultState K
      → Named K
      → Named K
      → List (Text × Arg K)
      → List (AccountMeta K)
      → Result (Call K)
  unfolding flow_accounts
  flow_call name state accounts over args remaining = flow_accounts state accounts >>= λ own.
      ok (record { name = name; accounts = own ++ over; args = args; remaining = remaining })

  unfoldable pub core_accounts : VaultState K → K → Result (Named K)
  unfolding require_v4
  core_accounts state core_program =
      require_v4 A vault state
      >> ok (
          (codes "vault", vault)
          ∷ (codes "authority", A.authority vault)
          ∷ (codes "fermi.group", state.group)
          ∷ (codes "fermi.fermiAccount", state.fermi_account)
          ∷ (codes "fermi.fermiProgram", core_program)
          ∷ [])
