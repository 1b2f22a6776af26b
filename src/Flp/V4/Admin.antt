-- ===== src/Flp/V4/Admin.antt =====
-- src/flp/v4.ts: the instructions of a pool's administrator and of its roles.
use fermi_v1_sdk.Base.{
  ℕ, ℤ, true, false, not, List, [], ◌∷◌, ◌++◌, Result, ok, ◌>>=◌, ◌>>◌, throw_if, Text, codes,
  Number,
}
use fermi_v1_sdk.Intents.Accounts.{AccountMeta}
use fermi_v1_sdk.Flp.V4.Flows.{recovering_or_closed, core_accounts}
use fermi_v1_sdk.Flp.V4.{
  Addresses, VaultState, Named, Arg, amount, key, fields, Call, uint, uint_number, capacity,
  require_v4,
}

-- What `deriveVaultAddresses` gives for a group and a number
pub record VaultAddresses (K : Type 0) : Type 0 where
  pub vault : K
  pub authority : K
  pub share_mint : K
  pub deposit_escrow : K
  pub redemption_escrow : K

abbrev vault_entries : {K : Type 0} → VaultAddresses K → Named K
vault_entries d =
    (codes "vault", d.vault)
    ∷ (codes "authority", d.authority)
    ∷ (codes "shareMint", d.share_mint)
    ∷ (codes "depositEscrow", d.deposit_escrow)
    ∷ (codes "redemptionEscrow", d.redemption_escrow)
    ∷ []

abbrev pub call_with : {K : Type 0} → Text → Named K → List (Text × Arg K) → Call K
call_with name accounts args = record {
  name = name;
  accounts = accounts;
  args = args;
  remaining = [];
}

module _ {K : Type 0} (A : Addresses K) where
  -- `rent` is the key of the rent account.
  unfoldable pub initialize_vault :
      (K → ℕ → VaultAddresses K)
      → K
      → Number
      → K
      → K
      → K
      → K
      → List (Text × ℕ)
      → K
      → K
      → Result (Call K)
  unfolding uint_number
  initialize_vault derive rent vault_id group admin quote_bank quote_mint params guardian
        fee_recipient =
      do
        n ← uint_number vault_id 16
        ok (
            call_with (codes "initializeVaultV4")
              (vault_entries (derive group n)
                ++ ((codes "group", group)
                    ∷ (codes "admin", admin)
                    ∷ (codes "quoteBank", quote_bank)
                    ∷ (codes "quoteMint", quote_mint)
                    ∷ (codes "fundingWindow", A.funding_window (derive group n).vault)
                    ∷ (codes "tokenProgram", A.token_program)
                    ∷ (codes "token2022Program", A.token_2022_program)
                    ∷ (codes "systemProgram", A.default_key)
                    ∷ (codes "rent", rent)
                    ∷ []))
              ((codes "vaultId", amount n)
                ∷ (codes "params", fields params)
                ∷ (codes "guardian", key guardian)
                ∷ (codes "feeRecipient", key fee_recipient)
                ∷ []))

module _ {K : Type 0} (A : Addresses K) (vault : K) where
  unfoldable pub seed_vault : VaultState K → Named K → ℤ → List (AccountMeta K) → Result (Call K)
  unfolding require_v4
  seed_vault state accounts n health = do
    require_v4 A vault state
    a ← uint n 64
    ok (record {
      name = codes "seedVaultV4";
      accounts =
          accounts
          ++ ((codes "vault", vault)
              ∷ (codes "authority", A.authority vault)
              ∷ (codes "quoteMint", state.quote_mint)
              ∷ (codes "shareMint", state.share_mint)
              ∷ (codes "token2022Program", A.token_2022_program)
              ∷ (codes "associatedTokenProgram", A.associated_token_program)
              ∷ (codes "systemProgram", A.default_key)
              ∷ []);
      args = (codes "amount", amount a) ∷ [];
      remaining = health;
    })

  unfoldable pub init_fermi_account : VaultState K → K → K → Number → Number → Result (Call K)
  unfolding require_v4 capacity
  init_fermi_account state admin core_program perps orders = do
    require_v4 A vault state
    (p, o) ← capacity perps orders true
    throw_if (not (A.equals state.fermi_account A.default_key))
        "The vault already has its FermiAccount"
    ok (
        call_with (codes "initFermiAccountV4")
          ((codes "vault", vault)
            ∷ (codes "authority", A.authority vault)
            ∷ (codes "admin", admin)
            ∷ (codes "fermi.group", state.group)
            ∷ (
              codes "fermi.fermiAccount",
              A.fermi_account core_program state.group (A.authority vault) state.vault_id,
            )
            ∷ (codes "fermi.fermiProgram", core_program)
            ∷ (codes "recoveryTargets", A.recovery_targets vault)
            ∷ (codes "systemProgram", A.default_key)
            ∷ [])
          ((codes "perpCount", amount p)
            ∷ (codes "perpOoCount", amount o)
            ∷ (codes "tokenCount", amount 1)
            ∷ []))

  unfoldable pub expand_market_capacity : VaultState K → K → K → Number → Number → Result (Call K)
  unfolding require_v4 capacity
  expand_market_capacity state admin core_program perps orders = do
    require_v4 A vault state
    (p, o) ← capacity perps orders false
    throw_if (recovering_or_closed state.status)
        "Capacity cannot grow during recovery or after closure"
    ok (
        call_with (codes "expandMarketCapacity")
          ((codes "vault", vault)
            ∷ (codes "authority", A.authority vault)
            ∷ (codes "admin", admin)
            ∷ (codes "fermi.group", state.group)
            ∷ (codes "fermi.fermiAccount", state.fermi_account)
            ∷ (codes "fermi.fermiProgram", core_program)
            ∷ (codes "recoveryTargets", A.recovery_targets vault)
            ∷ (codes "systemProgram", A.default_key)
            ∷ [])
          ((codes "perpCount", amount p) ∷ (codes "perpOoCount", amount o) ∷ []))

  unfoldable pub graduate : VaultState K → K → Named K → List (AccountMeta K) → Result (Call K)
  unfolding require_v4
  graduate state admin pricing health_and_queues =
      require_v4 A vault state
      >> ok (record {
        name = codes "graduate";
        accounts =
            pricing
            ++ ((codes "vault", vault)
                ∷ (codes "admin", admin)
                ∷ (codes "depositEscrow", state.deposit_escrow)
                ∷ []);
        args = [];
        remaining = health_and_queues;
      })

  unfoldable pub set_status : K → Number → Number → Result (Call K)
  unfolding uint_number
  set_status signer set_flags clear_flags = do
    s ← uint_number set_flags 8
    c ← uint_number clear_flags 8
    ok (
        call_with (codes "setStatus") ((codes "vault", vault) ∷ (codes "signer", signer) ∷ [])
          ((codes "setFlags", amount s) ∷ (codes "clearFlags", amount c) ∷ []))

  abbrev pub admin_call : Text → K → List (Text × Arg K) → Call K
  admin_call name admin args =
      call_with name ((codes "vault", vault) ∷ (codes "admin", admin) ∷ []) args

  abbrev pub stage_params : K → List (Text × ℕ) → Call K
  stage_params admin params =
      admin_call (codes "stageParamsV3") admin ((codes "params", fields params) ∷ [])

  abbrev pub apply_params : K → Call K
  apply_params admin = admin_call (codes "applyParams") admin []

  abbrev pub stage_recovery_params : K → List (Text × ℕ) → Call K
  stage_recovery_params admin params =
      admin_call (codes "stageRecoveryParams") admin ((codes "params", fields params) ∷ [])

  abbrev pub apply_recovery_params : K → Call K
  apply_recovery_params admin = admin_call (codes "applyRecoveryParams") admin []

  abbrev pub set_roles : K → K → K → Call K
  set_roles admin guardian fee_recipient =
      admin_call (codes "setRoles") admin
        ((codes "guardian", key guardian) ∷ (codes "feeRecipient", key fee_recipient) ∷ [])

  abbrev pub propose_admin : K → K → Call K
  propose_admin admin new_admin =
      admin_call (codes "proposeAdmin") admin ((codes "newAdmin", key new_admin) ∷ [])

  abbrev pub accept_admin : K → Call K
  accept_admin new_admin =
      call_with (codes "acceptAdmin") ((codes "vault", vault) ∷ (codes "newAdmin", new_admin) ∷ [])
        []

  abbrev pub propose_delegate : K → K → Call K
  propose_delegate admin delegate =
      admin_call (codes "proposeDelegate") admin ((codes "delegate", key delegate) ∷ [])

  -- A call on the pool's account at the exchange, with one more account and the markets behind.
  unfoldable pub core_call :
      Text → VaultState K → K → Text → K → List (AccountMeta K) → Result (Call K)
  unfolding core_accounts
  core_call name state core_program role k metas =
      core_accounts A vault state core_program >>= λ own.
      ok (record { name = name; accounts = own ++ (role, k) ∷ []; args = []; remaining = metas })
