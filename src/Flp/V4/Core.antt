-- ===== src/Flp/V4/Core.antt =====
-- src/flp/v4.ts: the instructions on a pool's account at the exchange, the breaker, and foreign tokens.
use fermi_v1_sdk.Base.{ℤ, ◌||◌, List, [], ◌∷◌, Result, ok, ◌>>=◌, ◌>>◌, throw_if, codes, ◌==◌}
use fermi_v1_sdk.Intents.Accounts.{AccountMeta}
use fermi_v1_sdk.Flp.V4.Flows.{flow_call}
use fermi_v1_sdk.Flp.V4.Admin.{core_call}
use fermi_v1_sdk.Flp.V4.{
  Addresses, VaultState, Named, amount, Call, Step, vault_call, create_token_account, uint,
}

module _ {K : Type 0} (A : Addresses K) (vault : K) where
  unfoldable pub activate_delegate : VaultState K → K → K → Result (Call K)
  unfolding core_call
  activate_delegate state signer core_program =
      core_call A vault (codes "activateDelegate") state core_program (codes "signer") signer []

  unfoldable pub remove_delegate : VaultState K → K → K → Result (Call K)
  unfolding core_call
  remove_delegate state signer core_program =
      core_call A vault (codes "removeDelegate") state core_program (codes "signer") signer []

  unfoldable pub cancel_orders : VaultState K → K → K → List (AccountMeta K) → Result (Call K)
  unfolding core_call
  cancel_orders state signer core_program markets =
      core_call A vault (codes "cancelOrders") state core_program (codes "signer") signer markets

  unfoldable pub deactivate_perp_position : VaultState K → K → K → Result (Call K)
  unfolding core_call
  deactivate_perp_position state core_program perp_market =
      core_call A vault (codes "deactivatePerpPosition") state core_program (codes "perpMarket")
        perp_market []

  unfoldable pub check_breaker : VaultState K → Named K → List (AccountMeta K) → Result (Call K)
  unfolding flow_call
  check_breaker state accounts health_and_queues =
      flow_call A vault (codes "checkBreaker") state accounts [] [] health_and_queues

  unfoldable pub reset_breaker : VaultState K → K → Named K → List (AccountMeta K) → Result (Call K)
  unfolding flow_call
  reset_breaker state admin accounts health_and_queues =
      flow_call A vault (codes "resetBreaker") state accounts ((codes "admin", admin) ∷ []) []
        health_and_queues

  -- `requireForeignMint`
  abbrev pub require_foreign_mint : VaultState K → K → Result (Unit {0})
  require_foreign_mint state mint =
      throw_if (A.equals mint state.quote_mint || A.equals mint state.share_mint)
        "Expected a foreign mint"

  -- A token account of `owner` for the mint, created by the administrator.
  abbrev pub create_for : K → K → K → Step K
  create_for admin owner mint =
      create_token_account admin (A.token_account mint owner A.token_program) owner mint
        A.token_program

  unfoldable pub rescue_foreign_token_instructions :
      VaultState K → K → K → ℤ → Result (List (Step K))
  unfolding uint
  rescue_foreign_token_instructions state admin mint n = do
    require_foreign_mint state mint
    quantity ← uint n 64
    throw_if (quantity == 0) "Rescue amount must be positive"
    ok (
        create_for admin admin mint
        ∷ vault_call (record {
          name = codes "rescueForeignToken";
          accounts =
              (codes "vault", vault)
              ∷ (codes "authority", A.authority vault)
              ∷ (codes "admin", admin)
              ∷ (codes "mint", mint)
              ∷ (codes "source", A.token_account mint (A.authority vault) A.token_program)
              ∷ (codes "destination", A.token_account mint admin A.token_program)
              ∷ (codes "tokenProgram", A.token_program)
              ∷ [];
          args = (codes "amount", amount quantity) ∷ [];
          remaining = [];
        })
        ∷ [])

  unfoldable pub clear_foreign_core_token_instructions :
      VaultState K → K → K → K → K → K → K → List (AccountMeta K) → Result (List (Step K))
  clear_foreign_core_token_instructions state admin core_program mint bank bank_vault oracle
        health =
      do
        require_foreign_mint state mint
        ok (
            create_for admin (A.authority vault) mint
            ∷ vault_call (record {
              name = codes "clearForeignCoreToken";
              accounts =
                  (codes "vault", vault)
                  ∷ (codes "authority", A.authority vault)
                  ∷ (codes "admin", admin)
                  ∷ (codes "mint", mint)
                  ∷ (codes "bank", bank)
                  ∷ (codes "bankVault", bank_vault)
                  ∷ (codes "oracle", oracle)
                  ∷ (codes "destination", A.token_account mint (A.authority vault) A.token_program)
                  ∷ (codes "fermi.group", state.group)
                  ∷ (codes "fermi.fermiAccount", state.fermi_account)
                  ∷ (codes "fermi.fermiProgram", core_program)
                  ∷ (codes "tokenProgram", A.token_program)
                  ∷ [];
              args = [];
              remaining = health;
            })
            ∷ [])
