-- ===== src/Flp/V4/Users.antt =====
-- src/flp/v4.ts: the calls of `instruction` for each thing that a user of a pool does. `send` of Flp.V4.Build
-- makes the instructions of them, and throws where `instruction` does.
use fermi_v1_sdk.Base.{
  ℤ, pos, Bool, true, false, not, List, [], ◌∷◌, ◌++◌, Option, none, some, Result, ok, ◌>>=◌, ◌>>◌,
  throw_if, codes, if◌then◌else◌,
}
use fermi_v1_sdk.Intents.Accounts.{AccountMeta}
use fermi_v1_sdk.Flp.V4.{
  Addresses, VaultState, Named, amount, flag, Step, vault_call, create_token_account, uint,
  DepositRecord, deposits_held, init_depositor, user_call, share_account, prepared_user,
}

-- `last.keys.push(...metas)` on the last instruction
unfoldable pub push_keys : {K : Type 0} → List (AccountMeta K) → List (Step K) → List (Step K)
push_keys metas [] = []
push_keys metas (s ∷ t ∷ rest) = s ∷ push_keys metas (t ∷ rest)
push_keys metas (vault_call c ∷ []) =
    vault_call (record c { remaining = c.remaining ++ metas }) ∷ []
push_keys metas (create_token_account payer account owner mint program ∷ []) =
    create_token_account payer account owner mint program ∷ []

-- A default parameter `payer = user` is an argument here.
module _ {K : Type 0} (A : Addresses K) (vault : K) where
  unfoldable pub request_deposit_instructions : VaultState K → K → ℤ → K → Result (List (Step K))
  unfolding user_call init_depositor
  request_deposit_instructions state user n payer = do
    call ←
        user_call A vault (codes "requestDeposit") state user
          (uint n 64 >>= λ a. ok ((codes "amount", amount a) ∷ [])) [] []
    ok (vault_call (init_depositor A vault user payer) ∷ call ∷ [])

  unfoldable pub pre_deposit_instructions : VaultState K → K → ℤ → K → Result (List (Step K))
  unfolding user_call init_depositor
  pre_deposit_instructions state user n payer = do
    call ←
        user_call A vault (codes "preDepositV3") state user
          (uint n 64 >>= λ a. ok ((codes "amount", amount a) ∷ [])) [] []
    ok (vault_call (init_depositor A vault user payer) ∷ call ∷ [])

  unfoldable pub pre_withdraw_instructions : VaultState K → K → ℤ → K → Result (List (Step K))
  unfolding prepared_user
  pre_withdraw_instructions state user n payer = do
    a ← uint n 64
    prepared_user A vault (codes "preWithdrawV3") state user ((codes "amount", amount a) ∷ []) []
        payer false true

  unfoldable pub terminal_redeem_instructions : VaultState K → K → ℤ → K → Result (List (Step K))
  unfolding prepared_user
  terminal_redeem_instructions state user shares payer = do
    s ← uint shares 64
    prepared_user A vault (codes "terminalRedeem") state user ((codes "shares", amount s) ∷ []) []
        payer true true

  unfoldable pub set_deposit_permission_instructions : K → K → Bool → K → List (Step K)
  unfolding init_depositor
  set_deposit_permission_instructions admin user approved payer =
      vault_call (init_depositor A vault user payer)
      ∷ vault_call (record {
        name = codes "setDepositPermission";
        accounts =
            (codes "vault", vault)
            ∷ (codes "admin", admin)
            ∷ (codes "user", user)
            ∷ (codes "depositor", A.depositor vault user)
            ∷ (codes "systemProgram", A.default_key)
            ∷ [];
        args = (codes "approved", flag approved) ∷ [];
        remaining = [];
      })
      ∷ []

  unfoldable pub permissioned_deposit_instructions :
      VaultState K → K → ℤ → ℤ → Named K → List (AccountMeta K) → K → Result (List (Step K))
  unfolding user_call init_depositor
  permissioned_deposit_instructions state user n min_shares pricing health_and_queues payer = do
    call ←
        user_call A vault (codes "permissionedDeposit") state user
          (uint n 64 >>= λ a. uint min_shares 64 >>= λ least.
            ok ((codes "amount", amount a) ∷ (codes "minShares", amount least) ∷ []))
          pricing health_and_queues
    ok (
        vault_call (init_depositor A vault user payer)
        ∷ share_account A vault state user payer
        ∷ call
        ∷ [])

  unfoldable pub request_withdraw_instructions : VaultState K → K → ℤ → K → Result (List (Step K))
  unfolding prepared_user
  request_withdraw_instructions state user shares payer = do
    s ← uint shares 64
    prepared_user A vault (codes "requestWithdraw") state user ((codes "shares", amount s) ∷ []) []
        payer false false

  unfoldable pub cancel_deposit_instructions : VaultState K → K → K → Result (List (Step K))
  unfolding prepared_user
  cancel_deposit_instructions state user payer =
      prepared_user A vault (codes "cancelDeposit") state user [] [] payer false true

  unfoldable pub cancel_withdraw_instructions : VaultState K → K → K → Result (List (Step K))
  unfolding prepared_user
  cancel_withdraw_instructions state user payer =
      prepared_user A vault (codes "cancelWithdraw") state user [] [] payer true false

  unfoldable pub claim_pre_deposit_instructions : VaultState K → K → K → Result (List (Step K))
  unfolding prepared_user
  claim_pre_deposit_instructions state user payer =
      prepared_user A vault (codes "claimPreDeposit") state user [] [] payer true false

  unfoldable pub claim_deposit_instructions : VaultState K → K → ℤ → K → Result (List (Step K))
  unfolding prepared_user
  claim_deposit_instructions state user epoch payer = do
    e ← uint epoch 64
    prepared_user A vault (codes "claimDeposit") state user []
        ((codes "epochRecord", A.epoch_record vault e) ∷ []) payer true false

  -- `epoch === undefined ? this.programId : deriveEpoch(..., uint(epoch, 64))`
  unfoldable pub held_record : Option ℤ → Result K
  held_record none = ok A.program_id
  held_record (some epoch) = uint epoch 64 >>= λ e. ok (A.epoch_record vault e)

  unfoldable pub refund_pending_deposit_instructions :
      VaultState K → K → Option ℤ → K → Result (List (Step K))
  unfolding prepared_user held_record
  refund_pending_deposit_instructions state user epoch payer = do
    r ← held_record epoch
    prepared_user A vault (codes "refundPendingDeposit") state user []
        ((codes "epochRecord", r) ∷ []) payer false true

  unfoldable pub settle_deposit_instructions :
      VaultState K → K → DepositRecord K → K → Result (List (Step K))
  unfolding deposits_held refund_pending_deposit_instructions claim_deposit_instructions
  settle_deposit_instructions state user r payer = do
    throw_if (not (A.equals r.vault vault)) "Epoch identity mismatch"
    if deposits_held r
        then refund_pending_deposit_instructions state user (some (pos r.epoch)) payer
        else claim_deposit_instructions state user (pos r.epoch) payer

  unfoldable pub claim_withdrawal_instructions : VaultState K → K → ℤ → K → Result (List (Step K))
  unfolding prepared_user
  claim_withdrawal_instructions state user epoch payer = do
    e ← uint epoch 64
    prepared_user A vault (codes "claimWithdrawal") state user []
        ((codes "epochRecord", A.epoch_record vault e) ∷ []) payer false true

  unfoldable pub permissioned_withdraw_instructions :
      VaultState K → K → ℤ → ℤ → Named K → List (AccountMeta K) → K → Result (List (Step K))
  unfolding prepared_user push_keys
  permissioned_withdraw_instructions state user shares min_quote pricing health_and_queues payer =
      do
        s ← uint shares 64
        least ← uint min_quote 64
        steps ←
            prepared_user A vault (codes "permissionedWithdraw") state user
              ((codes "shares", amount s) ∷ (codes "minQuote", amount least) ∷ []) pricing payer
              false true
        ok (push_keys health_and_queues steps)
