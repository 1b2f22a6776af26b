-- ===== src/Flp/V4/Inputs.antt =====
-- What a request to the client of src/flp/v4.ts must bring.
use fermi_v1_sdk.Base.{
  ℕ, ◌^◌, ◌<◌, ℤ, pos, negsuc, ◌≡◌, refl, arith, Bool, true, false, not, List, [], ◌∷◌, Option,
  none, some, Result, ok, err, ◌>>=◌, Text, codes, if◌then◌else◌, from_bind, from_throw, IsOk,
}
use fermi_v1_sdk.Intents.Accounts.{AccountMeta}
use fermi_v1_sdk.Flp.V4.{
  Addresses, VaultState, Named, Arg, amount, Step, vault_call, uint, init_depositor, user_accounts,
  user_call, prepared_user, share_account, DepositRecord, deposits_held,
}
use fermi_v1_sdk.Flp.V4.Users.{
  request_deposit_instructions, pre_deposit_instructions, pre_withdraw_instructions,
  terminal_redeem_instructions, permissioned_deposit_instructions, request_withdraw_instructions,
  claim_deposit_instructions, held_record, refund_pending_deposit_instructions,
  settle_deposit_instructions, claim_withdrawal_instructions, permissioned_withdraw_instructions,
}
use fermi_v1_sdk.Flp.V4.Requests.{
  Request, request_deposit, pre_deposit, pre_withdraw, terminal_redeem, permissioned_deposit,
  request_withdraw, cancel_deposit, cancel_withdraw, claim_pre_deposit, claim_deposit,
  refund_pending_deposit, settle_deposit, claim_withdrawal, permissioned_withdraw, perform,
}

abbrev pub U64 : ℤ → Type 0
U64 z = (n : ℕ) × (z ≡ pos n) × (n < 2 ^ 64)

uint-U64 : (z : ℤ) {n : ℕ} → uint z 64 ≡ ok n → U64 z
unfolding uint
uint-U64 (pos m) h = (m, refl, ground arith)
uint-U64 (negsuc m) h = absurd cc

module _ {K : Type 0} (A : Addresses K) (vault : K) (state : VaultState K) (user payer : K) where
  -- What a request must bring: amounts and epochs that are u64s, and a record of this pool.
  abbrev pub Inputs : Request K → Type 0
  Inputs (request_deposit n) = U64 n
  Inputs (pre_deposit n) = U64 n
  Inputs (pre_withdraw n) = U64 n
  Inputs (terminal_redeem n) = U64 n
  Inputs (permissioned_deposit n least pricing metas) = U64 n × U64 least
  Inputs (request_withdraw n) = U64 n
  Inputs (claim_deposit epoch) = U64 epoch
  Inputs (refund_pending_deposit none) = Unit
  Inputs (refund_pending_deposit (some epoch)) = U64 epoch
  Inputs (settle_deposit r) = (A.equals r.vault vault ≡ true) × U64 (pos r.epoch)
  Inputs (claim_withdrawal epoch) = U64 epoch
  Inputs (permissioned_withdraw n least pricing metas) = U64 n × U64 least
  Inputs cancel_deposit = Unit
  Inputs cancel_withdraw = Unit
  Inputs claim_pre_deposit = Unit

  first_ok : {Y : Type 0} (z : ℤ) (f : ℕ → Result Y) {y : Y} → (uint z 64 >>= f) ≡ ok y → U64 z
  first_ok z f h = from_bind (uint z 64) f h λ n u e. uint-U64 z u

  both_ok :
      {Y : Type 0} (z y : ℤ) (f : ℕ → ℕ → Result Y) {v : Y}
      → (uint z 64 >>= λ n. uint y 64 >>= λ m. f n m) ≡ ok v
      → U64 z × U64 y
  both_ok z y f h =
      from_bind (uint z 64) (λ n. uint y 64 >>= λ m. f n m) h
        λ n u e. (uint-U64 z u, first_ok y (f n) e)

  -- The arguments of a call that was built
  args_ok :
      (name : Text) (args : Result (List (Text × Arg K))) (extra : Named K)
      (metas : List (AccountMeta K)) (list : Step K → List (Step K)) {steps : List (Step K)}
      → (user_call A vault name state user args extra metas >>= λ call. ok (list call)) ≡ ok steps
      → IsOk args
  unfolding user_call
  args_ok name (ok a) extra metas list h = (a, refl)
  args_ok name (err e) extra metas list h =
      from_bind (user_call A vault name state user (err e) extra metas) (λ call. ok (list call)) h
        λ call c s.
          from_bind (user_accounts A vault state user) (λ own. err e) c λ own o c₂. absurd cc

  claim-Inputs :
      (epoch : ℤ) {steps : List (Step K)}
      → claim_deposit_instructions A vault state user epoch payer ≡ ok steps
      → U64 epoch
  unfolding claim_deposit_instructions
  claim-Inputs epoch h = first_ok epoch _ h

  refund-Inputs :
      (epoch : Option ℤ) {steps : List (Step K)}
      → refund_pending_deposit_instructions A vault state user epoch payer ≡ ok steps
      → Inputs (refund_pending_deposit epoch)
  unfolding refund_pending_deposit_instructions held_record
  refund-Inputs none h = tt
  refund-Inputs (some epoch) h =
      from_bind (held_record A vault (some epoch)) _ h λ k u e. first_ok epoch _ u

  settle-Inputs :
      (r : DepositRecord K) {steps : List (Step K)}
      → settle_deposit_instructions A vault state user r payer ≡ ok steps
      → Inputs (settle_deposit r)
  unfolding settle_deposit_instructions
  settle-Inputs r {steps} h =
      from_throw (not (A.equals r.vault vault)) "Epoch identity mismatch"
        (settled (deposits_held r)) h λ own e. (ground arith, chosen (deposits_held r) e)
    where
      settled : Bool → Result (List (Step K))
      settled held =
          if held
          then refund_pending_deposit_instructions A vault state user (some (pos r.epoch)) payer
          else claim_deposit_instructions A vault state user (pos r.epoch) payer

      chosen : (held : Bool) → settled held ≡ ok steps → U64 (pos r.epoch)
      chosen true e = refund-Inputs (some (pos r.epoch)) e
      chosen false e = claim-Inputs (pos r.epoch) e

  pub perform-Inputs :
      (r : Request K) {steps : List (Step K)}
      → perform A vault state user payer r ≡ ok steps
      → Inputs r
  unfolding perform request_deposit_instructions pre_deposit_instructions pre_withdraw_instructions
      terminal_redeem_instructions permissioned_deposit_instructions request_withdraw_instructions
      claim_withdrawal_instructions permissioned_withdraw_instructions
  perform-Inputs (request_deposit n) h =
      let (a, e) =
        args_ok (codes "requestDeposit") (uint n 64 >>= λ a. ok ((codes "amount", amount a) ∷ []))
          [] [] (λ call. vault_call (init_depositor A vault user payer) ∷ call ∷ []) h in
      first_ok n (λ a. ok ((codes "amount", amount a) ∷ [])) e
  perform-Inputs (pre_deposit n) h =
      let (a, e) =
        args_ok (codes "preDepositV3") (uint n 64 >>= λ a. ok ((codes "amount", amount a) ∷ [])) []
          [] (λ call. vault_call (init_depositor A vault user payer) ∷ call ∷ []) h in
      first_ok n (λ a. ok ((codes "amount", amount a) ∷ [])) e
  perform-Inputs (pre_withdraw n) h =
      first_ok n
        (λ a.
          prepared_user A vault (codes "preWithdrawV3") state user ((codes "amount", amount a) ∷ [])
            [] payer false true)
        h
  perform-Inputs (terminal_redeem n) h = first_ok n _ h
  perform-Inputs (permissioned_deposit n least pricing metas) h =
      let (a, e) =
        args_ok (codes "permissionedDeposit")
          (uint n 64 >>= λ a. uint least 64 >>= λ l.
            ok ((codes "amount", amount a) ∷ (codes "minShares", amount l) ∷ []))
          pricing metas
          (λ call.
            vault_call (init_depositor A vault user payer)
            ∷ share_account A vault state user payer
            ∷ call
            ∷ [])
          h in
      both_ok n least (λ a l. ok ((codes "amount", amount a) ∷ (codes "minShares", amount l) ∷ []))
        e
  perform-Inputs (request_withdraw n) h = first_ok n _ h
  perform-Inputs cancel_deposit h = tt
  perform-Inputs cancel_withdraw h = tt
  perform-Inputs claim_pre_deposit h = tt
  perform-Inputs (claim_deposit epoch) h = claim-Inputs epoch h
  perform-Inputs (refund_pending_deposit epoch) h = refund-Inputs epoch h
  perform-Inputs (settle_deposit r) h = settle-Inputs r h
  perform-Inputs (claim_withdrawal epoch) h = first_ok epoch _ h
  perform-Inputs (permissioned_withdraw n least pricing metas) h = both_ok n least _ h
