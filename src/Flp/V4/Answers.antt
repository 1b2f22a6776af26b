-- ===== src/Flp/V4/Answers.antt =====
-- A request to the client of src/flp/v4.ts that brings what it must is answered.
use fermi_v1_sdk.Base.{
  ℕ, ℤ, pos, negsuc, ◌≡◌, refl, arith, Bool, true, false, List, [], ◌∷◌, ◌++◌, Option, none, some,
  Result, ok, err, ◌>>=◌, Text, codes, IsOk, Bool-cases, inl, inr,
}
use fermi_v1_sdk.Intents.Accounts.{AccountMeta}
use fermi_v1_sdk.Flp.V4.{
  Addresses, VaultState, Named, Arg, amount, Step, vault_call, uint, init_depositor, user_accounts,
  user_call, prepared_user, preparation, require_v4, share_account, DepositRecord, deposits_held,
}
use fermi_v1_sdk.Flp.V4.Users.{
  push_keys, request_deposit_instructions, pre_deposit_instructions, pre_withdraw_instructions,
  terminal_redeem_instructions, permissioned_deposit_instructions, request_withdraw_instructions,
  cancel_deposit_instructions, cancel_withdraw_instructions, claim_pre_deposit_instructions,
  claim_deposit_instructions, held_record, refund_pending_deposit_instructions,
  settle_deposit_instructions, claim_withdrawal_instructions, permissioned_withdraw_instructions,
}
use fermi_v1_sdk.Flp.V4.Inputs.{U64, Inputs}
use fermi_v1_sdk.Flp.V4.Requests.{
  Request, request_deposit, pre_deposit, pre_withdraw, terminal_redeem, permissioned_deposit,
  request_withdraw, cancel_deposit, cancel_withdraw, claim_pre_deposit, claim_deposit,
  refund_pending_deposit, settle_deposit, claim_withdrawal, permissioned_withdraw, perform,
}

uint-IsOk : (z : ℤ) → U64 z → IsOk (uint z 64)
unfolding uint
uint-IsOk (pos m) (n, e, b) = (m, ground arith)
uint-IsOk (negsuc m) (n, e, b) = absurd cc

bind-IsOk :
    {X Y : Type 0} (m : Result X) (f : X → Result Y)
    → IsOk m
    → ((x : X) → IsOk (f x))
    → IsOk (m >>= f)
bind-IsOk (ok x) f h k = k x
bind-IsOk (err e) f (x, h) k = absurd cc

module _ {K : Type 0} (A : Addresses K) (vault : K) (state : VaultState K) (user payer : K) where
  user_call-IsOk :
      (name : Text) (args : Result (List (Text × Arg K))) (extra : Named K)
      (metas : List (AccountMeta K))
      → state.version ≡ 4
      → IsOk args
      → IsOk (user_call A vault name state user args extra metas)
  unfolding user_call user_accounts require_v4
  user_call-IsOk name args extra metas v (a, e) = rw (v, e) (_, refl)

  prepared_user-IsOk :
      (name : Text) (args : List (Text × Arg K)) (extra : Named K) (share_ata quote_ata : Bool)
      → state.version ≡ 4
      → IsOk (prepared_user A vault name state user args extra payer share_ata quote_ata)
  unfolding prepared_user
  prepared_user-IsOk name args extra share_ata quote_ata v =
      bind-IsOk (user_call A vault name state user (ok args) extra [])
        (λ last. ok (preparation A vault state user payer share_ata quote_ata ++ last ∷ []))
        (user_call-IsOk name (ok args) extra [] v (args, refl)) (λ last. (_, refl))

  one-IsOk :
      (z : ℤ) (name call : Text) (share_ata quote_ata : Bool)
      → state.version ≡ 4
      → U64 z
      → IsOk (
          uint z 64 >>= λ n.
          prepared_user A vault call state user
            ((name, amount n) ∷ [])
            []
            payer
            share_ata
            quote_ata)
  one-IsOk z name call share_ata quote_ata v u =
      bind-IsOk (uint z 64)
        (λ n.
          prepared_user A vault call state user ((name, amount n) ∷ []) [] payer share_ata
            quote_ata)
        (uint-IsOk z u)
        (λ n. prepared_user-IsOk call ((name, amount n) ∷ []) [] share_ata quote_ata v)

  epoch-IsOk :
      (z : ℤ) (call : Text) (share_ata quote_ata : Bool)
      → state.version ≡ 4
      → U64 z
      → IsOk (
          uint z 64 >>= λ e.
          prepared_user A vault call state user []
            ((codes "epochRecord", A.epoch_record vault e) ∷ [])
            payer
            share_ata
            quote_ata)
  epoch-IsOk z call share_ata quote_ata v u =
      bind-IsOk (uint z 64)
        (λ e.
          prepared_user A vault call state user []
            ((codes "epochRecord", A.epoch_record vault e) ∷ []) payer share_ata quote_ata)
        (uint-IsOk z u)
        (λ e.
          prepared_user-IsOk call [] ((codes "epochRecord", A.epoch_record vault e) ∷ []) share_ata
            quote_ata v)

  -- A list of instructions that ends with a call made from the user's accounts
  call-IsOk :
      (name : Text) (args : Result (List (Text × Arg K))) (extra : Named K)
      (metas : List (AccountMeta K)) (list : Step K → List (Step K))
      → state.version ≡ 4
      → IsOk args
      → IsOk (user_call A vault name state user args extra metas >>= λ call. ok (list call))
  call-IsOk name args extra metas list v a =
      bind-IsOk (user_call A vault name state user args extra metas) (λ call. ok (list call))
        (user_call-IsOk name args extra metas v a) (λ call. (_, refl))

  args-IsOk :
      (z : ℤ) (name : Text)
      → U64 z
      → IsOk {A = List (Text × Arg K)} (uint z 64 >>= λ n. ok ((name, amount n) ∷ []))
  args-IsOk z name u =
      bind-IsOk (uint z 64) (λ n. ok ((name, amount n) ∷ [])) (uint-IsOk z u) (λ n. (_, refl))

  both-IsOk :
      {Y : Type 0} (z y : ℤ) (f : ℕ → ℕ → Result Y)
      → U64 z
      → U64 y
      → ((n m : ℕ) → IsOk (f n m))
      → IsOk (uint z 64 >>= λ n. uint y 64 >>= λ m. f n m)
  both-IsOk z y f u w k =
      bind-IsOk (uint z 64) (λ n. uint y 64 >>= λ m. f n m) (uint-IsOk z u)
        (λ n. bind-IsOk (uint y 64) (f n) (uint-IsOk y w) (k n))

  claim_deposit-IsOk :
      (epoch : ℤ)
      → state.version ≡ 4
      → U64 epoch
      → IsOk (claim_deposit_instructions A vault state user epoch payer)
  unfolding claim_deposit_instructions
  claim_deposit-IsOk epoch v u = epoch-IsOk epoch (codes "claimDeposit") true false v u

  refund-IsOk :
      (epoch : Option ℤ)
      → state.version ≡ 4
      → Inputs A vault state user payer (refund_pending_deposit epoch)
      → IsOk (refund_pending_deposit_instructions A vault state user epoch payer)
  unfolding refund_pending_deposit_instructions held_record
  refund-IsOk none v u =
      prepared_user-IsOk (codes "refundPendingDeposit") []
        ((codes "epochRecord", A.program_id) ∷ []) false true v
  refund-IsOk (some epoch) v u =
      bind-IsOk (held_record A vault (some epoch))
        (λ k.
          prepared_user A vault (codes "refundPendingDeposit") state user []
            ((codes "epochRecord", k) ∷ []) payer false true)
        (bind-IsOk (uint epoch 64) (λ e. ok (A.epoch_record vault e)) (uint-IsOk epoch u)
          (λ e. (_, refl)))
        (λ k.
          prepared_user-IsOk (codes "refundPendingDeposit") [] ((codes "epochRecord", k) ∷ []) false
            true v)

  settle-IsOk :
      (r : DepositRecord K)
      → state.version ≡ 4
      → Inputs A vault state user payer (settle_deposit r)
      → IsOk (settle_deposit_instructions A vault state user r payer)
  unfolding settle_deposit_instructions
  settle-IsOk r v (own, u) = elim (Bool-cases (deposits_held r)) [
    | inl t ↦ rw (own, t) (refund-IsOk (some (pos r.epoch)) v u)
    | inr f ↦ rw (own, f) (claim_deposit-IsOk (pos r.epoch) v u)
  ]

  pub perform-IsOk :
      (r : Request K)
      → state.version ≡ 4
      → Inputs A vault state user payer r
      → IsOk (perform A vault state user payer r)
  unfolding perform request_deposit_instructions pre_deposit_instructions pre_withdraw_instructions
      terminal_redeem_instructions permissioned_deposit_instructions request_withdraw_instructions
      cancel_deposit_instructions cancel_withdraw_instructions claim_pre_deposit_instructions
      claim_withdrawal_instructions permissioned_withdraw_instructions
  perform-IsOk (request_deposit n) v u =
      call-IsOk (codes "requestDeposit") (uint n 64 >>= λ a. ok ((codes "amount", amount a) ∷ []))
        [] [] (λ call. vault_call (init_depositor A vault user payer) ∷ call ∷ []) v
        (args-IsOk n (codes "amount") u)
  perform-IsOk (pre_deposit n) v u =
      call-IsOk (codes "preDepositV3") (uint n 64 >>= λ a. ok ((codes "amount", amount a) ∷ [])) []
        [] (λ call. vault_call (init_depositor A vault user payer) ∷ call ∷ []) v
        (args-IsOk n (codes "amount") u)
  perform-IsOk (pre_withdraw n) v u =
      one-IsOk n (codes "amount") (codes "preWithdrawV3") false true v u
  perform-IsOk (terminal_redeem n) v u =
      one-IsOk n (codes "shares") (codes "terminalRedeem") true true v u
  perform-IsOk (permissioned_deposit n least pricing metas) v (u, w) =
      call-IsOk (codes "permissionedDeposit")
        (uint n 64 >>= λ a. uint least 64 >>= λ l.
          ok ((codes "amount", amount a) ∷ (codes "minShares", amount l) ∷ []))
        pricing metas
        (λ call.
          vault_call (init_depositor A vault user payer)
          ∷ share_account A vault state user payer
          ∷ call
          ∷ [])
        v
        (both-IsOk n least
          (λ a l. ok ((codes "amount", amount a) ∷ (codes "minShares", amount l) ∷ [])) u w
          (λ a l. (_, refl)))
  perform-IsOk (request_withdraw n) v u =
      one-IsOk n (codes "shares") (codes "requestWithdraw") false false v u
  perform-IsOk cancel_deposit v u = prepared_user-IsOk (codes "cancelDeposit") [] [] false true v
  perform-IsOk cancel_withdraw v u = prepared_user-IsOk (codes "cancelWithdraw") [] [] true false v
  perform-IsOk claim_pre_deposit v u =
      prepared_user-IsOk (codes "claimPreDeposit") [] [] true false v
  perform-IsOk (claim_deposit epoch) v u = claim_deposit-IsOk epoch v u
  perform-IsOk (refund_pending_deposit epoch) v u = refund-IsOk epoch v u
  perform-IsOk (settle_deposit r) v u = settle-IsOk r v u
  perform-IsOk (claim_withdrawal epoch) v u =
      epoch-IsOk epoch (codes "claimWithdrawal") false true v u
  perform-IsOk (permissioned_withdraw n least pricing metas) v (u, w) =
      both-IsOk n least
        (λ s l.
          prepared_user A vault (codes "permissionedWithdraw") state user
            ((codes "shares", amount s) ∷ (codes "minQuote", amount l) ∷ []) pricing payer false
            true
          >>= λ steps. ok (push_keys metas steps))
        u w
        (λ s l.
          bind-IsOk
            (prepared_user A vault (codes "permissionedWithdraw") state user
              ((codes "shares", amount s) ∷ (codes "minQuote", amount l) ∷ []) pricing payer false
              true)
            (λ steps. ok (push_keys metas steps))
            (prepared_user-IsOk (codes "permissionedWithdraw")
              ((codes "shares", amount s) ∷ (codes "minQuote", amount l) ∷ []) pricing false true v)
            (λ steps. (_, refl)))
