-- ===== src/Flp/V4/Requests.antt =====
-- Every request of a pool's user to the client of src/flp/v4.ts, and what its instructions have in common.
use fermi_v1_sdk.Base.{
  ◌==◌, ◌&&◌, ℕ, ℤ, pos, ◌≡◌, refl, Bool, true, false, not, List, [], ◌∷◌, Option, some, Result, ok,
  ◌>>=◌, Text, codes, if◌then◌else◌, from_bind, from_throw, ok_injective, subst,
}
use fermi_v1_sdk.Intents.Accounts.{AccountMeta}
use fermi_v1_sdk.Flp.V4.{
  Addresses, VaultState, Named, Arg, amount, Step, uint, prepared_user, share_account,
  DepositRecord, deposits_held,
}
use fermi_v1_sdk.Flp.V4.Users.{
  push_keys, request_deposit_instructions, pre_deposit_instructions, pre_withdraw_instructions,
  terminal_redeem_instructions, permissioned_deposit_instructions, request_withdraw_instructions,
  cancel_deposit_instructions, cancel_withdraw_instructions, claim_pre_deposit_instructions,
  claim_deposit_instructions, held_record, refund_pending_deposit_instructions,
  settle_deposit_instructions, claim_withdrawal_instructions, permissioned_withdraw_instructions,
}
use fermi_v1_sdk.Flp.V4.Prepared.{
  Prepared, U64Args, uint-bound, user_call-Prepared, prepared_user-Prepared, push_keys-Prepared,
}

pub data Request (K : Type 0) : Type 0 where
  request_deposit : ℤ → Request K
  pre_deposit : ℤ → Request K
  pre_withdraw : ℤ → Request K
  terminal_redeem : ℤ → Request K
  permissioned_deposit : (n min_shares : ℤ) → Named K → List (AccountMeta K) → Request K
  request_withdraw : ℤ → Request K
  cancel_deposit : Request K
  cancel_withdraw : Request K
  claim_pre_deposit : Request K
  claim_deposit : (epoch : ℤ) → Request K
  refund_pending_deposit : (epoch : Option ℤ) → Request K
  settle_deposit : DepositRecord K → Request K
  claim_withdrawal : (epoch : ℤ) → Request K
  permissioned_withdraw : (shares min_quote : ℤ) → Named K → List (AccountMeta K) → Request K

-- The program's name for what a request asks. A record to settle is refunded if its deposits were held,
-- that is, if it has deposits and priced none.
abbrev pub called : {K : Type 0} → Request K → Text
called (request_deposit n) = codes "requestDeposit"
called (pre_deposit n) = codes "preDepositV3"
called (pre_withdraw n) = codes "preWithdrawV3"
called (terminal_redeem n) = codes "terminalRedeem"
called (permissioned_deposit n least pricing metas) = codes "permissionedDeposit"
called (request_withdraw n) = codes "requestWithdraw"
called cancel_deposit = codes "cancelDeposit"
called cancel_withdraw = codes "cancelWithdraw"
called claim_pre_deposit = codes "claimPreDeposit"
called (claim_deposit epoch) = codes "claimDeposit"
called (refund_pending_deposit epoch) = codes "refundPendingDeposit"
called (settle_deposit r) =
    if r.dep_den == 0 && not (r.dep_gross == 0)
    then codes "refundPendingDeposit"
    else codes "claimDeposit"
called (claim_withdrawal epoch) = codes "claimWithdrawal"
called (permissioned_withdraw n least pricing metas) = codes "permissionedWithdraw"

module _ {K : Type 0} (A : Addresses K) (vault : K) (state : VaultState K) (user payer : K) where
  unfoldable pub perform : Request K → Result (List (Step K))
  perform (request_deposit n) = request_deposit_instructions A vault state user n payer
  perform (pre_deposit n) = pre_deposit_instructions A vault state user n payer
  perform (pre_withdraw n) = pre_withdraw_instructions A vault state user n payer
  perform (terminal_redeem n) = terminal_redeem_instructions A vault state user n payer
  perform (permissioned_deposit n least pricing metas) =
      permissioned_deposit_instructions A vault state user n least pricing metas payer
  perform (request_withdraw n) = request_withdraw_instructions A vault state user n payer
  perform cancel_deposit = cancel_deposit_instructions A vault state user payer
  perform cancel_withdraw = cancel_withdraw_instructions A vault state user payer
  perform claim_pre_deposit = claim_pre_deposit_instructions A vault state user payer
  perform (claim_deposit epoch) = claim_deposit_instructions A vault state user epoch payer
  perform (refund_pending_deposit epoch) =
      refund_pending_deposit_instructions A vault state user epoch payer
  perform (settle_deposit r) = settle_deposit_instructions A vault state user r payer
  perform (claim_withdrawal epoch) = claim_withdrawal_instructions A vault state user epoch payer
  perform (permissioned_withdraw n least pricing metas) =
      permissioned_withdraw_instructions A vault state user n least pricing metas payer

  one_amount :
      (name : Text) (z : ℤ) (args : List (Text × Arg K))
      → (uint z 64 >>= λ n. ok ((name, amount n) ∷ [])) ≡ ok args
      → U64Args args
  one_amount name z args h =
      from_bind (uint z 64) (λ n. ok ((name, amount n) ∷ [])) h
        λ n u e. subst U64Args (ok_injective e) (uint-bound z 64 u, tt)

  two_amounts :
      (name other : Text) (z y : ℤ) (args : List (Text × Arg K))
      → (uint z 64 >>= λ n. uint y 64 >>= λ m. ok ((name, amount n) ∷ (other, amount m) ∷ []))
        ≡ ok args
      → U64Args args
  two_amounts name other z y args h =
      from_bind (uint z 64) (λ n. uint y 64 >>= λ m. ok ((name, amount n) ∷ (other, amount m) ∷ []))
        h
        λ n u h₂.
          from_bind (uint y 64) (λ m. ok ((name, amount n) ∷ (other, amount m) ∷ [])) h₂
            λ m v e. subst U64Args (ok_injective e) (uint-bound z 64 u, (uint-bound y 64 v, tt))

  -- A request with one amount, and one on an epoch
  amount-Prepared :
      (call name : Text) (z : ℤ) (share_ata quote_ata : Bool) {steps : List (Step K)}
      → (uint z 64 >>= λ n.
          prepared_user A vault call state user
            ((name, amount n) ∷ [])
            []
            payer
            share_ata
            quote_ata)
        ≡ ok steps
      → Prepared A vault state user payer call steps
  amount-Prepared call name z share_ata quote_ata h =
      from_bind (uint z 64)
        (λ n.
          prepared_user A vault call state user ((name, amount n) ∷ []) [] payer share_ata
            quote_ata)
        h
        λ n u e.
          prepared_user-Prepared A vault state user payer call ((name, amount n) ∷ []) [] share_ata
            quote_ata (uint-bound z 64 u, tt) e

  record-Prepared :
      {X : Type 0} (call : Text) (r : Result X) (record_of : X → K) (share_ata quote_ata : Bool)
      {steps : List (Step K)}
      → (r >>= λ x.
          prepared_user A vault call state user []
            ((codes "epochRecord", record_of x) ∷ [])
            payer
            share_ata
            quote_ata)
        ≡ ok steps
      → Prepared A vault state user payer call steps
  record-Prepared call r record_of share_ata quote_ata h =
      from_bind r
        (λ x.
          prepared_user A vault call state user [] ((codes "epochRecord", record_of x) ∷ []) payer
            share_ata quote_ata)
        h
        λ x u e.
          prepared_user-Prepared A vault state user payer call []
            ((codes "epochRecord", record_of x) ∷ []) share_ata quote_ata tt e

  claim-Prepared :
      (epoch : ℤ) {steps : List (Step K)}
      → claim_deposit_instructions A vault state user epoch payer ≡ ok steps
      → Prepared A vault state user payer (codes "claimDeposit") steps
  unfolding claim_deposit_instructions
  claim-Prepared epoch h =
      record-Prepared (codes "claimDeposit") (uint epoch 64) (λ e. A.epoch_record vault e) true
        false h

  refund-Prepared :
      (epoch : Option ℤ) {steps : List (Step K)}
      → refund_pending_deposit_instructions A vault state user epoch payer ≡ ok steps
      → Prepared A vault state user payer (codes "refundPendingDeposit") steps
  unfolding refund_pending_deposit_instructions
  refund-Prepared epoch h =
      record-Prepared (codes "refundPendingDeposit") (held_record A vault epoch) (λ k. k) false true
        h

  settle-Prepared :
      (r : DepositRecord K) {steps : List (Step K)}
      → settle_deposit_instructions A vault state user r payer ≡ ok steps
      → Prepared A vault state user payer (called (settle_deposit r)) steps
  unfolding settle_deposit_instructions deposits_held
  settle-Prepared r {steps} h =
      from_throw (not (A.equals r.vault vault)) "Epoch identity mismatch"
        (settled (deposits_held r)) h λ own e. chosen (deposits_held r) e
    where
      settled : Bool → Result (List (Step K))
      settled held =
          if held
          then refund_pending_deposit_instructions A vault state user (some (pos r.epoch)) payer
          else claim_deposit_instructions A vault state user (pos r.epoch) payer

      chosen :
          (held : Bool)
          → settled held ≡ ok steps
          → Prepared A vault state user payer
              (if held then codes "refundPendingDeposit" else codes "claimDeposit")
              steps
      chosen true e = refund-Prepared (some (pos r.epoch)) e
      chosen false e = claim-Prepared (pos r.epoch) e

  permissioned-Prepared :
      (n least : ℤ) (pricing : Named K) (metas : List (AccountMeta K)) {steps : List (Step K)}
      → permissioned_withdraw_instructions A vault state user n least pricing metas payer ≡ ok steps
      → Prepared A vault state user payer (codes "permissionedWithdraw") steps
  unfolding permissioned_withdraw_instructions
  permissioned-Prepared n least pricing metas h =
      let args : ℕ → ℕ → List (Text × Arg K) =
        λ s l. (codes "shares", amount s) ∷ (codes "minQuote", amount l) ∷ [] in
      let prepared : ℕ → ℕ → Result (List (Step K)) = λ s l.
        prepared_user A vault (codes "permissionedWithdraw") state user (args s l) pricing payer
          false true in
      from_bind (uint n 64)
        (λ s. uint least 64 >>= λ l. prepared s l >>= λ steps. ok (push_keys metas steps)) h
        λ s u h₂.
          from_bind (uint least 64) (λ l. prepared s l >>= λ steps. ok (push_keys metas steps)) h₂
            λ l v h₃.
              from_bind (prepared s l) (λ steps. ok (push_keys metas steps)) h₃
                λ before p e.
                  subst
                    (λ (steps : List (Step K)).
                      Prepared A vault state user payer (codes "permissionedWithdraw") steps)
                    (ok_injective e)
                    (push_keys-Prepared A vault state user payer (codes "permissionedWithdraw")
                      metas before
                      (prepared_user-Prepared A vault state user payer
                        (codes "permissionedWithdraw") (args s l) pricing false true
                        (uint-bound n 64 u, (uint-bound least 64 v, tt)) p))

  -- What an answer to any request looks like
  pub perform-Prepared :
      (r : Request K) {steps : List (Step K)}
      → perform r ≡ ok steps
      → Prepared A vault state user payer (called r) steps
  unfolding perform request_deposit_instructions pre_deposit_instructions pre_withdraw_instructions
      terminal_redeem_instructions permissioned_deposit_instructions request_withdraw_instructions
      cancel_deposit_instructions cancel_withdraw_instructions claim_pre_deposit_instructions
      claim_withdrawal_instructions
  perform-Prepared (request_deposit n) h =
      user_call-Prepared A vault state user payer (codes "requestDeposit")
        (uint n 64 >>= λ a. ok ((codes "amount", amount a) ∷ [])) [] [] [] tt
        (one_amount (codes "amount") n) h
  perform-Prepared (pre_deposit n) h =
      user_call-Prepared A vault state user payer (codes "preDepositV3")
        (uint n 64 >>= λ a. ok ((codes "amount", amount a) ∷ [])) [] [] [] tt
        (one_amount (codes "amount") n) h
  perform-Prepared (pre_withdraw n) h =
      amount-Prepared (codes "preWithdrawV3") (codes "amount") n false true h
  perform-Prepared (terminal_redeem n) h =
      amount-Prepared (codes "terminalRedeem") (codes "shares") n true true h
  perform-Prepared (permissioned_deposit n least pricing metas) h =
      user_call-Prepared A vault state user payer (codes "permissionedDeposit")
        (uint n 64 >>= λ a. uint least 64 >>= λ l.
          ok ((codes "amount", amount a) ∷ (codes "minShares", amount l) ∷ []))
        pricing metas (share_account A vault state user payer ∷ []) (refl, refl, refl, tt)
        (two_amounts (codes "amount") (codes "minShares") n least) h
  perform-Prepared (request_withdraw n) h =
      amount-Prepared (codes "requestWithdraw") (codes "shares") n false false h
  perform-Prepared cancel_deposit h =
      prepared_user-Prepared A vault state user payer (codes "cancelDeposit") [] [] false true tt h
  perform-Prepared cancel_withdraw h =
      prepared_user-Prepared A vault state user payer (codes "cancelWithdraw") [] [] true false tt h
  perform-Prepared claim_pre_deposit h =
      prepared_user-Prepared A vault state user payer (codes "claimPreDeposit") [] [] true false tt
        h
  perform-Prepared (claim_deposit epoch) h = claim-Prepared epoch h
  perform-Prepared (refund_pending_deposit epoch) h = refund-Prepared epoch h
  perform-Prepared (settle_deposit r) h = settle-Prepared r h
  perform-Prepared (claim_withdrawal epoch) h =
      record-Prepared (codes "claimWithdrawal") (uint epoch 64) (λ e. A.epoch_record vault e) false
        true h
  perform-Prepared (permissioned_withdraw n least pricing metas) h =
      permissioned-Prepared n least pricing metas h
