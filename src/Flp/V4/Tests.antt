-- ===== src/Flp/V4/Tests.antt =====
-- The client of src/flp/v4.ts on a pool with concrete addresses.
use fermi_v1_sdk.Base.{
  String, Text, ℕ, ◌+◌, ◌*◌, ◌≡◌, refl, pos, true, false, List, [], ◌∷◌, some, Result, ok, err,
  codes, ◌==◌, text_eq, whole, map,
}
use fermi_v1_sdk.Intents.Accounts.{AccountMeta}
use fermi_v1_sdk.Flp.Vaults.{none_epoch, EpochRecord, deferred_batches}
use fermi_v1_sdk.Flp.Vaults.Gates.{has}
use fermi_v1_sdk.Flp.V4.Flows.{flow_accounts, flow_call}
use fermi_v1_sdk.Flp.V4.Operate.{
  FundingWindow, follows, funding_window_is_open, funding_window_is_current, fetch_funding_window,
  fetch_epoch, fund_head_if_open, close_epoch,
}
use fermi_v1_sdk.Flp.V4.{
  Arg, Call, Addresses, VaultState, Named, given, Step, vault_call, uint, uint_number, capacity,
  require_v4, user_accounts, user_call, init_depositor, preparation, prepared_user,
}
use fermi_v1_sdk.Flp.V4.Users.{push_keys, permissioned_withdraw_instructions}
use fermi_v1_sdk.Flp.V4.Requests.{Request, permissioned_withdraw, perform}
use fermi_v1_sdk.Flp.V4.Outcome.{Outcome, send-Outcome}
use fermi_v1_sdk.Flp.V4.Build.{Sent, program, token_account, send, build_step, build_call}
use fermi_v1_sdk.Flp.Instructions.{
  account, Items, nil, cons, IdlInstruction, find_instruction, account_key, visit_item, visit,
  instruction,
}
use fermi_v1_sdk.Wire.{Bytes}
use fermi_v1_sdk.Platform.Sample.{sample_platform}

abbrev addresses : Addresses ℕ
addresses = record {
  program_id = 70;
  default_key = 0;
  token_program = 71;
  token_2022_program = 72;
  associated_token_program = 73;
  authority = λ vault. 1000 + vault;
  depositor = λ vault user. 2000 + 10 * vault + user;
  epoch_record = λ vault epoch. 3000 + epoch;
  funding_window = λ vault. 4000 + vault;
  recovery_targets = λ vault. 5000 + vault;
  fermi_account = λ core group authority number. 6000 + number;
  token_account = λ mint owner program. 7000 + 100 * mint + owner;
  equals = λ a b. a == b;
}

abbrev pool : VaultState ℕ
pool = record {
  version = 4;
  vault_id = 1;
  group = 80;
  quote_mint = 5;
  share_mint = 6;
  deposit_escrow = 81;
  redemption_escrow = 82;
  fermi_account = 0;
  status = 0;
  epoch = 8;
  deferred_head = 7;
  deferred_tail = 7;
}

-- A withdrawal with a price account, and a vault that the caller gives and that does not count.
abbrev withdrawal : Request ℕ
withdrawal =
    permissioned_withdraw (pos 50) (pos 40) ((codes "vault", 9) ∷ (codes "quoteBank", 33) ∷ [])
      (record { pubkey = 91; is_signer = false; is_writable = false } ∷ [])

abbrev call_of : List (Step ℕ) → Named ℕ
call_of [] = []
call_of (vault_call c ∷ []) = c.accounts
call_of (s ∷ steps) = call_of steps

abbrev steps_of : Result (List (Step ℕ)) → List (Step ℕ)
steps_of (ok steps) = steps
steps_of (err e) = []

abbrev steps : List (Step ℕ)
unfolding perform permissioned_withdraw_instructions
steps = steps_of (perform addresses 3 pool 4 44 withdrawal)

withdrawal_vault : given (call_of steps) (codes "vault") ≡ some 3
unfolding perform permissioned_withdraw_instructions prepared_user preparation init_depositor
    user_call user_accounts require_v4 uint push_keys given text_eq
withdrawal_vault = refl

withdrawal_bank : given (call_of steps) (codes "quoteBank") ≡ some 33
unfolding perform permissioned_withdraw_instructions prepared_user preparation init_depositor
    user_call user_accounts require_v4 uint push_keys given text_eq
withdrawal_bank = refl

large_amount : uint (pos 18446744073709551616) 64 ≡ err "Expected an unsigned integer"
unfolding uint
large_amount = refl

large_account :
    capacity (whole (pos 13)) (whole (pos 64)) true
    ≡ err "Initial account exceeds 10240 bytes; create smaller and expand"
unfolding capacity uint_number uint
large_account = refl

expanded_account : capacity (whole (pos 13)) (whole (pos 64)) false ≡ ok (13, 64)
unfolding capacity uint_number uint
expanded_account = refl

-- The window of the epoch before the pool's, open from 100 to 200.
abbrev window : ℕ → Result (FundingWindow ℕ)
window k = ok (record {
  vault = 3;
  version = 1;
  closed_epoch = pos 7;
  scheduled_start = pos 100;
  deadline = pos 200;
  eligible = true;
})

-- Epoch 7 is the last one that is deferred.
abbrev epochs : ℕ → Result (EpochRecord ℕ)
epochs k = ok (record { vault = 3; epoch = 7; wd_status = 2; next_deferred = none_epoch })

abbrev keys_of : Result (Call ℕ) → List ℕ
keys_of (ok c) = map (λ (m : AccountMeta ℕ). m.pubkey) c.remaining
keys_of (err e) = []

closed_batches :
    keys_of (close_epoch addresses window epochs ok 3 pool [] [] (whole (pos 2))) ≡ 3007 ∷ []
unfolding close_epoch deferred_batches fetch_epoch uint require_v4 flow_call flow_accounts has
closed_batches = refl

late_funding :
    fund_head_if_open addresses window epochs ok 3 pool [] [] (pos 201)
    ≡ err "Funding window is not open"
unfolding fund_head_if_open fetch_funding_window funding_window_is_current follows
    funding_window_is_open
late_funding = refl

stale_window :
    fund_head_if_open addresses window epochs ok 3 (record pool { epoch = 9 }) [] [] (pos 150)
    ≡ err "Funding window changed; refresh vault state"
unfolding fund_head_if_open fetch_funding_window funding_window_is_current follows
stale_window = refl

-- A description of the two instructions of that withdrawal.
abbrev read_write : String → Items → Items
read_write name rest = cons (account (codes name) true false false) rest

abbrev descriptions : List IdlInstruction
descriptions =
    record {
      name = codes "initDepositor";
      accounts =
          read_write "vault" (read_write "user" (read_write "payer" (read_write "depositor" nil)));
    }
    ∷ record {
      name = codes "permissionedWithdraw";
      accounts = read_write "vault" (read_write "user" (read_write "quoteBank" nil));
    }
    ∷ []

abbrev encode : Text → List (Text × Arg ℕ) → Result Bytes
encode name args = ok (4 ∷ [])

abbrev writable : ℕ → AccountMeta ℕ
writable k = record { pubkey = k; is_signer = false; is_writable = true }

abbrev keys : List ℕ → Sent ℕ
keys ks = program (record { program_id = 70; keys = map writable ks; data_bytes = 4 ∷ [] })

abbrev withdrawn : List (Sent ℕ)
withdrawn =
    keys (3 ∷ 4 ∷ 44 ∷ 2034 ∷ [])
    ∷ token_account 44 7504 4 5 71
    ∷ program (record {
      program_id = 70;
      keys =
          writable 3
          ∷ writable 4
          ∷ writable 33
          ∷ record { pubkey = 91; is_signer = false; is_writable = false }
          ∷ [];
      data_bytes = 4 ∷ [];
    })
    ∷ []

withdrawal_sent :
    send sample_platform addresses descriptions encode 3 pool 4 44 withdrawal ≡ ok withdrawn
unfolding send build_step build_call instruction find_instruction visit visit_item account_key
    perform permissioned_withdraw_instructions prepared_user preparation init_depositor user_call
    user_accounts require_v4 uint push_keys given text_eq
withdrawal_sent = refl

-- Without the price account the description's instruction cannot be built.
unpriced :
    send sample_platform addresses descriptions encode 3 pool 4 44
      (permissioned_withdraw (pos 50) (pos 40) [] [])
    ≡ err "Missing FLP account"
unfolding send build_step build_call instruction find_instruction visit visit_item account_key
    perform permissioned_withdraw_instructions prepared_user preparation init_depositor user_call
    user_accounts require_v4 uint push_keys given text_eq
unpriced = refl

send-Outcome_example :
    Outcome sample_platform addresses descriptions encode 3 pool 4 44 withdrawal
      (send sample_platform addresses descriptions encode 3 pool 4 44 withdrawal)
send-Outcome_example =
    send-Outcome sample_platform addresses descriptions encode 3 pool 4 44 withdrawal
