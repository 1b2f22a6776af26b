-- ===== src/Flp/Vaults/Gates.antt =====
-- src/flp/index.ts: which instruction a deposit or a withdrawal becomes, by the status of the vault.
-- An instruction is its name and its amount here; the addresses of its accounts are made by libraries.
use fermi_v1_sdk.Base.{
  ℕ, ◌/◌, ◌%◌, Bool, true, false, not, ◌||◌, Result, ok, err, ◌>>=◌, ◌>>◌, throw_if, ◌==◌, ltb,
  if◌then◌else◌, ℤ, pos, negsuc,
}

-- `status & flag` for a flag of one bit
unfoldable pub has : ℕ → ℕ → Bool
has status flag = (status / flag) % 2 == 1

-- The flags of `STATUS`
abbrev pub deposits_paused_flag : ℕ
deposits_paused_flag = 1

abbrev pub withdrawals_paused_flag : ℕ
withdrawals_paused_flag = 2

abbrev pub breaker_flag : ℕ
breaker_flag = 4

abbrev pub pre_deposit_flag : ℕ
pre_deposit_flag = 8

abbrev pub unwind_flag : ℕ
unwind_flag = 16

abbrev pub closed_flag : ℕ
closed_flag = 32

abbrev pub public_deposits_paused_flag : ℕ
public_deposits_paused_flag = 64

pub data VaultMode : Type 0 where
  closed : VaultMode
  pre_deposit : VaultMode
  unwind : VaultMode
  live : VaultMode

unfoldable pub vault_mode : ℕ → VaultMode
vault_mode status =
    if has status closed_flag
    then closed
    else if has status pre_deposit_flag
    then pre_deposit
    else if has status unwind_flag
    then unwind
    else live

abbrev pub is_live : VaultMode → Bool
is_live live = true
is_live _ = false

abbrev pub is_pre_deposit : VaultMode → Bool
is_pre_deposit pre_deposit = true
is_pre_deposit _ = false

abbrev pub is_unwind : VaultMode → Bool
is_unwind unwind = true
is_unwind _ = false

abbrev pub is_closed : VaultMode → Bool
is_closed closed = true
is_closed _ = false

pub data Instruction : Type 0 where
  pre_deposit_v3 : ℕ → Instruction
  request_deposit : ℕ → Instruction
  pre_withdraw_v3 : ℕ → Instruction
  request_withdraw : ℕ → Instruction
  terminal_redeem : ℕ → Instruction
  graduate : Instruction

-- `unsigned(value, 8)` of a bigint
unfoldable pub unsigned_u64 : ℤ → Result ℕ
unsigned_u64 (negsuc n) = err "Value does not fit u64"
unsigned_u64 (pos n) = if ltb 18446744073709551615 n then err "Value does not fit u64" else ok n

unfoldable pub request_deposit_ix : ℕ → ℤ → Result Instruction
unfolding vault_mode
request_deposit_ix status amount =
    throw_if (not (is_live (vault_mode status))) "Use phase-aware deposit instructions"
    >> (unsigned_u64 amount >>= λ n. ok (request_deposit n))

unfoldable pub request_withdraw_ix : ℕ → ℤ → Result Instruction
request_withdraw_ix status shares =
    throw_if (has status unwind_flag) "Trading withdrawals wait until recovery completes"
    >> (unsigned_u64 shares >>= λ n. ok (request_withdraw n))

abbrev pub pre_deposit_ix : ℤ → Result Instruction
pre_deposit_ix amount = unsigned_u64 amount >>= λ n. ok (pre_deposit_v3 n)

abbrev pub pre_withdraw_ix : ℤ → Result Instruction
pre_withdraw_ix amount = unsigned_u64 amount >>= λ n. ok (pre_withdraw_v3 n)

abbrev pub terminal_redeem_ix : ℤ → Result Instruction
terminal_redeem_ix shares = unsigned_u64 shares >>= λ n. ok (terminal_redeem n)

unfoldable pub deposits_unavailable : ℕ → Bool
unfolding vault_mode
deposits_unavailable status =
    (has status deposits_paused_flag
      || (has status public_deposits_paused_flag
          || (has status breaker_flag || has status unwind_flag)))
    || (is_unwind (vault_mode status) || is_closed (vault_mode status))

unfoldable pub deposit_instruction : ℕ → ℤ → Result Instruction
unfolding deposits_unavailable vault_mode request_deposit_ix
deposit_instruction status amount =
    throw_if (deposits_unavailable status) "Deposits are unavailable"
    >> (if is_pre_deposit (vault_mode status)
        then pre_deposit_ix amount
        else request_deposit_ix status amount)

unfoldable pub trading_withdrawal_instruction : ℕ → ℤ → Result Instruction
unfolding request_withdraw_ix
trading_withdrawal_instruction status shares =
    if has status closed_flag
    then terminal_redeem_ix shares
    else (throw_if (has status withdrawals_paused_flag) "Withdrawals are paused"
        >> request_withdraw_ix status shares)

unfoldable pub withdrawal_instruction : ℕ → ℤ → Result Instruction
unfolding trading_withdrawal_instruction
withdrawal_instruction status shares =
    if has status pre_deposit_flag
    then pre_withdraw_ix shares
    else trading_withdrawal_instruction status shares

unfoldable pub public_refund_instruction : ℕ → ℤ → Result Instruction
public_refund_instruction status amount =
    throw_if (not (has status pre_deposit_flag))
      "Public principal already graduated; claim shares and use the withdrawal queue"
    >> pre_withdraw_ix amount

unfoldable pub graduate_ix : ℕ → ℕ → Result Instruction
unfolding vault_mode
graduate_ix version status =
    throw_if (not (version == 3) || not (is_pre_deposit (vault_mode status)))
      "Graduation is unavailable"
    >> (throw_if (has status withdrawals_paused_flag) "Withdrawals are paused; graduation must wait"
        >> ok graduate)
