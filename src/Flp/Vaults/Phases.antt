-- ===== src/Flp/Vaults/Phases.antt =====
-- The phases of a vault: the instructions of src/flp/index.ts that are open in each.
use fermi_v1_sdk.Base.{
  ℕ, ◌≤◌, ◌≡◌, inl, inr, refl, sym, arith, Bool, true, false, ◌||◌, Result, ok, err, if◌then◌else◌,
  ℤ, pos, negsuc, Bool-cases, from_bind, from_throw, ok_injective,
}
use fermi_v1_sdk.Flp.Vaults.Gates.{
  has, pre_deposit, live, vault_mode, is_unwind, is_closed, Instruction, pre_deposit_v3,
  request_deposit, pre_withdraw_v3, request_withdraw, unsigned_u64, request_deposit_ix,
  request_withdraw_ix, deposits_unavailable, deposit_instruction, trading_withdrawal_instruction,
  withdrawal_instruction, pre_deposit_flag, withdrawals_paused_flag, closed_flag, unwind_flag,
  breaker_flag, deposits_paused_flag, public_deposits_paused_flag,
}

-- What the client builds for the way out of a deposit of `n`: before graduation the instruction that
-- takes the same amount back, whatever is paused; afterwards one that asks the queue for as many shares,
-- or an exception if withdrawals are paused.
abbrev pub Exits : Bool → Bool → ℕ → Instruction → Result Instruction → Type 0
Exits true paused n i out = (i ≡ pre_deposit_v3 n) × (out ≡ ok (pre_withdraw_v3 n))
Exits false true n i out = (i ≡ request_deposit n) × (out ≡ err "Withdrawals are paused")
Exits false false n i out = (i ≡ request_deposit n) × (out ≡ ok (request_withdraw n))

open_flags :
    (status : ℕ)
    → deposits_unavailable status ≡ false
    → (has status unwind_flag ≡ false) × (has status closed_flag ≡ false)
unfolding deposits_unavailable vault_mode
open_flags status h =
    let (u, c) =
      parts (has status deposits_paused_flag) (has status public_deposits_paused_flag)
        (has status breaker_flag) (has status unwind_flag) (is_unwind (vault_mode status))
        (is_closed (vault_mode status)) h in
    (
      u,
      elim (Bool-cases (has status closed_flag)) [
        | inl e ↦ let no : true ≡ false = rw (vault_mode, e) at c in cc
        | inr e ↦ e
      ],
    )
  where
    parts :
        (a b k u x y : Bool)
        → ((a || (b || (k || u))) || (x || y)) ≡ false
        → (u ≡ false) × (y ≡ false)
    parts a b k u x y h = (ground arith, ground arith)

u64_pos : (x : ℤ) {n : ℕ} → unsigned_u64 x ≡ ok n → x ≡ pos n
unfolding unsigned_u64
u64_pos (pos m) h = ground arith
u64_pos (negsuc m) h = cc

-- The mode of a vault that is open to deposits.
open_mode :
    (status : ℕ) (pre : Bool)
    → deposits_unavailable status ≡ false
    → has status pre_deposit_flag ≡ pre
    → vault_mode status ≡ (if pre then pre_deposit else live)
unfolding vault_mode
open_mode status pre h p = let (u, c) = open_flags status h in rw (vault_mode, c, p, u) refl

-- If the client builds a deposit of an amount, then for a withdrawal of the same amount and status it
-- builds, before graduation, `preWithdrawV3`, whatever is paused; afterwards `requestWithdraw`, and it
-- throws if withdrawals are paused. Whether the program executes what is built is not said.
pub deposit-exit :
    (status : ℕ) (amount : ℤ) {i : Instruction}
    → deposit_instruction status amount ≡ ok i
    → (n : ℕ) × (amount ≡ pos n)
      × Exits
          (has status pre_deposit_flag)
          (has status withdrawals_paused_flag)
          n
          i
          (withdrawal_instruction status amount)
unfolding deposit_instruction request_deposit_ix withdrawal_instruction
    trading_withdrawal_instruction request_withdraw_ix
deposit-exit status amount h = from_throw (deposits_unavailable status) _ _ h λ t h1.
    let (u, c) = open_flags status t in
    elim (Bool-cases (has status pre_deposit_flag)) [
      | inl p ↦
          let m = open_mode status true t p in
          from_bind (unsigned_u64 amount) _ (rw m at h1)
            λ n en hn. (n, u64_pos amount en, rw (p, en) (sym (ok_injective hn), refl))
      | inr p ↦
          let m = open_mode status false t p in
          from_bind (unsigned_u64 amount) _ (rw (m, request_deposit_ix) at h1) λ n en hn. (
            n,
            u64_pos amount en,
            elim (Bool-cases (has status withdrawals_paused_flag)) [
              | inl w ↦ rw (p, w, withdrawal_instruction, c) (sym (ok_injective hn), refl)
              | inr w ↦ rw (p, w, c, u, en) (sym (ok_injective hn), refl)
            ],
          )
    ]

fits : (n : ℕ) → n ≤ 18446744073709551615 → unsigned_u64 (pos n) ≡ ok n
unfolding unsigned_u64
fits n h = ground arith

-- While nothing makes deposits unavailable, every u64 amount can be deposited, by the instruction of
-- the vault's phase: the guard of the queued deposit never refuses what the choice leads to it.
pub deposit-returns :
    (status n : ℕ)
    → deposits_unavailable status ≡ false
    → n ≤ 18446744073709551615
    → deposit_instruction status (pos n)
      ≡ ok (if has status pre_deposit_flag then pre_deposit_v3 n else request_deposit n)
unfolding deposit_instruction request_deposit_ix
deposit-returns status n t le = elim (Bool-cases (has status pre_deposit_flag)) [
  | inl p ↦ rw (t, open_mode status true t p, p, fits n le) refl
  | inr p ↦ rw (t, open_mode status false t p, p, fits n le) refl
]
