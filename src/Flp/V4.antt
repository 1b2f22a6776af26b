-- ===== src/Flp/V4.antt =====
-- src/flp/v4.ts: what the client of version 4 hands to `instruction`, for the flows of a pool's user.
-- Deriving program and token addresses is a library call: a record of functions here. The client hands
-- accounts on by name; `given` reads such an object, where the last entry of a name counts.
pub mod Users
pub mod Flows
pub mod Operate
pub mod Recovery
pub mod Admin
pub mod Core
pub mod Prepared
pub mod Requests
pub mod Inputs
pub mod Answers
pub mod Build
pub mod Outcome
mod Tests
use fermi_v1_sdk.Base.{
  ℕ, ◌^◌, ◌≡◌, ℤ, pos, negsuc, Bool, true, false, not, ◌&&◌, ◌||◌, List, [], ◌∷◌, ◌++◌, Option,
  none, some, Result, ok, err, ◌>>=◌, ◌>>◌, throw_if, Text, codes, text_eq, ltb, leb, ◌==◌,
  if◌then◌else◌, Number, whole, other, max_safe, ◌+◌, ◌*◌,
}
use fermi_v1_sdk.Intents.Accounts.{AccountMeta}

-- What the code derives by library calls, and the programs' well-known keys.
pub record Addresses (K : Type 0) : Type 0 where
  pub program_id : K
  pub default_key : K
  pub token_program : K
  pub token_2022_program : K
  pub associated_token_program : K
  pub authority : K → K
  pub depositor : K → K → K
  pub epoch_record : K → ℕ → K
  pub funding_window : K → K
  pub recovery_targets : K → K
  pub fermi_account : K → K → K → ℕ → K
  -- getAssociatedTokenAddressSync(mint, owner, true, tokenProgram)
  pub token_account : K → K → K → K
  pub equals : K → K → Bool

-- The parts of `VaultAccount` that the client reads.
pub record VaultState (K : Type 0) : Type 0 where
  pub version : ℕ
  pub vault_id : ℕ
  pub group : K
  pub quote_mint : K
  pub share_mint : K
  pub deposit_escrow : K
  pub redemption_escrow : K
  pub fermi_account : K
  pub status : ℕ
  pub epoch : ℕ
  pub deferred_head : ℕ
  pub deferred_tail : ℕ

-- A `Record<string, PublicKey>`, in the order in which its entries were spread.
abbrev pub Named : Type 0 → Type 0
Named K = List (Text × K)

unfoldable pub given : {K : Type 0} → Named K → Text → Option K
given [] path = none
given ((name, k) ∷ rest) path = elim (given rest path) [
  | none ↦ if text_eq name path then some k else none
  | some later ↦ some later
]

-- `fields` is an object of numbers that the caller passes on.
pub data Arg (K : Type 0) : Type 0 where
  amount : ℕ → Arg K
  flag : Bool → Arg K
  key : K → Arg K
  fields : List (Text × ℕ) → Arg K

-- The arguments of `this.instruction(name, accounts, args, remaining)`, which Flp.V4.Build calls
pub record Call (K : Type 0) : Type 0 where
  pub name : Text
  pub accounts : Named K
  pub args : List (Text × Arg K)
  pub remaining : List (AccountMeta K)

-- An instruction of the pool program, or one that creates a user's token account if there is none:
-- the payer, the account, its owner, the mint and the token program.
pub data Step (K : Type 0) : Type 0 where
  vault_call : Call K → Step K
  create_token_account : (payer account owner mint token_program : K) → Step K

-- `uint` of a `BN` or a bigint
unfoldable pub uint : ℤ → ℕ → Result ℕ
uint (pos n) bits = if ltb n (2 ^ bits) then ok n else err "Expected an unsigned integer"
uint (negsuc n) bits = err "Expected an unsigned integer"

-- `uint` of a number
unfoldable pub uint_number : Number → ℕ → Result ℕ
unfolding uint
uint_number (other tag) bits = err "Expected a safe integer"
uint_number (whole (pos n)) bits =
    throw_if (ltb max_safe n) "Expected a safe integer" >> uint (pos n) bits
uint_number (whole (negsuc n)) bits =
    throw_if (leb max_safe n) "Expected a safe integer" >> uint (negsuc n) bits

unfoldable pub capacity : Number → Number → Bool → Result (ℕ × ℕ)
unfolding uint_number
capacity perps orders initial = do
  p ← uint_number perps 8
  o ← uint_number orders 8
  throw_if (ltb p 1 || (ltb 13 p || (ltb o 1 || ltb 64 o))) "Unsupported market capacity"
  throw_if (initial && ltb 10240 (704 + 304 * p + 96 * o))
      "Initial account exceeds 10240 bytes; create smaller and expand"
  ok (p, o)

-- The parts of `EpochAccount` that say whether deposits were held.
pub record DepositRecord (K : Type 0) : Type 0 where
  pub vault : K
  pub epoch : ℕ
  pub dep_gross : ℕ
  pub dep_den : ℕ

unfoldable pub deposits_held : {K : Type 0} → DepositRecord K → Bool
deposits_held r = r.dep_den == 0 && not (r.dep_gross == 0)

module _ {K : Type 0} (A : Addresses K) (vault : K) where
  unfoldable pub require_v4 : VaultState K → Result (Unit {0})
  require_v4 state = throw_if (not (state.version == 4)) "Expected a fresh v4 vault"

  unfoldable pub init_depositor : K → K → Call K
  init_depositor user payer = record {
    name = codes "initDepositor";
    accounts =
        (codes "vault", vault)
        ∷ (codes "user", user)
        ∷ (codes "payer", payer)
        ∷ (codes "depositor", A.depositor vault user)
        ∷ (codes "systemProgram", A.default_key)
        ∷ [];
    args = [];
    remaining = [];
  }

  abbrev pub user_entries : VaultState K → K → Named K
  user_entries state user =
      (codes "vault", vault)
      ∷ (codes "user", user)
      ∷ (codes "authority", A.authority vault)
      ∷ (codes "depositor", A.depositor vault user)
      ∷ (codes "userQuoteAccount", A.token_account state.quote_mint user A.token_program)
      ∷ (codes "userShareAccount", A.token_account state.share_mint user A.token_2022_program)
      ∷ (codes "shareMint", state.share_mint)
      ∷ (codes "depositEscrow", state.deposit_escrow)
      ∷ (codes "redemptionEscrow", state.redemption_escrow)
      ∷ (codes "tokenProgram", A.token_program)
      ∷ (codes "token2022Program", A.token_2022_program)
      ∷ (codes "systemProgram", A.default_key)
      ∷ []

  unfoldable pub user_accounts : VaultState K → K → Result (Named K)
  unfolding require_v4
  user_accounts state user = require_v4 state >> ok (user_entries state user)

  -- `shareAtaInstructions(state, user, payer).instruction` of the client before
  abbrev pub share_account : VaultState K → K → K → Step K
  share_account state user payer =
      create_token_account payer (A.token_account state.share_mint user A.token_2022_program) user
        state.share_mint A.token_2022_program

  abbrev pub quote_account : VaultState K → K → K → Step K
  quote_account state user payer =
      create_token_account payer (A.token_account state.quote_mint user A.token_program) user
        state.quote_mint A.token_program

  -- What `this.instruction` is called with in a user's function; Flp.V4.Build makes the instruction of it,
  -- or throws. The accounts are read before the arguments. The user's own come after `extra` and so replace its entries of the same name.
  unfoldable pub user_call :
      Text
      → VaultState K
      → K
      → Result (List (Text × Arg K))
      → Named K
      → List (AccountMeta K)
      → Result (Step K)
  unfolding user_accounts
  user_call name state user arguments extra remaining = user_accounts state user >>= λ own.
      arguments >>= λ args. ok (
        vault_call
          (record { name = name; accounts = extra ++ own; args = args; remaining = remaining }))

  -- `preparation` of `preparedUser`
  unfoldable pub preparation : VaultState K → K → K → Bool → Bool → List (Step K)
  unfolding init_depositor
  preparation state user payer share_ata quote_ata =
      vault_call (init_depositor user payer)
        ∷ (if share_ata then share_account state user payer ∷ [] else [])
      ++ (if quote_ata then quote_account state user payer ∷ [] else [])

  unfoldable pub prepared_user :
      Text
      → VaultState K
      → K
      → List (Text × Arg K)
      → Named K
      → K
      → Bool
      → Bool
      → Result (List (Step K))
  unfolding user_call preparation
  prepared_user name state user args extra payer share_ata quote_ata =
      user_call name state user (ok args) extra [] >>= λ last.
      ok (preparation state user payer share_ata quote_ata ++ last ∷ [])
