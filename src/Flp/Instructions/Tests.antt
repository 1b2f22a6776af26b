-- ===== src/Flp/Instructions/Tests.antt =====
-- An instruction of src/flp/index.ts with an account group and two optional accounts.
use fermi_v1_sdk.Base.{
  ℕ, ◌≡◌, ◌↔◌, refl, true, false, List, [], ◌∷◌, Option, none, some, Result, ok, err, Text, codes,
  text_eq, if◌then◌else◌,
}
use fermi_v1_sdk.Wire.{Bytes}
use fermi_v1_sdk.Platform.Sample.{sample_platform}
use fermi_v1_sdk.Intents.Accounts.{AccountMeta, meta}
use fermi_v1_sdk.Intents.Instructions.{Instruction}
use fermi_v1_sdk.Flp.Instructions.{
  account, group, nil, cons, IdlInstruction, find_instruction, account_key, visit_item, visit,
  instruction,
}
use fermi_v1_sdk.Flp.Instructions.Accounts.{Built, instruction_iff}

abbrev descriptions : List IdlInstruction
descriptions =
    record {
      name = codes "checkBreaker";
      accounts = cons (account (codes "vault") true false false) (
          cons
            (group (codes "fermi") (
              cons (account (codes "group") false false false)
                (cons (account (codes "hook") true false true) nil)))
            (cons (account (codes "admin") false true false) nil));
    }
    ∷ []

-- The vault is 1, the group 2, the administrator 3; the hook is left out.
abbrev given : Text → Option ℕ
given path =
    if text_eq path (codes "vault")
    then some 1
    else if text_eq path (codes "fermi.group")
    then some 2
    else if text_eq path (codes "admin")
    then some 3
    else none

abbrev encode : Text → Result Bytes
encode name = ok (4 ∷ 5 ∷ [])

abbrev check_breaker : Instruction ℕ
check_breaker = record {
  program_id = 70;
  keys =
      meta sample_platform 1 false true
      ∷ meta sample_platform 2 false false
      ∷ meta sample_platform 70 false false
      ∷ meta sample_platform 3 true false
      ∷ meta sample_platform 8 false true
      ∷ [];
  data_bytes = 4 ∷ 5 ∷ [];
}

abbrev remaining : List (AccountMeta ℕ)
remaining = meta sample_platform 8 false true ∷ []

check_breaker_keys :
    instruction sample_platform 70 given descriptions (codes "checkBreaker") encode remaining
    ≡ ok check_breaker
unfolding instruction find_instruction visit visit_item account_key text_eq
check_breaker_keys = refl

missing_account :
    instruction sample_platform 70
      (λ path. none)
      descriptions
      (codes "checkBreaker")
      encode
      remaining
    ≡ err "Missing FLP account"
unfolding instruction find_instruction visit visit_item account_key text_eq
missing_account = refl

unknown_name :
    instruction sample_platform 70 given descriptions (codes "graduate") encode remaining
    ≡ err "Unknown FLP instruction"
unfolding instruction find_instruction text_eq
unknown_name = refl

instruction_iff_example :
    instruction sample_platform 70 given descriptions (codes "checkBreaker") encode remaining
      ≡ ok check_breaker
    ↔ Built sample_platform 70 given descriptions
        (codes "checkBreaker")
        encode
        remaining
        check_breaker
instruction_iff_example =
    instruction_iff sample_platform 70 given descriptions (codes "checkBreaker") encode remaining
      check_breaker
