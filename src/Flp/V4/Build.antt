-- ===== src/Flp/V4/Build.antt =====
-- src/flp/v4.ts: from the calls that the client puts together to instructions. Every call goes through
-- `instruction`, which throws if the description does not have it or asks for an account that is missing;
-- it is the one of Flp.Instructions, with its own texts for these errors.
use fermi_v1_sdk.Base.{
  ◌≡◌, ◌↔◌, refl, sym, ap, ◌∙◌, cons_parts, List, [], ◌∷◌, Result, ok, ◌>>=◌, map_result, Text,
  from_bind, ok_injective,
}
use fermi_v1_sdk.Wire.{Bytes}
use fermi_v1_sdk.Platform.{Platform}
use fermi_v1_sdk.Intents.Instructions.{Instruction}
use fermi_v1_sdk.Flp.Instructions.{IdlInstruction, instruction}
use fermi_v1_sdk.Flp.Instructions.Accounts.{Built, instruction_iff}
use fermi_v1_sdk.Flp.V4.{
  Addresses, VaultState, given, Arg, Call, Step, vault_call, create_token_account,
}
use fermi_v1_sdk.Flp.V4.Requests.{Request, perform}

-- What the client returns: instructions of the pool program, and those that create token accounts.
pub data Sent (K : Type 0) : Type 0 where
  program : Instruction K → Sent K
  token_account : (payer account owner mint token_program : K) → Sent K

module _ (W : Platform) (A : Addresses W.PublicKey) (idl : List IdlInstruction)
    (encode : Text → List (Text × Arg W.PublicKey) → Result Bytes) where
  open W use {PublicKey}

  -- `this.instruction(c.name, c.accounts, c.args, c.remaining)`
  unfoldable pub build_call : Call PublicKey → Result (Instruction PublicKey)
  build_call c =
      instruction W A.program_id (given c.accounts) idl c.name (λ name. encode name c.args)
        c.remaining

  unfoldable pub build_step : Step PublicKey → Result (Sent PublicKey)
  unfolding build_call
  build_step (vault_call c) = build_call c >>= λ ix. ok (program ix)
  build_step (create_token_account payer account owner mint token_program) =
      ok (token_account payer account owner mint token_program)

  -- A user's function of the client, up to the instructions that it returns.
  unfoldable pub send :
      PublicKey
      → VaultState PublicKey
      → PublicKey
      → PublicKey
      → Request PublicKey
      → Result (List (Sent PublicKey))
  unfolding perform build_step
  send vault state user payer r = perform A vault state user payer r >>= map_result build_step

  -- A call is built when the description has it, its arguments encode, and the accounts are, in the
  -- description's order, those given by name, none missing that is not optional.
  abbrev pub BuiltAs : Step PublicKey → Sent PublicKey → Type 0
  BuiltAs (vault_call c) (program ix) =
      Built W A.program_id (given c.accounts) idl c.name (λ name. encode name c.args) c.remaining ix
  BuiltAs (vault_call c) _ = ⊥
  BuiltAs (create_token_account payer account owner mint token_program) sent =
      sent ≡ token_account payer account owner mint token_program

  abbrev pub AllBuilt : List (Step PublicKey) → List (Sent PublicKey) → Type 0
  AllBuilt [] [] = Unit
  AllBuilt (s ∷ steps) (b ∷ built) = BuiltAs s b × AllBuilt steps built
  AllBuilt _ _ = ⊥

  build_call-Built :
      (c : Call PublicKey) (ix : Instruction PublicKey)
      → build_call c ≡ ok ix
        ↔ Built W A.program_id
            (given c.accounts)
            idl
            c.name
            (λ name. encode name c.args)
            c.remaining
            ix
  unfolding build_call
  build_call-Built c ix =
      instruction_iff W A.program_id (given c.accounts) idl c.name (λ name. encode name c.args)
        c.remaining ix

  program_injective : {a b : Instruction PublicKey} → program a ≡ program b → a ≡ b
  program_injective {a} {b} h = cc

  build_step-BuiltAs : (s : Step PublicKey) (b : Sent PublicKey) → build_step s ≡ ok b ↔ BuiltAs s b
  unfolding build_step
  build_step-BuiltAs (vault_call c) (program ix) = (
    (λ h.
        from_bind (build_call c) (λ ix. ok (program ix)) h
          λ ix₂ e r. (build_call-Built c ix).0 (e ∙ ap ok (program_injective (ok_injective r)))),
    λ b. rw ((build_call-Built c ix).1 b) refl,
  )
  build_step-BuiltAs (vault_call c) (token_account p a o m t) = (
    (λ h. from_bind (build_call c) (λ ix. ok (program ix)) h λ ix e r. absurd cc),
    λ (h : ⊥). absurd h,
  )
  build_step-BuiltAs (create_token_account p a o m t) b =
      ((λ h. sym (ok_injective h)), λ h. ap ok (sym h))

  pub build-AllBuilt :
      (steps : List (Step PublicKey)) (built : List (Sent PublicKey))
      → map_result build_step steps ≡ ok built ↔ AllBuilt steps built
  build-AllBuilt [] [] = ((λ h. tt), λ h. refl)
  build-AllBuilt [] (b ∷ built) = ((λ h. absurd cc), λ (h : ⊥). absurd h)
  build-AllBuilt (s ∷ steps) [] = (
    (λ h.
        from_bind (build_step s) _ h
          λ b e k. from_bind (map_result build_step steps) _ k λ bs d r. absurd cc),
    λ (h : ⊥). absurd h,
  )
  build-AllBuilt (s ∷ steps) (b ∷ built) = (
    (λ h. from_bind (build_step s) _ h λ b₂ e k.
        from_bind (map_result build_step steps) _ k λ bs d r.
          let (same, rest) = cons_parts (ok_injective r) in
          (
            (build_step-BuiltAs s b).0 (e ∙ ap ok same),
            (build-AllBuilt steps built).0 (d ∙ ap ok rest),
          )),
    λ (one, more). rw ((build_step-BuiltAs s b).1 one, (build-AllBuilt steps built).1 more) refl,
  )
