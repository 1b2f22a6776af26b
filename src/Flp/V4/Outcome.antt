-- ===== src/Flp/V4/Outcome.antt =====
-- When the client of src/flp/v4.ts answers a user's request, and with what.
use fermi_v1_sdk.Base.{◌≡◌, refl, List, Result, ok, err, ◌>>=◌, map_result, Text, ◌⊎◌, inl, inr}
use fermi_v1_sdk.Wire.{Bytes}
use fermi_v1_sdk.Platform.{Platform}
use fermi_v1_sdk.Flp.Instructions.{IdlInstruction}
use fermi_v1_sdk.Flp.V4.{Addresses, VaultState, Arg, Step}
use fermi_v1_sdk.Flp.V4.Build.{Sent, build_step, send, AllBuilt, build-AllBuilt}
use fermi_v1_sdk.Flp.V4.Prepared.{Prepared}
use fermi_v1_sdk.Flp.V4.Inputs.{Inputs, perform-Inputs}
use fermi_v1_sdk.Flp.V4.Requests.{Request, called, perform, perform-Prepared}
use fermi_v1_sdk.Flp.V4.Answers.{perform-IsOk}

module _ (W : Platform) (A : Addresses W.PublicKey) (idl : List IdlInstruction)
    (encode : Text → List (Text × Arg W.PublicKey) → Result Bytes) (vault : W.PublicKey)
    (state : VaultState W.PublicKey) (user payer : W.PublicKey) where
  open W use {PublicKey}

  abbrev pub BuiltSteps : List (Step PublicKey) → List (Sent PublicKey) → Type 0
  BuiltSteps steps sent = AllBuilt W A idl encode steps sent

  -- The answer to a request: instructions built from steps that are prepared, or an exception.
  abbrev pub Outcome : Request PublicKey → Result (List (Sent PublicKey)) → Type 0
  Outcome r (ok sent) =
      Inputs A vault state user payer r
      × ((steps : List (Step PublicKey)) × Prepared A vault state user payer (called r) steps
          × BuiltSteps steps sent)
  Outcome r (err e) =
      (¬ ((state.version ≡ 4) × Inputs A vault state user payer r))
      ⊎ ((steps : List (Step PublicKey)) × Prepared A vault state user payer (called r) steps
          × (¬ ((sent : List (Sent PublicKey)) × BuiltSteps steps sent)))

  built_outcome :
      (r : Request PublicKey) (steps : List (Step PublicKey))
      → perform A vault state user payer r ≡ ok steps
      → (answer : Result (List (Sent PublicKey)))
      → map_result (build_step W A idl encode) steps ≡ answer
      → Outcome r answer
  built_outcome r steps p (ok sent) b = (
    perform-Inputs A vault state user payer r p,
    (
      steps,
      perform-Prepared A vault state user payer r p,
      (build-AllBuilt W A idl encode steps sent).0 b,
    ),
  )
  built_outcome r steps p (err e) b = inr (
    steps,
    perform-Prepared A vault state user payer r p,
    λ (sent, all).
        let built : map_result (build_step W A idl encode) steps ≡ ok sent =
          (build-AllBuilt W A idl encode steps sent).1 all in
        cc,
  )

  outcome_of :
      (r : Request PublicKey) (done : Result (List (Step PublicKey)))
      → perform A vault state user payer r ≡ done
      → Outcome r (done >>= map_result (build_step W A idl encode))
  outcome_of r (ok steps) p =
      built_outcome r steps p (map_result (build_step W A idl encode) steps) refl
  outcome_of r (err e) p =
      inl (λ (v, i). let (steps, o) = perform-IsOk A vault state user payer r v i in cc)

  -- A user's request to the client of a version 4 pool is answered, or is an exception. In an answer
  -- the pool's version is 4, every amount and epoch of the request is a u64, and a record to settle is
  -- this pool's. The answer is built from steps of which the first prepares the user's record with the
  -- pool, the next ones create at most token accounts of the user, which the payer pays for, and the last
  -- one calls the instruction that the request stands for; in it every amount is a u64 and the pool, its
  -- authority, its escrows, the user, the user's record and the user's token accounts are the derived
  -- ones, also when the caller's own accounts bear one of these names. Each call is built with the
  -- accounts of the description in its order, then the remaining ones. In an exception the version, an
  -- amount, an epoch or the record fails its test, or such steps cannot be built: the description has no
  -- such instruction or asks for an account that is not given and not optional, or the arguments do not
  -- encode.
  pub send-Outcome :
      (r : Request PublicKey) → Outcome r (send W A idl encode vault state user payer r)
  unfolding send
  send-Outcome r = outcome_of r (perform A vault state user payer r) refl
