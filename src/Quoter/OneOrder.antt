-- ===== src/Quoter/OneOrder.antt =====
-- The orders that the bot of src/quoter.ts has outstanding with the relayer: those whose submission the
-- relayer has answered, and of which it has not answered a cancellation since. An answer is the acceptance
-- of an intent; what the queue executes later, and whether it fails there, is not modelled.
use fermi_v1_sdk.Base.{
  ℕ, String, filter, ◌≤◌, ◌≡◌, ◌⊎◌, inl, inr, refl, sym, subst, ◌∙◌, arith, Bool, true, false, not,
  List, [], ◌∷◌, ◌++◌, none, some, some_injective, Result, ok, err, length, ◌==◌, ==_refl,
  if◌then◌else◌, Bool-cases, Option-cases, ok_injective,
}
use fermi_v1_sdk.Intents.{Side}
use fermi_v1_sdk.Quoter.{
  Floats, RelayerCall, cancel_order, submit_order, Bot, Round, succeeded, submit_quote, cancel_last,
  tick, after_round, run_loop, run,
}

Result-cases : {A : Type 0} (r : Result A) → ((e : String) × (r ≡ err e)) ⊎ ((a : A) × (r ≡ ok a))
Result-cases (err e) = inl (e, refl)
Result-cases (ok a) = inr (a, refl)

-- Nothing is outstanding, or the order that the bot remembers.
abbrev pub HoldsLast : Bot → List ℕ → Type 0
HoldsLast b open_ids =
    (open_ids ≡ []) ⊎ ((id : ℕ) × (b.last_client_order_id ≡ some id) × (open_ids ≡ id ∷ []))

HoldsLast-short : (b : Bot) (open_ids : List ℕ) → HoldsLast b open_ids → length open_ids ≤ 1
HoldsLast-short b open_ids (inl e) = rw e (omega arith)
HoldsLast-short b open_ids (inr (id, _, e)) = rw e (omega arith)

module _ {F : Type 0} where
  -- What an answered call does to the outstanding ids; a call that throws changes none.
  abbrev pub after_call : List ℕ → RelayerCall F × Bool → List ℕ
  after_call open_ids (c, false) = open_ids
  after_call open_ids (cancel_order id, true) = filter (λ k. not (k == id)) open_ids
  after_call open_ids (submit_order id side price, true) = open_ids ++ id ∷ []

  abbrev pub after_calls : List ℕ → List (RelayerCall F × Bool) → List ℕ
  after_calls open_ids [] = open_ids
  after_calls open_ids (c ∷ cs) = after_calls (after_call open_ids c) cs

  -- At no moment of the calls are two orders outstanding.
  abbrev pub NeverTwo : List ℕ → List (RelayerCall F × Bool) → Type 0
  NeverTwo open_ids [] = length open_ids ≤ 1
  NeverTwo open_ids (c ∷ cs) = (length open_ids ≤ 1) × NeverTwo (after_call open_ids c) cs

  after_calls-append :
      (open_ids : List ℕ) (cs ds : List (RelayerCall F × Bool))
      → after_calls open_ids (cs ++ ds) ≡ after_calls (after_calls open_ids cs) ds
  after_calls-append open_ids [] ds = refl
  after_calls-append open_ids (c ∷ cs) ds = after_calls-append (after_call open_ids c) cs ds

  NeverTwo-append :
      (open_ids : List ℕ) (cs ds : List (RelayerCall F × Bool))
      → NeverTwo open_ids cs
      → NeverTwo (after_calls open_ids cs) ds
      → NeverTwo open_ids (cs ++ ds)
  NeverTwo-append open_ids [] ds h k = k
  NeverTwo-append open_ids (c ∷ cs) ds (h, hs) k =
      (h, NeverTwo-append (after_call open_ids c) cs ds hs k)

  -- What a run of calls leaves: never two outstanding orders, and in the end at most the remembered one.
  abbrev pub Kept : List ℕ → List (RelayerCall F × Bool) → Bot → Type 0
  Kept open_ids calls b = NeverTwo open_ids calls × HoldsLast b (after_calls open_ids calls)

module _ (N : Floats) (side : Side) (spread_bps : N.F) where
  open N use {F}

  submit-Kept :
      (b : Bot) (calls : List (RelayerCall F × Bool)) (fair : F) (r : Round F) (open_ids : List ℕ)
      → NeverTwo open_ids calls
      → after_calls open_ids calls ≡ []
      → let t = submit_quote N side spread_bps b calls fair r in Kept open_ids t.calls t.bot
  unfolding submit_quote
  submit-Kept b calls fair r open_ids never empty = elim (Bool-cases (succeeded r.submitted)) [
    | inl e ↦ rw e (
      NeverTwo-append open_ids calls _ never (rw empty (omega arith, omega arith)),
      inr (r.now, refl, rw (after_calls-append open_ids calls _, empty) refl),
    )
    | inr e ↦ rw e (
      NeverTwo-append open_ids calls _ never (rw empty (omega arith, omega arith)),
      inl (rw (after_calls-append open_ids calls _, empty) refl),
    )
  ]

  idle-Kept : (b : Bot) (open_ids : List ℕ) → HoldsLast b open_ids → Kept {F = F} open_ids [] b
  idle-Kept b open_ids h = (HoldsLast-short b open_ids h, h)

  none_left :
      (b : Bot) (open_ids : List ℕ)
      → b.last_client_order_id ≡ none
      → HoldsLast b open_ids
      → open_ids ≡ []
  none_left b open_ids e (inl h) = h
  none_left b open_ids e (inr (id, h, _)) = let no : none ≡ some id = sym e ∙ h in cc

  -- Cancelling the remembered order leaves nothing.
  none_after_cancel :
      (b : Bot) (id : ℕ) (open_ids : List ℕ)
      → b.last_client_order_id ≡ some id
      → HoldsLast b open_ids
      → filter (λ k. not (k == id)) open_ids ≡ []
  none_after_cancel b id open_ids e (inl h) = rw h refl
  none_after_cancel b id open_ids e (inr (other, h, only)) =
      let same : other ≡ id = some_injective (sym h ∙ e) in rw (only, same, ==_refl id) refl

  cancel-Kept :
      (b : Bot) (fair : F) (r : Round F) (open_ids : List ℕ)
      → HoldsLast b open_ids
      → let t = cancel_last N side spread_bps b fair r in Kept open_ids t.calls t.bot
  unfolding cancel_last
  cancel-Kept b fair r open_ids h = elim (Option-cases b.last_client_order_id) [
    | inl e ↦
        let empty = none_left b open_ids e h in
        rw (e, cancel_last) (submit-Kept b [] fair r open_ids (HoldsLast-short b open_ids h) empty)
    | inr (id, e) ↦ elim (Bool-cases (succeeded r.cancelled)) [
      | inl c ↦
          let empty = none_after_cancel b id open_ids e h in
          rw (e, cancel_last, c)
            (submit-Kept b ((cancel_order id, true) ∷ []) fair r open_ids
              (HoldsLast-short b open_ids h, rw empty (omega arith)) empty)
      | inr c ↦
          rw (e, cancel_last, c) ((HoldsLast-short b open_ids h, HoldsLast-short b open_ids h), h)
    ]
  ]

  tick-Kept :
      (b : Bot) (r : Round F) (open_ids : List ℕ)
      → HoldsLast b open_ids
      → let t = tick N side spread_bps b r in Kept open_ids t.calls t.bot
  unfolding tick
  tick-Kept b r open_ids h = elim (Result-cases r.fair_price) [
    | inl (e, p) ↦ rw (p, tick) (idle-Kept b open_ids h)
    | inr (fair, p) ↦ elim (Bool-cases (succeeded r.market_state)) [
      | inl m ↦ rw (p, tick, m) (cancel-Kept b fair r open_ids h)
      | inr m ↦ rw (p, tick, m) (idle-Kept b open_ids h)
    ]
  ]

  stopped-HoldsLast :
      (b : Bot) (r : Round F) (open_ids : List ℕ)
      → HoldsLast b open_ids
      → HoldsLast (after_round N side spread_bps b r) open_ids
  stopped-HoldsLast b r open_ids h = elim (Bool-cases r.stopped) [ inl e ↦ rw e h | inr e ↦ rw e h ]

  if-Kept :
      (open_ids : List ℕ) (test : Bool) (p q : List (RelayerCall F × Bool) × Bot)
      → Kept open_ids p.0 p.1
      → Kept open_ids q.0 q.1
      → let r = if test then p else q in Kept open_ids r.0 r.1
  if-Kept open_ids true p q h k = h
  if-Kept open_ids false p q h k = k

  loop-Kept :
      (b : Bot) (rs : List (Round F)) (open_ids : List ℕ)
      → HoldsLast b open_ids
      → let (calls, b') = run_loop N side spread_bps b rs in Kept open_ids calls b'
  unfolding run_loop
  loop-Kept b [] open_ids h = idle-Kept b open_ids h
  loop-Kept b (r ∷ rs) open_ids h =
      let t = tick N side spread_bps b r in
      let (never, last) = tick-Kept b r open_ids h in
      let more =
        loop-Kept (after_round N side spread_bps t.bot r) rs (after_calls open_ids t.calls)
          (stopped-HoldsLast t.bot r _ last) in
      let rest = run_loop N side spread_bps (after_round N side spread_bps t.bot r) rs in
      if-Kept open_ids b.running (t.calls ++ rest.0, rest.1) ([], b)
        (
          NeverTwo-append open_ids t.calls _ never more.0,
          subst (HoldsLast rest.1) (sym (after_calls-append open_ids t.calls rest.0)) more.1,
        )
        (idle-Kept b open_ids h)

  -- Call an order outstanding when the relayer has answered its submission and has not answered a
  -- cancellation of it since; an answer is acceptance and not execution, and an order whose submission
  -- threw does not count. Whatever happens in the rounds of one run of the bot, which may fail anywhere,
  -- at no moment are two orders outstanding, and in the end none is but the one that the bot remembers.
  -- At the start none is but that one either, and no other run of the same bot is under way.
  pub run-Kept :
      (b : Bot) (rs : List (Round F)) (open_ids : List ℕ) {calls : List (RelayerCall F × Bool)}
      {b' : Bot}
      → HoldsLast b open_ids
      → run N side spread_bps b rs ≡ ok (calls, b')
      → Kept open_ids calls b'
  unfolding run
  run-Kept b rs open_ids {calls} {b'} h e = elim (Bool-cases b.running) [
    | inl t ↦
        let no : ◌≡◌ {A = Result (List (RelayerCall F × Bool) × Bot)}
            (err "quoter is already running") (ok (calls, b')) =
          rw t at e in
        cc
    | inr t ↦
        let same : ok (run_loop N side spread_bps (record b { running = true }) rs)
            ≡ ok (calls, b') =
          rw t at e in
        subst (λ (p : List (RelayerCall F × Bool) × Bot). Kept open_ids p.0 p.1) (ok_injective same)
          (loop-Kept (record b { running = true }) rs open_ids h)
  ]
