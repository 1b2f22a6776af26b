-- ===== src/Streams/Queue/Order.antt =====
-- No frame is lost, repeated or moved: `sseSubscribe` of src/streams.ts.
use fermi_v1_sdk.Base.{
  ℕ, suc, ◌≡◌, ◌≢◌, refl, sym, ◌∙◌, ap, Bool, true, false, List, [], ◌∷◌, ◌++◌, append_assoc,
  append-nil, Option, none, some,
}
use fermi_v1_sdk.Streams.Queue.{
  Outcome, value, ended, failed, State, initial, on_frame, end_outcome, finish, next, Event, frame,
  finished, asked, closed, step, run,
}

absurd_eq : {n : ℕ} {P : Type 0} → n ≢ n → P
absurd_eq h = absurd (h refl)

module _ {F E : Type 0} where
  -- The frames that the consumer was given.
  unfoldable pub given : List (Outcome F E) → List F
  given [] = []
  given (value f ∷ l) = f ∷ given l
  given (ended ∷ l) = given l
  given (failed e ∷ l) = given l

  -- How often the consumer was told that the stream is over.
  unfoldable pub endings : List (Outcome F E) → ℕ
  endings [] = 0
  endings (value f ∷ l) = endings l
  endings (ended ∷ l) = suc (endings l)
  endings (failed e ∷ l) = suc (endings l)

  pub frames_of : Event F E → List F
  frames_of (frame f) = f ∷ []
  frames_of _ = []

  -- The frames that the reader got.
  unfoldable pub produced : List (Event F E) → List F
  unfolding frames_of
  produced [] = []
  produced (e ∷ es) = frames_of e ++ produced es

  given-append : (l m : List (Outcome F E)) → given (l ++ m) ≡ given l ++ given m
  unfolding given
  given-append [] m = refl
  given-append (value f ∷ l) m = ap (λ r. f ∷ r) (given-append l m)
  given-append (ended ∷ l) m = given-append l m
  given-append (failed e ∷ l) m = given-append l m

  endings-value : (l : List (Outcome F E)) (f : F) → endings (l ++ value f ∷ []) ≡ endings l
  unfolding endings
  endings-value [] f = refl
  endings-value (value g ∷ l) f = endings-value l f
  endings-value (ended ∷ l) f = ap suc (endings-value l f)
  endings-value (failed e ∷ l) f = ap suc (endings-value l f)

  -- A consumer waits only while there is neither a frame nor an end.
  record Waits (s : State F E) : Type 0 where
    no_frame : s.waiting ≡ true → s.queue ≡ []
    no_end : s.waiting ≡ true → s.is_done ≡ false

  -- All frames, given or queued.
  abbrev total : State F E → List F
  total s = given s.log ++ s.queue

  end-given : (o : Option E) → given (end_outcome o ∷ []) ≡ []
  unfolding given
  end-given none = refl
  end-given (some e) = refl

  -- One step, from a state taken apart.
  abbrev StepOk : Event F E → State F E → Type 0
  StepOk e s =
      Waits (step e s)
      × (total (step e s) ≡ total s ++ frames_of e)
      × (endings (step e s).log ≢ endings s.log → s.queue ≡ [])

  frame-ok :
      (f : F) (q : List F) (w d : Bool) (er : Option E) (l : List (Outcome F E))
      → (w ≡ true → q ≡ [])
      → (w ≡ true → d ≡ false)
      → StepOk (frame f) (record { queue = q; waiting = w; is_done = d; error = er; log = l })
  unfolding step on_frame frames_of given
  frame-ok f q true d er l hq hd =
      let nil : q ≡ [] = hq refl in
      (
        record { no_frame = λ e. cc; no_end = λ e. cc },
        rw (nil, given-append l (value f ∷ []))
            (append-nil (given l ++ f ∷ []) ∙ ap (λ r. r ++ f ∷ []) (sym (append-nil (given l)))),
        λ h. nil,
      )
  frame-ok f q false d er l hq hd = (
    record { no_frame = λ e. cc; no_end = λ e. cc },
    sym (append_assoc (given l) q (f ∷ [])),
    λ h. absurd_eq h,
  )

  finish-ok :
      (err : Option E) (q : List F) (w d : Bool) (er : Option E) (l : List (Outcome F E))
      → (w ≡ true → q ≡ [])
      → (w ≡ true → d ≡ false)
      → (e : Event F E) → frames_of e ≡ []
      → step e (record { queue = q; waiting = w; is_done = d; error = er; log = l })
        ≡ finish err (record { queue = q; waiting = w; is_done = d; error = er; log = l })
      → StepOk e (record { queue = q; waiting = w; is_done = d; error = er; log = l })
  unfolding finish given
  finish-ok err q w true er l hq hd e none_new same =
      rw (same, none_new)
        (record { no_frame = hq; no_end = hd }, sym (append-nil (given l ++ q)), λ h. absurd_eq h)
  finish-ok err q true false er l hq hd e none_new same =
      let nil : q ≡ [] = hq refl in
      rw (same, none_new)
        (
          record { no_frame = λ e. cc; no_end = λ e. cc },
          rw (nil, given-append l (end_outcome err ∷ []), end-given err)
              (append-nil (given l ++ []) ∙ sym (append-nil (given l ++ []))),
          λ h. nil,
        )
  finish-ok err q false false er l hq hd e none_new same =
      rw (same, none_new)
        (
          record { no_frame = λ e. cc; no_end = λ e. cc },
          sym (append-nil (given l ++ q)),
          λ h. absurd_eq h,
        )

  next-ok :
      (q : List F) (w d : Bool) (er : Option E) (l : List (Outcome F E))
      → (w ≡ true → q ≡ [])
      → (w ≡ true → d ≡ false)
      → StepOk asked (record { queue = q; waiting = w; is_done = d; error = er; log = l })
  unfolding step next frames_of given
  next-ok (f ∷ q) true d er l hq hd = absurd (cons_not_nil (hq refl))
    where
      cons_not_nil : {f : F} {q : List F} → f ∷ q ≡ [] → ⊥
      cons_not_nil h = cc
  next-ok (f ∷ q) false d er l hq hd = (
    record { no_frame = λ e. cc; no_end = λ e. cc },
    rw (given-append l (value f ∷ []))
        (append_assoc (given l) (f ∷ []) q ∙ sym (append-nil (given l ++ f ∷ q))),
    λ h. absurd (h (endings-value l f)),
  )
  next-ok [] w true er l hq hd = (
    record { no_frame = λ e. refl; no_end = hd },
    rw (given-append l (end_outcome er ∷ []), end-given er) refl,
    λ h. refl,
  )
  next-ok [] w false er l hq hd = (
    record { no_frame = λ e. refl; no_end = λ e. refl },
    sym (append-nil (given l ++ [])),
    λ h. refl,
  )

  step-ok : (e : Event F E) (s : State F E) → Waits s → StepOk e s
  step-ok (frame f) s h = frame-ok f s.queue s.waiting s.is_done s.error s.log h.no_frame h.no_end
  step-ok (finished err) s h =
      finish-ok err s.queue s.waiting s.is_done s.error s.log h.no_frame h.no_end (finished err)
        (unfold frames_of in refl) (unfold step in refl)
  step-ok closed s h =
      finish-ok none s.queue s.waiting s.is_done s.error s.log h.no_frame h.no_end closed
        (unfold frames_of in refl) (unfold step in refl)
  step-ok asked s h = next-ok s.queue s.waiting s.is_done s.error s.log h.no_frame h.no_end

  run-ok :
      (es : List (Event F E)) (s : State F E)
      → Waits s
      → Waits (run es s) × (total (run es s) ≡ total s ++ produced es)
  unfolding run produced
  run-ok [] s h = (h, sym (append-nil (total s)))
  run-ok (e ∷ es) s h =
      let (w, t, _) = step-ok e s h in
      let (w', t') = run-ok es (step e s) w in
      (w', t' ∙ rw t (append_assoc (total s) (frames_of e) (produced es)))

  run-snoc :
      (es : List (Event F E)) (e : Event F E) (s : State F E)
      → run (es ++ e ∷ []) s ≡ step e (run es s)
  unfolding run
  run-snoc [] e s = refl
  run-snoc (d ∷ es) e s = run-snoc es e (step d s)

  initial-Waits : Waits initial
  initial-Waits = record { no_frame = λ e. refl; no_end = λ e. refl }

  -- Whatever the order of arrivals, ends and calls of `next`, the frames that the consumer was given,
  -- followed by those that are queued, are those that arrived, in their order, each once.
  pub run-order :
      (es : List (Event F E)) → given (run es initial).log ++ (run es initial).queue ≡ produced es
  unfolding given
  run-order es = (run-ok es initial initial-Waits).1

  -- The consumer is told of an end only after it was given every frame that arrived before.
  pub ends-after-frames :
      (es : List (Event F E)) (e : Event F E)
      → endings (run (es ++ e ∷ []) initial).log ≢ endings (run es initial).log
      → given (run es initial).log ≡ produced es
  ends-after-frames es e h =
      let (w, _) = run-ok es initial initial-Waits in
      let (_, _, ends) = step-ok e (run es initial) w in
      let nil : (run es initial).queue ≡ [] = ends (rw (run-snoc es e initial) at h) in
      sym (append-nil (given (run es initial).log)) ∙ (rw nil at (run-order es))
