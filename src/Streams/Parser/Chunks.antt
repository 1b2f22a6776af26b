-- ===== src/Streams/Parser/Chunks.antt =====
-- The parser does not depend on how the text was cut into chunks: `SseParser` of src/streams.ts.
use fermi_v1_sdk.Base.{
  ℕ, zero, suc, ◌≤◌, ◌<◌, ◌≡◌, inl, inr, refl, sym, ◌∙◌, ap, arith, List, [], ◌∷◌, ◌++◌,
  append_assoc, Option, none, some, Text, ◌==◌, length, length-append, Bool-cases, Option-cases,
  some_injective, subst,
}
use fermi_v1_sdk.Streams.Parser.{
  newline, Current, next_line, strip_return, SseFrame, take_line, Parser, drain, push,
}

-- A line that was found ends with a line break, and is found again when more text follows.
Found : Text → Text × Text → Type 0
Found buf r =
    (length r.1 < length buf) × ((more : Text) → next_line (buf ++ more) ≡ some (r.0, r.1 ++ more))

next_line-Found : (buf : Text) {r : Text × Text} → next_line buf ≡ some r → Found buf r
unfolding next_line Found
next_line-Found [] h = cc
next_line-Found (c ∷ s) {r} h = elim (Bool-cases (c == newline)) [
  | inl e ↦
      subst (λ (r : Text × Text). Found (c ∷ s) r) (some_injective (rw e at h))
        (omega arith, λ more. rw e refl)
  | inr e ↦ elim (Option-cases (next_line s)) [
    | inl n ↦ let bad : none ≡ some r = rw (e, n) at h in cc
    | inr (a, f) ↦
        let (lt, again) = next_line-Found s f in
        subst (λ (r : Text × Text). Found (c ∷ s) r) (some_injective (rw (e, f) at h))
          (omega arith, λ more. rw (e, again more) refl)
  ]
]

module _ (J : Type 0) (parse_json : Text → Option J) where
  abbrev pub Drained : Type 0
  Drained = List (SseFrame J parse_json) × Parser J parse_json

  drain-none :
      (fuel : ℕ) (cur : Current) (buf : Text)
      → next_line buf ≡ none
      → drain J parse_json fuel cur buf ≡ ([], record { buf = buf; cur = cur })
  unfolding drain
  drain-none zero cur buf h = refl
  drain-none (suc fuel) cur buf h = rw (h, drain) refl

  -- The rest of the loop, behind a line that was taken.
  abbrev pub continued : Current → Text → (Current → Text → Drained) → Text → Drained
  continued cur line loop rest =
      let taken = take_line J parse_json cur (strip_return line) in
      let more = loop taken.1 rest in (taken.0 ++ more.0, more.1)

  pub drain-some :
      (fuel : ℕ) (cur : Current) (buf : Text) (r : Text × Text)
      → next_line buf ≡ some r
      → drain J parse_json (suc fuel) cur buf ≡ continued cur r.0 (drain J parse_json fuel) r.1
  unfolding drain
  drain-some fuel cur buf r h = rw (h, drain) refl

  empty_line : (buf : Text) → length buf ≤ 0 → next_line buf ≡ none
  unfolding next_line
  empty_line [] h = refl
  empty_line (c ∷ s) h = absurd (omega arith)

  -- Fuel for every unit of the buffer is enough.
  pub drain-enough :
      (f g : ℕ) (cur : Current) (buf : Text)
      → length buf ≤ f
      → length buf ≤ g
      → drain J parse_json f cur buf ≡ drain J parse_json g cur buf
  drain-enough zero g cur buf hf hg =
      let n = empty_line buf hf in drain-none 0 cur buf n ∙ sym (drain-none g cur buf n)
  drain-enough (suc f) zero cur buf hf hg =
      let n = empty_line buf hg in drain-none (suc f) cur buf n ∙ sym (drain-none 0 cur buf n)
  drain-enough (suc f) (suc g) cur buf hf hg = elim (Option-cases (next_line buf)) [
    | inl n ↦ drain-none (suc f) cur buf n ∙ sym (drain-none (suc g) cur buf n)
    | inr (r, e) ↦
        let shorter : length r.1 < length buf = (unfold Found in (next_line-Found buf e).0) in
        drain-some f cur buf r e
        ∙ ap (λ (m : Drained). ((take_line J parse_json cur (strip_return r.0)).0 ++ m.0, m.1))
            (drain-enough f g (take_line J parse_json cur (strip_return r.0)).1 r.1 (omega arith)
              (omega arith))
        ∙ sym (drain-some g cur buf r e)
  ]

  drain-shorter :
      (f : ℕ) (cur : Current) (buf : Text)
      → length (drain J parse_json f cur buf).1.buf ≤ length buf
  drain-shorter zero cur buf = unfold drain in omega arith
  drain-shorter (suc f) cur buf = elim (Option-cases (next_line buf)) [
    | inl n ↦ rw (drain-none (suc f) cur buf n) (omega arith)
    | inr (r, e) ↦
        let shorter : length r.1 < length buf = (unfold Found in (next_line-Found buf e).0) in
        let ih = drain-shorter f (take_line J parse_json cur (strip_return r.0)).1 r.1 in
        rw (drain-some f cur buf r e) (omega arith)
  ]

  -- The loop over a longer text: first what the shorter one gives, then the rest.
  abbrev resumed : ℕ → Drained → Text → Drained
  resumed g d more = let t = drain J parse_json g d.1.cur (d.1.buf ++ more) in (d.0 ++ t.0, t.1)

  drain-append :
      (f g : ℕ) (cur : Current) (xs ys : Text)
      → length xs ≤ f
      → length (xs ++ ys) ≤ g
      → drain J parse_json g cur (xs ++ ys) ≡ resumed g (drain J parse_json f cur xs) ys
  drain-append zero g cur xs ys hf hg = rw (drain-none 0 cur xs (empty_line xs hf)) refl
  drain-append (suc f) zero cur xs ys hf hg =
      let n = empty_line xs (omega (arith, length-append {0} xs ys)) in
      rw (drain-none (suc f) cur xs n) refl
  drain-append (suc f) (suc g) cur xs ys hf hg = elim (Option-cases (next_line xs)) [
    | inl n ↦ rw (drain-none (suc f) cur xs n) refl
    | inr (r, e) ↦
        let shorter : length r.1 < length xs = (unfold Found in (next_line-Found xs e).0) in
        let again : (more : Text) → next_line (xs ++ more) ≡ some (r.0, r.1 ++ more) =
          (unfold Found in (next_line-Found xs e).1) in
        let cur' : Current = (take_line J parse_json cur (strip_return r.0)).1 in
        let fits : length (r.1 ++ ys) ≤ g =
          omega (arith, length-append {0} xs ys, length-append {0} r.1 ys) in
        let ih = drain-append f g cur' r.1 ys (omega arith) fits in
        let d : Drained = drain J parse_json f cur' r.1 in
        let less : length (d.1.buf ++ ys) ≤ g = omega (
          arith,
          fits,
          length-append {0} d.1.buf ys,
          length-append {0} r.1 ys,
          drain-shorter f cur' r.1,
        ) in
        let t : Drained = drain J parse_json g d.1.cur (d.1.buf ++ ys) in
        let first = (take_line J parse_json cur (strip_return r.0)).0 in
        drain-some g cur (xs ++ ys) (r.0, r.1 ++ ys) (again ys)
        ∙ ap (λ (m : Drained). (first ++ m.0, m.1)) ih
        ∙ ap (λ l. (l, t.1)) (sym (append_assoc first d.0 t.0))
        ∙ ap (λ (m : Drained). ((first ++ d.0) ++ m.0, m.1))
            (drain-enough g (suc g) d.1.cur (d.1.buf ++ ys) less (omega arith))
        ∙ ap (λ m. resumed (suc g) m ys) (sym (drain-some f cur xs r e))
  ]

  -- Text that arrives in two chunks gives the frames, in their order, and the state that it gives
  -- when it arrives in one.
  pub push-append :
      (parser : Parser J parse_json) (xs ys : Text)
      → push J parse_json parser (xs ++ ys) ≡ (
          let first = push J parse_json parser xs in
          let second = push J parse_json first.1 ys in (first.0 ++ second.0, second.1))
  unfolding push
  push-append parser xs ys =
      let b : Text = parser.buf ++ xs in
      let d : Drained = drain J parse_json (length b) parser.cur b in
      let less : length (d.1.buf ++ ys) ≤ length (b ++ ys) = omega (
        arith,
        length-append {0} d.1.buf ys,
        length-append {0} b ys,
        drain-shorter (length b) parser.cur b,
      ) in
      ap (λ t. drain J parse_json (length t) parser.cur t) (sym (append_assoc parser.buf xs ys))
      ∙ drain-append (length b) (length (b ++ ys)) parser.cur b ys (omega arith) (omega arith)
      ∙ ap (λ (m : Drained). (d.0 ++ m.0, m.1))
          (drain-enough (length (b ++ ys)) (length (d.1.buf ++ ys)) d.1.cur (d.1.buf ++ ys) less
            (omega arith))
