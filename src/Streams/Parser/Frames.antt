-- ===== src/Streams/Parser/Frames.antt =====
-- A frame that is written as an event stream is read back: `SseParser` of src/streams.ts.
use fermi_v1_sdk.Base.{
  ℕ, zero, suc, ◌≤◌, ◌≡◌, refl, ◌∙◌, ap, arith, true, false, List, [], ◌∷◌, ◌++◌, Option, none,
  some, Text, codes, text_eq, ◌==◌, length, length-append, all, not,
}
use fermi_v1_sdk.Streams.Parser.{
  newline, Current, no_current, next_line, strip_return, field_and_value, set_current, SseFrame,
  frame_data, flush, frame_of, take_line, Parser, drain, push, join_lines,
}
use fermi_v1_sdk.Streams.Parser.Chunks.{drain-enough, drain-some}

-- A value that one line can carry: no line break, and no carriage return at its end.
pub record OneLine (s : Text) : Type 0 where
  pub unbroken : all (λ c. not (c == newline)) s ≡ true
  pub no_return : strip_return s ≡ s

break_parts :
    (c : ℕ) (s : Text)
    → all (λ c. not (c == newline)) (c ∷ s) ≡ true
    → ((c == newline) ≡ false) × (all (λ c. not (c == newline)) s ≡ true)
break_parts c s h = (ground arith, ground arith)

next_line-unbroken :
    (s rest : Text)
    → all (λ c. not (c == newline)) s ≡ true
    → next_line (s ++ newline ∷ rest) ≡ some (s, rest)
unfolding next_line
next_line-unbroken [] rest h = refl
next_line-unbroken (c ∷ s) rest h =
    let (off, more) = break_parts c s h in rw (off, next_line-unbroken s rest more) refl

-- A line of the stream: the field, a colon, a space and the value.
abbrev pub line_of : Text → Text → Text
line_of key value = key ++ b':' ∷ b' ' ∷ value

-- What a server writes for a frame.
abbrev pub event_stream : Text → Text → Text → Text
event_stream event id content =
    line_of (codes "event") event
    ++ newline
      ∷ (line_of (codes "id") id
          ++ newline ∷ (line_of (codes "data") content ++ newline ∷ newline ∷ []))

strip-space_value : (s : Text) → strip_return s ≡ s → strip_return (b' ' ∷ s) ≡ b' ' ∷ s
unfolding strip_return
strip-space_value [] h = refl
strip-space_value (c ∷ s) h = ap (λ r. b' ' ∷ r) h

module _ (J : Type 0) (parse_json : Text → Option J) where
  abbrev Drained : Type 0
  Drained = List (SseFrame J parse_json) × Parser J parse_json

  -- One line of the buffer, with the fuel that `push` gives.
  drain-line :
      (fuel : ℕ) (cur : Current) (line rest : Text)
      → all (λ c. not (c == newline)) line ≡ true
      → strip_return line ≡ line
      → length (line ++ newline ∷ rest) ≤ fuel
      → drain J parse_json fuel cur (line ++ newline ∷ rest) ≡ (
          let taken = take_line J parse_json cur line in
          let more = drain J parse_json (length rest) taken.1 rest in (taken.0 ++ more.0, more.1))
  drain-line zero cur line rest u n h =
      absurd (omega (arith, length-append {0} line (newline ∷ rest)))
  drain-line (suc fuel) cur line rest u n h =
      let found = next_line-unbroken line rest u in
      let less : length rest ≤ fuel = omega (arith, length-append {0} line (newline ∷ rest)) in
      drain-some J parse_json fuel cur (line ++ newline ∷ rest) (line, rest) found
      ∙ rw
          (
            n,
            drain-enough J parse_json fuel (length rest) (take_line J parse_json cur line).1 rest
                less (omega arith),
          )
          refl

  take-event :
      (cur : Current) (e : Text)
      → take_line J parse_json cur (line_of (codes "event") e)
        ≡ ([], record { event = some e; id = cur.id; lines = cur.lines })
  unfolding take_line field_and_value set_current text_eq
  take-event cur e = refl

  take-id :
      (cur : Current) (i : Text)
      → take_line J parse_json cur (line_of (codes "id") i)
        ≡ ([], record { event = cur.event; id = some i; lines = cur.lines })
  unfolding take_line field_and_value set_current text_eq
  take-id cur i = refl

  take-data :
      (cur : Current) (d : Text)
      → take_line J parse_json cur (line_of (codes "data") d)
        ≡ ([], record { event = cur.event; id = cur.id; lines = cur.lines ++ d ∷ [] })
  unfolding take_line field_and_value set_current text_eq
  take-data cur d = refl

  abbrev pub read_frame : Text → Text → Text → SseFrame J parse_json
  read_frame e i d = record { event = e; id = some i; content = frame_data J parse_json d; raw = d }

  take-blank :
      (e i d : Text)
      → take_line J parse_json (record { event = some e; id = some i; lines = d ∷ [] }) []
        ≡ (read_frame e i d ∷ [], no_current)
  unfolding take_line flush frame_of join_lines
  take-blank e i d = refl

  drain-nothing :
      (cur : Current) → drain J parse_json 0 cur [] ≡ ([], record { buf = []; cur = cur })
  unfolding drain
  drain-nothing cur = refl

  line-step :
      (cur cur' : Current) (line rest : Text) (frames more : List (SseFrame J parse_json))
      (parser : Parser J parse_json)
      → all (λ c. not (c == newline)) line ≡ true
      → strip_return line ≡ line
      → take_line J parse_json cur line ≡ (frames, cur')
      → drain J parse_json (length rest) cur' rest ≡ (more, parser)
      → drain J parse_json (length (line ++ newline ∷ rest)) cur (line ++ newline ∷ rest)
        ≡ (frames ++ more, parser)
  line-step cur cur' line rest frames more parser u n t d =
      drain-line (length (line ++ newline ∷ rest)) cur line rest u n (omega arith) ∙ rw (t, d) refl

  event-kept :
      (e : Text) → OneLine e → strip_return (line_of (codes "event") e) ≡ line_of (codes "event") e
  unfolding strip_return
  event-kept e h = ap (λ r. codes "event" ++ b':' ∷ r) (strip-space_value e h.no_return)

  id-kept : (i : Text) → OneLine i → strip_return (line_of (codes "id") i) ≡ line_of (codes "id") i
  unfolding strip_return
  id-kept i h = ap (λ r. codes "id" ++ b':' ∷ r) (strip-space_value i h.no_return)

  data-kept :
      (d : Text) → OneLine d → strip_return (line_of (codes "data") d) ≡ line_of (codes "data") d
  unfolding strip_return
  data-kept d h = ap (λ r. codes "data" ++ b':' ∷ r) (strip-space_value d h.no_return)

  empty_parser : Parser J parse_json
  empty_parser = record { buf = []; cur = no_current }

  -- A frame whose event, id and data fit on one line each is read back from its event stream: one
  -- frame with that event, that id and that data, and nothing left in the parser.
  pub push-event_stream :
      (e i d : Text)
      → OneLine e
      → OneLine i
      → OneLine d
      → push J parse_json (record { buf = []; cur = no_current }) (event_stream e i d)
        ≡ (read_frame e i d ∷ [], record { buf = []; cur = no_current })
  unfolding push empty_parser
  push-event_stream e i d he hi hd =
      let c1 : Current = record { event = some e; id = none; lines = [] } in
      let c2 : Current = record { event = some e; id = some i; lines = [] } in
      let c3 : Current = record { event = some e; id = some i; lines = d ∷ [] } in
      let third : Text = line_of (codes "data") d ++ newline ∷ newline ∷ [] in
      let second : Text = line_of (codes "id") i ++ newline ∷ third in
      let s4 =
        line-step c3 no_current [] [] (read_frame e i d ∷ []) [] empty_parser refl
          (unfold strip_return in refl) (take-blank e i d) (drain-nothing no_current) in
      let s3 =
        line-step c2 c3 (line_of (codes "data") d) (newline ∷ []) [] (read_frame e i d ∷ [])
          empty_parser hd.unbroken (data-kept d hd) (take-data c2 d) s4 in
      let s2 =
        line-step c1 c2 (line_of (codes "id") i) third [] (read_frame e i d ∷ []) empty_parser
          hi.unbroken (id-kept i hi) (take-id c1 i) s3 in
      line-step no_current c1 (line_of (codes "event") e) second [] (read_frame e i d ∷ [])
        empty_parser he.unbroken (event-kept e he) (take-event no_current e) s2
