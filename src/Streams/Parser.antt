-- ===== src/Streams/Parser.antt =====
-- `SseParser` of src/streams.ts. A chunk is a text: what `TextDecoder` makes of the bytes so far.
pub mod Chunks
pub mod Frames
use fermi_v1_sdk.Base.{
  ℕ, zero, suc, Bool, true, false, ◌&&◌, ◌||◌, List, [], ◌∷◌, ◌++◌, Option, none, some, Text, codes,
  text_eq, if◌then◌else◌, ◌==◌, length,
}

abbrev pub newline : ℕ
newline = 10

abbrev pub carriage_return : ℕ
carriage_return = 13

-- `this.cur`
pub record Current : Type 0 where
  pub event : Option Text
  pub id : Option Text
  pub lines : List Text

abbrev pub no_current : Current
no_current = record { event = none; id = none; lines = [] }

abbrev pub is_nil : List Text → Bool
is_nil [] = true
is_nil (s ∷ rest) = false

abbrev pub is_unset : Option Text → Bool
is_unset none = true
is_unset (some s) = false

-- The text up to the first line break, and the text behind it: `indexOf('\n')` and the two slices.
unfoldable pub next_line : Text → Option (Text × Text)
next_line [] = none
next_line (c ∷ s) =
    if c == newline
    then some ([], s)
    else elim (next_line s) [ none ↦ none | some (line, rest) ↦ some (c ∷ line, rest) ]

-- `.replace(/\r$/, '')`
unfoldable pub strip_return : Text → Text
strip_return [] = []
strip_return (c ∷ []) = if c == carriage_return then [] else c ∷ []
strip_return (c ∷ d ∷ s) = c ∷ strip_return (d ∷ s)

-- The field of a line and its value, less one leading space.
abbrev pub strip_space : Text → Text
strip_space [] = []
strip_space (c ∷ s) = if c == b' ' then s else c ∷ s

unfoldable pub field_and_value : Text → Text × Text
field_and_value [] = ([], [])
field_and_value (c ∷ s) =
    let rest = field_and_value s in if c == b':' then ([], strip_space s) else (c ∷ rest.0, rest.1)

unfoldable pub set_current : Current → Text × Text → Current
set_current cur (key, value) =
    if text_eq key (codes "event")
    then record { event = some value; id = cur.id; lines = cur.lines }
    else if text_eq key (codes "id")
    then record { event = cur.event; id = some value; lines = cur.lines }
    else if text_eq key (codes "data")
    then record { event = cur.event; id = cur.id; lines = cur.lines ++ value ∷ [] }
    else cur

-- `data.join('\n')`
unfoldable pub join_lines : List Text → Text
join_lines [] = []
join_lines (s ∷ []) = s
join_lines (s ∷ t ∷ rest) = s ++ newline ∷ join_lines (t ∷ rest)

abbrev pub is_nothing : Current → Bool
is_nothing cur = is_nil cur.lines && (is_unset cur.event && is_unset cur.id)

-- `JSON.parse`, or none where it throws
module _ (J : Type 0) (parse_json : Text → Option J) where
  pub data FrameData : Type 0 where
    json : J → FrameData
    text : Text → FrameData

  pub record SseFrame : Type 0 where
    pub event : Text
    pub id : Option Text
    pub content : FrameData
    pub raw : Text

  abbrev pub parsed_or : Option J → Text → FrameData
  parsed_or none raw = text raw
  parsed_or (some j) raw = json j

  unfoldable pub frame_data : Text → FrameData
  frame_data [] = text []
  frame_data (c ∷ s) =
      if c == b'{' || c == b'[' then parsed_or (parse_json (c ∷ s)) (c ∷ s) else text (c ∷ s)

  abbrev pub event_or_message : Option Text → Text
  event_or_message none = codes "message"
  event_or_message (some e) = e

  unfoldable pub frame_of : Current → SseFrame
  unfolding frame_data join_lines
  frame_of cur = record {
    event = event_or_message cur.event;
    id = cur.id;
    content = frame_data (join_lines cur.lines);
    raw = join_lines cur.lines;
  }

  -- `flush`; with nothing set there is no frame
  unfoldable pub flush : Current → List SseFrame
  flush cur = if is_nothing cur then [] else frame_of cur ∷ []

  -- One round of the loop: the frames of a line, and what is current behind it.
  unfoldable pub take_line : Current → Text → List SseFrame × Current
  unfolding flush set_current field_and_value
  take_line cur [] = (flush cur, no_current)
  take_line cur (c ∷ s) = ([], if c == b':' then cur else set_current cur (field_and_value (c ∷ s)))

  pub record Parser : Type 0 where
    pub buf : Text
    pub cur : Current

  -- The loop, on fuel: each round takes at least the line break off the buffer.
  unfoldable pub drain : ℕ → Current → Text → List SseFrame × Parser
  unfolding next_line strip_return take_line
  drain zero cur buf = ([], record { buf = buf; cur = cur })
  drain (suc fuel) cur buf = elim (next_line buf) [
    | none ↦ ([], record { buf = buf; cur = cur })
    | some (line, rest) ↦
        let taken = take_line cur (strip_return line) in
        let more = drain fuel taken.1 rest in (taken.0 ++ more.0, more.1)
  ]

  unfoldable pub push : Parser → Text → List SseFrame × Parser
  unfolding drain
  push parser chunk = drain (length (parser.buf ++ chunk)) parser.cur (parser.buf ++ chunk)
