-- ===== src/Streams/Tests.antt =====
-- The theorems of src/streams.ts at work on a short stream.
use fermi_v1_sdk.Base.{ℕ, ◌≡◌, ◌≢◌, refl, arith, List, [], ◌∷◌, ◌++◌, Option, none, Text, codes}
use fermi_v1_sdk.Streams.Parser.{no_current, Parser, push, strip_return}
use fermi_v1_sdk.Streams.Parser.Chunks.{push-append}
use fermi_v1_sdk.Streams.Parser.Frames.{push-event_stream, OneLine, event_stream, read_frame}
use fermi_v1_sdk.Streams.Queue.{
  Event, frame, asked, closed, initial, run, step, on_frame, next, finish,
}
use fermi_v1_sdk.Streams.Queue.Order.{run-order, ends-after-frames, given, produced, endings}

-- No text is JSON.
abbrev no_json : Text → Option ℕ
no_json s = none

abbrev start : Parser ℕ no_json
start = record { buf = []; cur = no_current }

push-append_example : push ℕ no_json start (codes "data: a" ++ codes "bc") ≡ (
    let first = push ℕ no_json start (codes "data: a") in
    let second = push ℕ no_json first.1 (codes "bc") in (first.0 ++ second.0, second.1))
push-append_example = push-append ℕ no_json start (codes "data: a") (codes "bc")

tick_OneLine : OneLine (codes "tick")
unfolding strip_return
tick_OneLine = record { unbroken = refl; no_return = refl }

push-event_stream_example :
    push ℕ no_json start (event_stream (codes "tick") (codes "tick") (codes "tick"))
    ≡ (read_frame ℕ no_json (codes "tick") (codes "tick") (codes "tick") ∷ [], start)
push-event_stream_example =
    push-event_stream ℕ no_json (codes "tick") (codes "tick") (codes "tick") tick_OneLine
      tick_OneLine tick_OneLine

-- A frame before the first call, one that is waited for, and the end.
abbrev events : List (Event ℕ ℕ)
events = frame 1 ∷ asked ∷ asked ∷ frame 2 ∷ frame 3 ∷ asked ∷ []

run-order_example : given (run events initial).log ++ (run events initial).queue ≡ produced events
run-order_example = run-order events

one_ending :
    endings (run (events ++ closed ∷ asked ∷ []) initial).log
    ≢ endings (run (events ++ closed ∷ []) initial).log
unfolding endings run step on_frame next finish
one_ending h = omega (arith, h)

ends-after-frames_example :
    given (run (events ++ closed ∷ []) initial).log ≡ produced (events ++ closed ∷ [])
ends-after-frames_example = ends-after-frames (events ++ closed ∷ []) asked one_ending
