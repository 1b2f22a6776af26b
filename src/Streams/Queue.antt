-- ===== src/Streams/Queue.antt =====
-- The queue between the reader of a response and its consumer: `sseSubscribe` of src/streams.ts.
pub mod Order
use fermi_v1_sdk.Base.{ℕ, Bool, true, false, List, [], ◌∷◌, ◌++◌, Option, none, some, if◌then◌else◌}

-- How a call of `next` ends.
pub data Outcome (F E : Type 0) : Type 0 where
  value : F → Outcome F E
  ended : Outcome F E
  failed : E → Outcome F E

-- `queue`, `waiter`, `done` and `error`; the log holds the outcomes so far, in their order.
pub record State (F E : Type 0) : Type 0 where
  pub queue : List F
  pub waiting : Bool
  pub is_done : Bool
  pub error : Option E
  pub log : List (Outcome F E)

module _ {F E : Type 0} where
  abbrev pub initial : State F E
  initial = record { queue = []; waiting = false; is_done = false; error = none; log = [] }

  -- A promise that the consumer waits for is answered, and nothing waits any longer.
  abbrev pub answer : Outcome F E → State F E → State F E
  answer o s = record {
    queue = s.queue;
    waiting = false;
    is_done = s.is_done;
    error = s.error;
    log = s.log ++ o ∷ [];
  }

  -- The reader has a frame: it goes to the waiting consumer, or into the queue.
  unfoldable pub on_frame : F → State F E → State F E
  on_frame f s = if s.waiting then answer (value f) s else record {
    queue = s.queue ++ f ∷ [];
    waiting = false;
    is_done = s.is_done;
    error = s.error;
    log = s.log;
  }

  abbrev pub end_outcome : Option E → Outcome F E
  end_outcome none = ended
  end_outcome (some e) = failed e

  abbrev pub mark_done : Option E → State F E → State F E
  mark_done err s = record {
    queue = s.queue;
    waiting = s.waiting;
    is_done = true;
    error = err;
    log = s.log;
  }

  -- `finish(err)`: the first call counts
  unfoldable pub finish : Option E → State F E → State F E
  finish err s =
      if s.is_done
      then s
      else if s.waiting
      then answer (end_outcome err) (mark_done err s)
      else mark_done err s

  abbrev pub next_from : List F → State F E → State F E
  next_from (f ∷ q) s = record {
    queue = q;
    waiting = s.waiting;
    is_done = s.is_done;
    error = s.error;
    log = s.log ++ value f ∷ [];
  }
  next_from [] s =
      if s.is_done
      then record {
        queue = [];
        waiting = s.waiting;
        is_done = true;
        error = s.error;
        log = s.log ++ end_outcome s.error ∷ [];
      }
      else record { queue = []; waiting = true; is_done = false; error = s.error; log = s.log }

  -- `next()`: the head of the queue, the end, or a wait
  unfoldable pub next : State F E → State F E
  next s = next_from s.queue s

-- What can happen next, in any order; `close()` and `return()` abort the request and finish.
pub data Event (F E : Type 0) : Type 0 where
  frame : F → Event F E
  finished : Option E → Event F E
  asked : Event F E
  closed : Event F E

module _ {F E : Type 0} where
  unfoldable pub step : Event F E → State F E → State F E
  unfolding on_frame finish next
  step (frame f) s = on_frame f s
  step (finished err) s = finish err s
  step asked s = next s
  step closed s = finish none s

  unfoldable pub run : List (Event F E) → State F E → State F E
  unfolding step
  run [] s = s
  run (e ∷ es) s = run es (step e s)
