-- ===== src/Quoter/Tests.antt =====
-- The bot of src/quoter.ts over rounds that fail in different places. Floats are whole numbers here.
use fermi_v1_sdk.Base.{
  ℕ, ◌+◌, ◌-◌, ◌*◌, ◌/◌, ◌≡◌, inl, refl, Bool, true, false, List, [], ◌∷◌, none, some, Result, ok,
  err, ltb,
}
use fermi_v1_sdk.Intents.{bid}
use fermi_v1_sdk.Quoter.{
  Floats, RelayerCall, cancel_order, submit_order, Bot, Round, run, sleep_ms, get_price,
}
use fermi_v1_sdk.Quoter.OneOrder.{Kept, run-Kept}

abbrev whole_floats : Floats
whole_floats = record {
  F = ℕ;
  of_nat = λ n. n;
  add = λ a b. a + b;
  sub = λ a b. a - b;
  mul = λ a b. a * b;
  div = λ a b. a / b;
  is_positive = λ a. ltb 0 a;
}

abbrev idle : Bot
idle = record { last_client_order_id = none; running = false }

abbrev round : Result (Unit {0}) → Result (Unit {0}) → ℕ → Bool → Round ℕ
round cancelled submitted now stopped = record {
  fair_price = ok 100;
  market_state = ok tt;
  cancelled = cancelled;
  submitted = submitted;
  now = now;
  stopped = stopped;
  elapsed = 5;
}

abbrev rounds : List (Round ℕ)
rounds =
    round (ok tt) (ok tt) 1 false
    ∷ round (err "timeout") (ok tt) 2 false
    ∷ round (ok tt) (err "refused") 3 false
    ∷ round (ok tt) (ok tt) 4 true
    ∷ round (ok tt) (ok tt) 5 false
    ∷ []

abbrev calls : List (RelayerCall ℕ × Bool)
calls =
    (submit_order 1 bid 100, true)
    ∷ (cancel_order 1, false)
    ∷ (cancel_order 1, true)
    ∷ (submit_order 3 bid 100, false)
    ∷ (cancel_order 1, true)
    ∷ (submit_order 4 bid 100, true)
    ∷ []

ran :
    run whole_floats bid 0 idle rounds
    ≡ ok (calls, record { last_client_order_id = some 4; running = false })
unfolding run
ran = refl

run-Kept_example : Kept [] calls (record { last_client_order_id = some 4; running = false })
run-Kept_example = run-Kept whole_floats bid 0 idle rounds [] (inl refl) ran

no_negative_sleep : sleep_ms whole_floats 3 (round (ok tt) (ok tt) 1 false) ≡ 0
unfolding sleep_ms
no_negative_sleep = refl

cached :
    get_price whole_floats 10
      (record { cached_price = some 7; last_fetch_ms = 100 })
      109
      (err "offline")
    ≡ (ok 7, record { cached_price = some 7; last_fetch_ms = 100 })
unfolding get_price
cached = refl
