-- ===== src/Quoter.antt =====
-- src/quoter.ts: the bot that replaces its quote round by round, and its price source. Floating-point numbers
-- are a parameter with their operations; the calls over the network are inputs with their outcomes.
pub mod OneOrder
mod Tests
use fermi_v1_sdk.Base.{
  ℕ, ◌+◌, ◌-◌, Bool, true, false, not, ◌&&◌, List, [], ◌∷◌, ◌++◌, Option, none, some, Result, ok,
  err, ◌==◌, ltb, if◌then◌else◌,
}
use fermi_v1_sdk.Intents.{Side, bid, ask}

pub record Floats : Type 1 where
  pub F : Type 0
  pub of_nat : ℕ → F
  pub add : F → F → F
  pub sub : F → F → F
  pub mul : F → F → F
  pub div : F → F → F
  -- `Number.isFinite(price) && price > 0`
  pub is_positive : F → Bool

-- A call to the relayer: an order with its client order id, or the cancellation of one.
pub data RelayerCall (F : Type 0) : Type 0 where
  cancel_order : ℕ → RelayerCall F
  submit_order : ℕ → Side → F → RelayerCall F

pub record Bot : Type 0 where
  pub last_client_order_id : Option ℕ
  pub running : Bool

-- What the outside world does during one round of `run`.
pub record Round (F : Type 0) : Type 0 where
  pub fair_price : Result F
  pub market_state : Result (Unit {0})
  pub cancelled : Result (Unit {0})
  pub submitted : Result (Unit {0})
  pub now : ℕ
  pub stopped : Bool
  pub elapsed : ℕ

-- How a round went: what was called, each with its outcome, and the bot after it.
pub record Ticked (F : Type 0) : Type 0 where
  pub calls : List (RelayerCall F × Bool)
  pub bot : Bot
  pub failure : Bool

abbrev pub succeeded {ℓ} : {A : Type ℓ} → Result A → Bool
succeeded (ok a) = true
succeeded (err e) = false

module _ (N : Floats) where
  open N use {F, of_nat, add, sub, mul, div, is_positive}

  unfoldable pub compute_quote_price : Side → F → F → F
  compute_quote_price bid spread_bps fair =
      mul fair (sub (of_nat 1) (div spread_bps (of_nat 10000)))
  compute_quote_price ask spread_bps fair =
      mul fair (add (of_nat 1) (div spread_bps (of_nat 10000)))

  module _ (side : Side) (spread_bps : F) where
    -- The end of `tick`, once the last order is cancelled: an id is kept only for an accepted order.
    unfoldable pub submit_quote : Bot → List (RelayerCall F × Bool) → F → Round F → Ticked F
    unfolding compute_quote_price
    submit_quote b calls fair r = record {
      calls =
          calls
          ++ (
            submit_order r.now side (compute_quote_price side spread_bps fair),
            succeeded r.submitted,
          )
            ∷ [];
      bot = record b {
        last_client_order_id = if succeeded r.submitted then some r.now else b.last_client_order_id;
      };
      failure = not (succeeded r.submitted);
    }

    unfoldable pub cancel_last : Bot → F → Round F → Ticked F
    unfolding submit_quote
    cancel_last b fair r = elim b.last_client_order_id [
      | none ↦ submit_quote b [] fair r
      | some id ↦
          if succeeded r.cancelled
          then submit_quote b ((cancel_order id, true) ∷ []) fair r
          else record { calls = (cancel_order id, false) ∷ []; bot = b; failure = true }
    ]

    unfoldable pub tick : Bot → Round F → Ticked F
    unfolding cancel_last
    tick b r = elim r.fair_price [
      | err e ↦ record { calls = []; bot = b; failure = true }
      | ok fair ↦
          if succeeded r.market_state
          then cancel_last b fair r
          else record { calls = []; bot = b; failure = true }
    ]

    -- `stop` may come during a round, and takes effect at its end.
    abbrev pub after_round : Bot → Round F → Bot
    after_round b r = if r.stopped then record b { running = false } else b

    -- The loop of `run` over the rounds that the world has in store: a failed tick is logged only.
    unfoldable pub run_loop : Bot → List (Round F) → List (RelayerCall F × Bool) × Bot
    unfolding tick
    run_loop b [] = ([], b)
    run_loop b (r ∷ rs) =
        let t = tick b r in
        let rest = run_loop (after_round t.bot r) rs in
        if b.running then (t.calls ++ rest.0, rest.1) else ([], b)

    -- A call of `run` while no loop is under way. In the code a `stop` and a `run` during a loop's sleep
    -- leave that loop running beside the new one; such loops side by side are not modelled.
    unfoldable pub run : Bot → List (Round F) → Result (List (RelayerCall F × Bool) × Bot)
    unfolding run_loop
    run b rs =
        if b.running
        then err "quoter is already running"
        else ok (run_loop (record b { running = true }) rs)

  -- `Math.max(0, intervalMs - elapsed)`
  unfoldable pub sleep_ms : ℕ → Round F → ℕ
  sleep_ms interval_ms r = interval_ms - r.elapsed

  -- `CoinGeckoFairPriceProvider`
  pub record PriceCache : Type 0 where
    pub cached_price : Option F
    pub last_fetch_ms : ℕ

  -- The answer to a request: its status, and the price that stands in its body, if one does.
  pub record PriceReply : Type 0 where
    pub is_ok : Bool
    pub price : Option F

  unfoldable pub fetch_price : PriceCache → ℕ → Result PriceReply → Result F × PriceCache
  fetch_price c now (err e) = (err e, c)
  fetch_price c now (ok reply) = elim reply.is_ok [
    | false ↦ (err "coingecko request failed", c)
    | true ↦ elim reply.price [
      | none ↦ (err "coingecko returned an invalid fair price", c)
      | some price ↦
          if is_positive price
          then (ok price, record { cached_price = some price; last_fetch_ms = now })
          else (err "coingecko returned an invalid fair price", c)
    ]
  ]

  unfoldable pub get_price : ℕ → PriceCache → ℕ → Result PriceReply → Result F × PriceCache
  unfolding fetch_price
  get_price refresh_ms c now reply = elim c.cached_price [
    | none ↦ fetch_price c now reply
    | some price ↦
        if ltb now (c.last_fetch_ms + refresh_ms) then (ok price, c) else fetch_price c now reply
  ]
