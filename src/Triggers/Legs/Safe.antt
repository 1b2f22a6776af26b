-- ===== src/Triggers/Legs/Safe.antt =====
-- What a built leg can do to a position: src/triggerOrders.ts.
use fermi_v1_sdk.Base.{
  ℕ, ◌+◌, ◌-◌, ◌*◌, ◌/◌, ◌≤◌, ◌<◌, ◌≡◌, sym, ◌∙◌, arith, Bool, true, false, Option, none, some,
  List, ok, ℤ, pos, Number, whole, other, ap, length, get_elem?, if◌then◌else◌, ok_injective,
  pos_injective,
}
use fermi_v1_sdk.Wire.{big, num, to_big_int, read_u64}
use fermi_v1_sdk.Wire.RoundTrip.{signed}
use fermi_v1_sdk.Platform.{Platform}
use fermi_v1_sdk.Intents.Payload.Layout.{place_order-layout}
use fermi_v1_sdk.Triggers.{stop_loss, take_profit, i64_max, integer, at_or_below, at_or_above}
use fermi_v1_sdk.Triggers.Terms.{TriggerTerms}
use fermi_v1_sdk.Triggers.Legs.{
  SlTpParams, SlTpLeg, LegOptions, is_long, direction_for, check_oracle, default_limit,
  not_marketable, order_fields, build_trigger_order_leg,
}
use fermi_v1_sdk.Triggers.Legs.Built.{build_trigger_order_leg-Built}

big_value : (a : ℤ) {z : ℤ} → to_big_int (big a) ≡ ok z → a ≡ z
unfolding to_big_int
big_value a h = ok_injective h

-- An oracle price that lets a leg be built is one at which the leg does not fire.
oracle_apart :
    (direction price m : ℕ)
    → check_oracle direction (pos price) (some (pos m)) ≡ ok tt
    → (direction ≡ at_or_below → price < m) × (direction ≡ at_or_above → m < price)
unfolding check_oracle integer
oracle_apart direction price m h = (ground arith, ground arith)

-- Where the trigger of a leg stands, seen from the oracle price `m`.
abbrev pub Waits : Bool → ℕ → ℕ → ℕ → Type 0
Waits long kind price m =
    (long ≡ true → kind ≡ stop_loss → price < m)
    × (long ≡ true → kind ≡ take_profit → m < price)
    × (long ≡ false → kind ≡ stop_loss → m < price)
    × (long ≡ false → kind ≡ take_profit → price < m)

waits :
    (long : Bool) (kind price m : ℕ)
    → (direction_for long kind ≡ at_or_below → price < m)
      × (direction_for long kind ≡ at_or_above → m < price)
    → Waits long kind price m
waits long kind price m (below, above) = (ground arith, ground arith, ground arith, ground arith)

marketable_sides :
    (long : Bool) (limit price : ℕ)
    → not_marketable long limit price ≡ false
    → (long ≡ true → limit ≤ price) × (long ≡ false → price ≤ limit)
marketable_sides long limit price h = (ground arith, ground arith)

int_of : ℤ → Number → ℤ
int_of d (whole z) = z
int_of d (other t) = d

num_value : (n : ℕ) {z : ℤ} → to_big_int (num (whole (pos n))) ≡ ok z → pos n ≡ z
unfolding to_big_int
num_value n h = ground arith

whole_injective : {a b : ℤ} → whole a ≡ whole b → a ≡ b
unfolding int_of
whole_injective {a} h = ap (int_of a) h

slip_down : (a limit : ℕ) → a / 10000 ≡ limit → (limit * 10000 ≤ a) × (a < limit * 10000 + 10000)
slip_down a limit h = (omega arith, omega arith)

slip_up :
    (a limit : ℕ) → (a + 9999) / 10000 ≡ limit → (a ≤ limit * 10000) × (limit * 10000 < a + 10000)
slip_up a limit h = (omega arith, omega arith)

-- A limit within one lot of the trigger moved by the slippage, on the nearer side.
abbrev pub Slipped : Bool → ℕ → ℕ → ℕ → Type 0
Slipped long price limit bps =
    (long ≡ true
      → (limit * 10000 ≤ price * (10000 - bps)) × (price * (10000 - bps) < limit * 10000 + 10000))
    × (long ≡ false
        → (price * (10000 + bps) ≤ limit * 10000) × (limit * 10000 < price * (10000 + bps) + 10000))

slipped :
    (long : Bool) (price limit bps : ℕ)
    → pos (default_limit long price bps) ≡ pos limit
    → Slipped long price limit bps
slipped true price limit bps h =
    (λ e. slip_down (price * (10000 - bps)) limit (pos_injective h), λ e. cc)
slipped false price limit bps h =
    (λ e. cc, λ e. slip_up (price * (10000 + bps)) limit (pos_injective h))

module _ (W : Platform) where
  open W use {PublicKey}

  pub record SafeLeg (params : SlTpParams PublicKey) (kind : ℕ) (trigger : ℤ)
      (leg : SlTpLeg PublicKey) : Type 0 where
    pub price : ℕ
    pub limit : ℕ
    pub trigger_eq : trigger ≡ pos price
    pub size : length leg.payload ≡ 49
    pub side : get_elem? leg.payload 4 ≡ some (if is_long params.position then 1 else 0)
    pub immediate : get_elem? leg.payload 37 ≡ some 1
    pub reduce_only : get_elem? leg.payload 39 ≡ some 1
    pub limit_written : signed (read_u64 leg.payload 5) ≡ pos limit
    pub limit_positive : 1 ≤ limit
    pub limit_fits : limit ≤ i64_max
    pub marketable :
        (is_long params.position ≡ true → limit ≤ price)
        × (is_long params.position ≡ false → price ≤ limit)
    pub id_written : leg.client_order_id ≡ pos (read_u64 leg.payload 29)
    pub id_nonzero : 1 ≤ read_u64 leg.payload 29
    pub expiry_written : leg.terms.expiry_ts ≡ pos (read_u64 leg.payload 40)
    pub waits :
        (m : ℕ)
        → params.oracle_price_lots ≡ some (pos m)
        → Waits (is_long params.position) kind price m

  -- A built leg is a reduce-only, immediate-or-cancel order on the side that closes the position; its
  -- limit is a positive i64 that is marketable at the trigger; the payload carries the limit, the
  -- expiry and the client order id of the leg, which is not zero; and at a given oracle price the
  -- trigger is still ahead: below it for the stop loss of a long and the take profit of a short,
  -- above it otherwise.
  pub built_leg-SafeLeg :
      (params : SlTpParams PublicKey) (kind : ℕ) (trigger : ℤ) (options : LegOptions)
      (draws : List ℕ) {r : SlTpLeg PublicKey × List ℕ}
      → build_trigger_order_leg W params kind trigger options draws ≡ ok r
      → SafeLeg params kind trigger r.0
  built_leg-SafeLeg params kind trigger options draws {r} h =
      let b = build_trigger_order_leg-Built W params kind trigger options draws h in
      let long : Bool = is_long params.position in
      let l =
        place_order-layout (order_fields long b.prices.1 params.size b.id b.expiry) b.payload_eq in
      let id : b.id ≡ read_u64 r.0.payload 29 = pos_injective (big_value (pos b.id) l.id) in
      record {
        price = b.prices.0;
        limit = b.prices.1;
        trigger_eq = b.checked.trigger_eq;
        size = l.size;
        side = l.side ∙ ground arith;
        immediate = l.type;
        reduce_only = l.reduce;
        limit_written = sym (big_value (pos b.prices.1) l.price);
        limit_positive = b.checked.limit_positive;
        limit_fits = b.checked.limit_fits;
        marketable = marketable_sides long b.prices.1 b.prices.0 b.checked.marketable;
        id_written = rw (← id) b.id_eq;
        id_nonzero = rw (← id) b.id_nonzero;
        expiry_written =
            ap (λ (t : TriggerTerms). t.expiry_ts) b.terms_eq
            ∙ b.expiry_eq
            ∙ num_value b.expiry l.expiry;
        waits = λ m e. waits long kind b.prices.0 m (
            oracle_apart (direction_for long kind) b.prices.0 m
              (rw (e, b.checked.trigger_eq) at b.checked.oracle));
      }

  -- Without a limit of the caller's, the limit is the trigger moved by the slippage: rounded down
  -- for an ask, and up for a bid, so that it is never beyond one lot of the exact price.
  pub default_limit-slippage :
      (params : SlTpParams PublicKey) (kind : ℕ) (trigger : ℤ) (oco salt : Option ℤ)
      (draws : List ℕ) (bps : ℕ) {r : SlTpLeg PublicKey × List ℕ}
      → params.slippage_bps ≡ whole (pos bps)
      → build_trigger_order_leg W params kind trigger
          (record { oco_group = oco; salt = salt; limit_price_lots = none })
          draws
        ≡ ok r
      → (price limit : ℕ) × (trigger ≡ pos price)
        × (signed (read_u64 r.0.payload 5) ≡ pos limit)
        × Slipped (is_long params.position) price limit bps
  default_limit-slippage params kind trigger oco salt draws bps {r} eb h =
      let options : LegOptions = record { oco_group = oco; salt = salt; limit_price_lots = none } in
      let b = build_trigger_order_leg-Built W params kind trigger options draws h in
      let l =
        place_order-layout
          (order_fields (is_long params.position) b.prices.1 params.size b.id b.expiry)
          b.payload_eq in
      let same : bps ≡ b.checked.bps =
        pos_injective (whole_injective (sym eb ∙ b.checked.bps_eq)) in
      (
        b.prices.0,
        b.prices.1,
        b.checked.trigger_eq,
        sym (big_value (pos b.prices.1) l.price),
        slipped (is_long params.position) b.prices.0 b.prices.1 bps (rw same b.checked.limit_eq),
      )
