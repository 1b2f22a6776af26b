-- ===== src/Trading/Asked.antt =====
-- What the payload of an order or a cancellation of src/trading.ts must hold, byte by byte.
use fermi_v1_sdk.Base.{
  ℕ, ◌≤◌, ◌≡◌, ◌⊎◌, inl, inr, refl, sym, ap, subst, ◌∙◌, Bool, true, false, [], ◌∷◌, Option, none,
  some, ok, ℤ, pos, Number, whole, length, get_elem?, if◌then◌else◌, from_bind, ok_injective,
  Bool-cases,
}
use fermi_v1_sdk.Wire.{
  Bytes, BigNumberish, big, num, to_big_int, u16_to_le, u64_to_le, u8, u64_max, le_bytes, read_u64,
}
use fermi_v1_sdk.Wire.RoundTrip.{signed, u64_to_le-Wrote}
use fermi_v1_sdk.Platform.{Platform}
use fermi_v1_sdk.Intents.{
  Side, bid, ask, post_only_slide, decrement_take, order_type_to_u8, self_trade_behavior_to_u8,
  side_to_u8,
}
use fermi_v1_sdk.Intents.Payload.{
  encode_perp_place_order_v2, encode_perp_cancel_order_by_client_order_id,
  encode_perp_cancel_all_orders, encode_queue_payload_v1,
}
use fermi_v1_sdk.Intents.Payload.Layout.{place_order-layout, u8_value, u8_byte}
use fermi_v1_sdk.Intents.WithIntent.{or_else}
use fermi_v1_sdk.Context.{PerpMarket}
use fermi_v1_sdk.Trading.{
  MarketLots, SubmitPerpOrderParams, TradingCall, place, cancel, cancel_all, payload_of,
  order_fields, ui_price_to_lots_for_side, max_quote_lots, TradingContext,
}

-- A given value, or the default.
abbrev pub chosen {ℓ} : {A : Type ℓ} → Option A → A → A
chosen none d = d
chosen (some a) d = a

or_else-chosen {ℓ} : {A : Type ℓ} (o : Option A) (d : A) → or_else o d ≡ chosen o d
or_else-chosen none d = refl
or_else-chosen (some a) d = refl

-- The price in lots: by the conversion for the side if there is one, and else a bid's by the plain
-- conversion and an ask's by the one that rounds up, if there is one.
abbrev pub price_asked :
    {F : Type 0} → Option (F → Side → ℤ) → Option (F → ℤ) → (F → ℤ) → F → Side → ℤ
price_asked (some for_side) up lots price side = for_side price side
price_asked none up lots price bid = lots price
price_asked none none lots price ask = lots price
price_asked none (some up) lots price ask = up price

price-asked :
    {F : Type 0} (f : Option (F → Side → ℤ)) (up : Option (F → ℤ)) (lots : F → ℤ) (price : F)
    (side : Side)
    → elim f [
      | some for_side ↦ for_side price side
      | none ↦ elim side [
        | bid ↦ lots price
        | ask ↦ elim up [ some round_up ↦ round_up price | none ↦ lots price ]
      ]
    ]
      ≡ price_asked f up lots price side
price-asked (some for_side) up lots price side = refl
price-asked none up lots price bid = refl
price-asked none none lots price ask = refl
price-asked none (some up) lots price ask = refl

-- The most quote lots: those of a quantity that is given and not zero, else the largest i64.
abbrev pub QuoteAsked : {F : Type 0} → (F → Bool) → (F → ℤ) → Option F → ℤ → Type 0
QuoteAsked is_zero lots none z = z ≡ pos 9223372036854775807
QuoteAsked is_zero lots (some q) z =
    ((is_zero q ≡ true) × (z ≡ pos 9223372036854775807)) ⊎ ((is_zero q ≡ false) × (z ≡ lots q))

quote-asked :
    {F : Type 0} (is_zero : F → Bool) (m : MarketLots F) (o : Option F)
    → QuoteAsked is_zero m.ui_quote_to_lots o (max_quote_lots is_zero m o)
quote-asked is_zero m none = refl
quote-asked is_zero m (some q) = elim (Bool-cases (is_zero q)) [
  | inl t ↦ inl (t, rw t refl)
  | inr f ↦ inr (f, rw f refl)
]

abbrev pub side_number : Side → ℕ
side_number bid = 0
side_number ask = 1

side-number : (s : Side) → side_to_u8 s ≡ side_number s
side-number bid = refl
side-number ask = refl

-- The 49 bytes of an order, read at their places.
pub record OrderAsked {F : Type 0} (is_zero : F → Bool) (m : MarketLots F)
    (p : SubmitPerpOrderParams F) (random : ℤ) (bytes : Bytes) : Type 0 where
  pub size : length bytes ≡ 49
  pub header : (get_elem? bytes 0 ≡ some 1) × (get_elem? bytes 1 ≡ some 0)
  pub side : get_elem? bytes 4 ≡ some (side_number p.side)
  pub price :
      signed (read_u64 bytes 5)
      ≡ price_asked m.ui_price_to_lots_for_side m.ui_price_to_lots_round_up m.ui_price_to_lots
          p.price p.side
  pub base : signed (read_u64 bytes 13) ≡ m.ui_base_to_lots p.quantity
  pub quote :
      QuoteAsked is_zero m.ui_quote_to_lots p.max_quote_quantity (signed (read_u64 bytes 21))
  pub id : to_big_int (chosen p.client_order_id (big random)) ≡ ok (pos (read_u64 bytes 29))
  pub type : get_elem? bytes 37 ≡ some (order_type_to_u8 (chosen p.order_type post_only_slide))
  pub behavior :
      get_elem? bytes 38
      ≡ some (self_trade_behavior_to_u8 (chosen p.self_trade_behavior decrement_take))
  pub reduce : get_elem? bytes 39 ≡ some (if chosen p.reduce_only false then 1 else 0)
  pub expiry :
      to_big_int (num (chosen p.expiry_timestamp (whole (pos 0)))) ≡ ok (pos (read_u64 bytes 40))
  pub limit :
      (n : ℕ) × (chosen p.limit (whole (pos 10)) ≡ whole (pos n)) × (get_elem? bytes 48 ≡ some n)

order-OrderAsked :
    {F : Type 0} (is_zero : F → Bool) (m : MarketLots F) (p : SubmitPerpOrderParams F) (random : ℤ)
    {bytes : Bytes}
    → encode_perp_place_order_v2 (order_fields is_zero m p (or_else p.client_order_id (big random)))
      ≡ ok bytes
    → OrderAsked is_zero m p random bytes
unfolding order_fields ui_price_to_lots_for_side to_big_int
order-OrderAsked is_zero m p random {bytes} h =
    let l =
      place_order-layout (order_fields is_zero m p (or_else p.client_order_id (big random))) h in
    record {
      size = l.size;
      header = (l.version, l.variant);
      side = l.side ∙ ap some (side-number p.side);
      price =
          sym (ok_injective l.price)
          ∙ price-asked m.ui_price_to_lots_for_side m.ui_price_to_lots_round_up m.ui_price_to_lots
              p.price p.side;
      base = sym (ok_injective l.base);
      quote =
          subst (QuoteAsked is_zero m.ui_quote_to_lots p.max_quote_quantity) (ok_injective l.quote)
            (quote-asked is_zero m p.max_quote_quantity);
      id = ap to_big_int (sym (or_else-chosen p.client_order_id (big random))) ∙ l.id;
      type =
          l.type
          ∙ ap (λ t. some (order_type_to_u8 t)) (or_else-chosen p.order_type post_only_slide);
      behavior =
          l.behavior
          ∙ ap (λ t. some (self_trade_behavior_to_u8 t))
              (or_else-chosen p.self_trade_behavior decrement_take);
      reduce = l.reduce ∙ ap (λ b. some (if b then 1 else 0)) (or_else-chosen p.reduce_only false);
      expiry =
          ap (λ n. to_big_int (num n)) (sym (or_else-chosen p.expiry_timestamp (whole (pos 0))))
          ∙ l.expiry;
      limit = let (n, e, b) = l.limit in (n, sym (or_else-chosen p.limit (whole (pos 10))) ∙ e, b);
    }

cancel-bytes :
    (id : BigNumberish) {bytes : Bytes}
    → encode_perp_cancel_order_by_client_order_id id ≡ ok bytes
    → (n : ℕ) × (to_big_int id ≡ ok (pos n))
      × (n ≤ u64_max)
      × (bytes ≡ 1 ∷ 2 ∷ 0 ∷ 0 ∷ le_bytes 8 n)
unfolding encode_perp_cancel_order_by_client_order_id encode_queue_payload_v1 u16_to_le le_bytes
cancel-bytes id h = from_bind (u64_to_le id) _ h λ body eb k.
    let w = u64_to_le-Wrote id eb in
    (w.n, w.value_eq, w.fits, sym (ok_injective k) ∙ ap (λ b. 1 ∷ 2 ∷ 0 ∷ 0 ∷ b) w.bytes_eq)

cancel_all-bytes :
    (limit : Number) {bytes : Bytes}
    → encode_perp_cancel_all_orders limit ≡ ok bytes
    → (n : ℕ) × (limit ≡ whole (pos n)) × (n ≤ 0xff) × (bytes ≡ 1 ∷ 3 ∷ 0 ∷ 0 ∷ n ∷ [])
unfolding encode_perp_cancel_all_orders encode_queue_payload_v1 u16_to_le le_bytes
cancel_all-bytes limit h = from_bind (u8 limit) _ h λ body eb k.
    let (n, e, le, b) = u8_value limit eb in
    (n, e, le, sym (ok_injective k) ∙ ap (λ b. 1 ∷ 3 ∷ 0 ∷ 0 ∷ b) (u8_byte n le (rw e at eb)))

module _ (W : Platform) where
  open W use {PublicKey}

  -- The payload that a call asks for.
  abbrev pub Asked :
      {F : Type 0}
      → (F → Bool)
      → (PerpMarket PublicKey → MarketLots F)
      → TradingContext W
      → ℤ
      → TradingCall F
      → Bytes
      → Type 0
  Asked is_zero lots c random (place p) bytes =
      (market : PerpMarket PublicKey) × (c.group.perp_market_by_index p.market_index ≡ ok market)
      × OrderAsked is_zero (lots market) p random bytes
  Asked is_zero lots c random (cancel p) bytes =
      (n : ℕ) × (to_big_int p.client_order_id ≡ ok (pos n))
      × (n ≤ u64_max)
      × (bytes ≡ 1 ∷ 2 ∷ 0 ∷ 0 ∷ le_bytes 8 n)
  Asked is_zero lots c random (cancel_all p) bytes =
      (n : ℕ) × (chosen p.limit (whole (pos 255)) ≡ whole (pos n))
      × (n ≤ 0xff)
      × (bytes ≡ 1 ∷ 3 ∷ 0 ∷ 0 ∷ n ∷ [])

  pub payload_of-Asked :
      {F : Type 0} (is_zero : F → Bool) (lots : PerpMarket PublicKey → MarketLots F)
      (c : TradingContext W) (random : ℤ) (call : TradingCall F) {bytes : Bytes}
      → payload_of W is_zero lots c random call ≡ ok bytes
      → Asked is_zero lots c random call bytes
  payload_of-Asked is_zero lots c random (place p) h =
      from_bind (c.group.perp_market_by_index p.market_index) _ h
        λ market em k. (market, em, order-OrderAsked is_zero (lots market) p random k)
  payload_of-Asked is_zero lots c random (cancel p) h = cancel-bytes p.client_order_id h
  payload_of-Asked is_zero lots c random (cancel_all p) h =
      let (n, e, le, b) = cancel_all-bytes (or_else p.limit (whole (pos 255))) h in
      (n, sym (or_else-chosen p.limit (whole (pos 255))) ∙ e, le, b)
