-- ===== src/Views/Sanitize/RoundTrip.antt =====
-- A valid leg passes the validation unchanged: src/triggerOrderViews.ts.
use fermi_v1_sdk.Base.{
  ℕ, ◌≤◌, ◌≡◌, ◌⊎◌, inl, inr, refl, arith, Bool, true, false, ◌||◌, Option, none, some, Text, codes,
  text_eq, text_eq_refl, ltb, le→leb, length, pos, whole, max_safe,
}
use fermi_v1_sdk.Views.{
  Json, null, bool, num, str, obj, Fields, empty, field, get_field, is_base58_pubkey,
  is_trigger_leg_id,
}
use fermi_v1_sdk.Views.Sanitize.{
  unsigned_decimal, signed_decimal, state_name, decimal_string, signed_decimal_string,
  non_negative_safe_integer, reason_string, TriggerLegArmed, TriggerLegLastFire, sanitize_armed,
  sequence_string, sanitize_last_fire, text_where, market_index_at, either, TriggerLegView,
  sanitize_fields, sanitize_trigger_leg_view,
}
use fermi_v1_sdk.Views.Sanitize.Valid.{Valid, ShortReason}

abbrev pub reason_json : Option Text → Json
reason_json none = null
reason_json (some s) = str s

abbrev pub natural_json : ℕ → Json
natural_json n = num (whole (pos n))

abbrev pub armed_json : Option TriggerLegArmed → Json
armed_json none = null
armed_json (some a) = obj (
    field (codes "slot") (natural_json a.slot) (
      field (codes "ts_ms") (natural_json a.ts_ms)
        (field (codes "position_lots") (str a.position_lots) empty)))

abbrev pub last_fire_json : Option TriggerLegLastFire → Json
last_fire_json none = null
last_fire_json (some f) = obj (
    field (codes "attempt") (natural_json f.attempt) (
      field (codes "sequence") (reason_json f.sequence) (
        field (codes "ts_ms") (natural_json f.ts_ms)
          (field (codes "outcome") (reason_json f.outcome) empty))))

-- The JSON of a leg view, as the keeper's contract gives it.
unfoldable pub leg_json : TriggerLegView → Fields
leg_json v = field (codes "id") (str v.id) (
    field (codes "mango_account") (str v.mango_account) (
      field (codes "account_owner") (str v.account_owner) (
        field (codes "market_index") (natural_json v.market_index) (
          field (codes "client_order_id") (str v.client_order_id) (
            field (codes "kind") (str v.kind) (
              field (codes "direction") (str v.direction) (
                field (codes "side") (str v.side) (
                  field (codes "trigger_price_lots") (str v.trigger_price_lots) (
                    field (codes "limit_price_lots") (str v.limit_price_lots) (
                      field (codes "max_base_lots") (str v.max_base_lots) (
                        field (codes "reduce_only") (bool v.reduce_only) (
                          field (codes "oco_group") (str v.oco_group) (
                            field (codes "expiry_ts") (str v.expiry_ts) (
                              field (codes "state") (str v.state) (
                                field (codes "state_reason") (reason_json v.state_reason) (
                                  field (codes "wait_reason") (reason_json v.wait_reason) (
                                    field (codes "resign_required") (bool v.resign_required) (
                                      field (codes "created_ms") (natural_json v.created_ms) (
                                        field (codes "updated_ms") (natural_json v.updated_ms) (
                                          field (codes "armed") (armed_json v.armed) (
                                            field (codes "last_fire") (last_fire_json v.last_fire)
                                              empty)))))))))))))))))))))

abbrev pub ValidArmed : Option TriggerLegArmed → Type 0
ValidArmed none = Unit
ValidArmed (some a) =
    (a.slot ≤ max_safe) × (a.ts_ms ≤ max_safe) × (signed_decimal a.position_lots ≡ true)

abbrev pub ValidSequence : Option Text → Type 0
ValidSequence none = Unit
ValidSequence (some s) = unsigned_decimal s ≡ true

abbrev pub ValidLastFire : Option TriggerLegLastFire → Type 0
ValidLastFire none = Unit
ValidLastFire (some f) =
    (f.attempt ≤ max_safe) × (f.ts_ms ≤ max_safe) × ValidSequence f.sequence × ShortReason f.outcome

text_kept :
    (test : Text → Bool) (s : Text) → test s ≡ true → text_where test (some (str s)) ≡ some s
unfolding text_where
text_kept test s h = rw h refl

decimal_kept : (s : Text) → unsigned_decimal s ≡ true → decimal_string (some (str s)) ≡ some s
unfolding decimal_string
decimal_kept s h = rw h refl

signed_kept : (s : Text) → signed_decimal s ≡ true → signed_decimal_string (some (str s)) ≡ some s
unfolding signed_decimal_string
signed_kept s h = rw h refl

integer_kept : (n : ℕ) → n ≤ max_safe → non_negative_safe_integer (some (natural_json n)) ≡ some n
unfolding non_negative_safe_integer
integer_kept n h = rw (le→leb n max_safe h) refl

market_kept : (n : ℕ) → n ≤ 0xffff → market_index_at (some (natural_json n)) ≡ some n
unfolding market_index_at
market_kept n h = rw (integer_kept n (omega arith), le→leb n 0xffff h) refl

short_test : (n : ℕ) → n ≤ 200 → ltb 200 n ≡ false
short_test n h = ground arith

reason_kept : (r : Option Text) → ShortReason r → reason_string (some (reason_json r)) ≡ some r
unfolding reason_string
reason_kept none h = refl
reason_kept (some s) h = rw (short_test (length s) h) refl

sequence_kept :
    (r : Option Text) → ValidSequence r → sequence_string (some (reason_json r)) ≡ some r
unfolding sequence_string
sequence_kept none h = refl
sequence_kept (some s) h = rw (decimal_kept s h) refl

armed_kept : (a : Option TriggerLegArmed) → ValidArmed a → sanitize_armed (some (armed_json a)) ≡ a
unfolding sanitize_armed get_field text_eq
armed_kept none h = refl
armed_kept (some a) (h, k, l) =
    rw (integer_kept a.slot h, integer_kept a.ts_ms k, signed_kept a.position_lots l) refl

last_fire_kept :
    (f : Option TriggerLegLastFire)
    → ValidLastFire f
    → sanitize_last_fire (some (last_fire_json f)) ≡ f
unfolding sanitize_last_fire get_field text_eq
last_fire_kept none h = refl
last_fire_kept (some f) (h, k, l, m) =
    rw
      (
        integer_kept f.attempt h,
        integer_kept f.ts_ms k,
        reason_kept f.outcome m,
        sequence_kept f.sequence l,
      )
      refl

either_left : (a b s : Text) → (s ≡ a) ⊎ (s ≡ b) → either a b s ≡ true
either_left a b s (inl e) = rw (e, text_eq_refl a) refl
either_left a b s (inr e) = rw (e, text_eq_refl b) (or_true (text_eq b a))
  where
    or_true : (x : Bool) → (x || true) ≡ true
    or_true x = ground arith

-- A valid leg view, written as the keeper's JSON, passes the validation and comes out unchanged, its
-- armed state and its last fire included where they are valid.
pub sanitize-leg_json :
    (v : TriggerLegView)
    → Valid v
    → ValidArmed v.armed
    → ValidLastFire v.last_fire
    → sanitize_trigger_leg_view (obj (leg_json v)) ≡ some v
unfolding sanitize_trigger_leg_view sanitize_fields get_field text_eq leg_json
sanitize-leg_json v h ha hf =
    rw
      (
        text_kept is_trigger_leg_id v.id h.id,
        text_kept is_base58_pubkey v.mango_account h.mango_account,
        text_kept is_base58_pubkey v.account_owner h.account_owner,
        market_kept v.market_index h.market_index,
        decimal_kept v.client_order_id h.client_order_id,
        text_kept (either (codes "stop_loss") (codes "take_profit")) v.kind
            (either_left (codes "stop_loss") (codes "take_profit") v.kind h.kind),
        text_kept (either (codes "at_or_below") (codes "at_or_above")) v.direction
            (either_left (codes "at_or_below") (codes "at_or_above") v.direction h.direction),
        text_kept (either (codes "bid") (codes "ask")) v.side
            (either_left (codes "bid") (codes "ask") v.side h.side),
        decimal_kept v.trigger_price_lots h.trigger_price_lots,
        decimal_kept v.limit_price_lots h.limit_price_lots,
        decimal_kept v.max_base_lots h.max_base_lots,
        decimal_kept v.oco_group h.oco_group,
        decimal_kept v.expiry_ts h.expiry_ts,
        text_kept state_name v.state h.state,
        reason_kept v.state_reason h.state_reason,
        reason_kept v.wait_reason h.wait_reason,
        integer_kept v.created_ms h.created_ms,
        integer_kept v.updated_ms h.updated_ms,
        armed_kept v.armed ha,
        last_fire_kept v.last_fire hf,
      )
      refl
