-- ===== src/Views/Tests.antt =====
-- The theorems of src/triggerOrderViews.ts at work on a leg that carries its signed request.
use fermi_v1_sdk.Base.{
  ◌≡◌, inl, inr, refl, arith, true, false, none, some, codes, text_eq, pos, whole,
}
use fermi_v1_sdk.Views.{
  Json, num, str, arr, obj, nil, item, Fields, empty, field, get_field, set_field,
  is_trigger_leg_id, is_base58_pubkey,
}
use fermi_v1_sdk.Views.Redact.{
  redact_trigger_keeper_response, whitelist_trigger_leg_view, view_at, strip_forbidden_keys,
  redact_orders, redact_order, view_items, view_fields, view_value, pick_scalars, pick_fields,
}
use fermi_v1_sdk.Views.Redact.Clean.{redact-clean, clean}
use fermi_v1_sdk.Views.Redact.Legs.{whitelist-reads, Displays}
use fermi_v1_sdk.Views.Redact.Responses.{redact-LegsOnly, LegsOnly}
use fermi_v1_sdk.Views.Sanitize.{
  TriggerLegView, sanitize_trigger_leg_view, unsigned_decimal, signed_decimal, state_name,
}
use fermi_v1_sdk.Views.Sanitize.Valid.{Valid, sanitize-Valid}
use fermi_v1_sdk.Views.Sanitize.RoundTrip.{sanitize-leg_json, leg_json}

abbrev stored_leg : Fields
stored_leg = field (codes "id") (str (codes "leg-1")) (
    field (codes "request") (obj (field (codes "payload_b64") (str (codes "AAAA")) empty))
      (field (codes "armed") (obj (field (codes "slot") (num (whole (pos 5))) empty)) empty))

abbrev response : Json
response = obj (field (codes "orders") (arr (item (obj stored_leg) nil)) empty)

redact-clean_example : clean (redact_trigger_keeper_response response) ≡ true
redact-clean_example = redact-clean response

abbrev shown : Fields
shown =
    field (codes "orders")
      (arr (
        item
          (obj (
            field (codes "id") (str (codes "leg-1")) (
              field (codes "armed") (obj (field (codes "slot") (num (whole (pos 5))) empty))
                empty)))
          nil))
      empty

shown_eq : redact_trigger_keeper_response response ≡ obj shown
unfolding redact_trigger_keeper_response strip_forbidden_keys redact_orders redact_order view_items
    whitelist_trigger_leg_view view_fields view_at view_value pick_scalars pick_fields get_field
    set_field text_eq
shown_eq = refl

redact-LegsOnly_example : LegsOnly shown
redact-LegsOnly_example = redact-LegsOnly response {fields = shown} shown_eq

whitelist-reads_example :
    (out : Fields) × (whitelist_trigger_leg_view (obj stored_leg) ≡ obj out)
    × Displays stored_leg (codes "armed") (get_field out (codes "armed"))
whitelist-reads_example = whitelist-reads stored_leg (codes "armed")

abbrev leg_view : TriggerLegView
leg_view = record {
  id = codes "leg-1";
  mango_account = codes "11111111111111111111111111111111";
  account_owner = codes "22222222222222222222222222222222";
  market_index = 7;
  client_order_id = codes "42";
  kind = codes "stop_loss";
  direction = codes "at_or_below";
  side = codes "ask";
  trigger_price_lots = codes "900";
  limit_price_lots = codes "895";
  max_base_lots = codes "9223372036854775807";
  reduce_only = true;
  oco_group = codes "0";
  expiry_ts = codes "1900000000";
  state = codes "armed";
  state_reason = none;
  wait_reason = some (codes "oracle");
  resign_required = false;
  created_ms = 1700000000000;
  updated_ms = 1700000000001;
  armed = some (record { slot = 5; ts_ms = 6; position_lots = codes "-3" });
  last_fire = none;
}

leg_view-Valid : Valid leg_view
unfolding is_trigger_leg_id is_base58_pubkey unsigned_decimal state_name text_eq
leg_view-Valid = record {
  id = refl;
  mango_account = refl;
  account_owner = refl;
  market_index = omega arith;
  client_order_id = refl;
  kind = inl refl;
  direction = inl refl;
  side = inr refl;
  trigger_price_lots = refl;
  limit_price_lots = refl;
  max_base_lots = refl;
  oco_group = refl;
  expiry_ts = refl;
  state = refl;
  state_reason = tt;
  wait_reason = omega arith;
  created_ms = omega arith;
  updated_ms = omega arith;
}

signed_position : signed_decimal (codes "-3") ≡ true
unfolding signed_decimal unsigned_decimal
signed_position = refl

sanitize-leg_json_example : sanitize_trigger_leg_view (obj (leg_json leg_view)) ≡ some leg_view
sanitize-leg_json_example =
    sanitize-leg_json leg_view leg_view-Valid (omega arith, omega arith, signed_position) tt

sanitize-Valid_example : Valid leg_view
sanitize-Valid_example =
    sanitize-Valid (obj (leg_json leg_view)) {v = leg_view} sanitize-leg_json_example
