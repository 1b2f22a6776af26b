-- ===== src/Views/Redact/ViewOnly.antt =====
-- A leg as src/triggerOrderViews.ts shows it has no key but the listed ones.
use fermi_v1_sdk.Base.{
  ◌≡◌, refl, sym, ◌∙◌, ap, false, List, Option, none, some, Text, codes, text_eq,
}
use fermi_v1_sdk.Views.{
  Json, null, bool, num, str, arr, obj, Fields, empty, get_field, contains, trigger_leg_view_fields,
  trigger_leg_armed_fields, trigger_leg_last_fire_fields,
}
use fermi_v1_sdk.Views.Redact.{
  pick_scalars, view_value, view_at, view_fields, whitelist_trigger_leg_view,
}
use fermi_v1_sdk.Views.Redact.Legs.{only, view_fields-get, pick_fields-get}

-- A leg that has no key outside the list, and whose `armed` and `last_fire` have none outside theirs.
pub record ViewOnly (leg : Json) : Type 0 where
  pub out : Fields
  pub leg_eq : leg ≡ obj out
  pub listed :
      (key : Text) → contains trigger_leg_view_fields key ≡ false → get_field out key ≡ none
  pub armed :
      (inner : Fields) (key : Text)
      → get_field out (codes "armed") ≡ some (obj inner)
      → contains trigger_leg_armed_fields key ≡ false
      → get_field inner key ≡ none
  pub last_fire :
      (inner : Fields) (key : Text)
      → get_field out (codes "last_fire") ≡ some (obj inner)
      → contains trigger_leg_last_fire_fields key ≡ false
      → get_field inner key ≡ none

some_json : Option Json → Json
some_json none = null
some_json (some v) = v

fields_of : Json → Fields
fields_of (obj f) = f
fields_of _ = empty

pub obj_injective : {f g : Fields} → some (obj f) ≡ some (obj g) → f ≡ g
unfolding some_json fields_of
obj_injective e = ap (λ (o : Option Json). fields_of (some_json o)) e

picked :
    (keys : List Text) (value : Json) {inner : Fields} (key : Text)
    → some (pick_scalars value keys) ≡ some (obj inner)
    → contains keys key ≡ false
    → get_field inner key ≡ none
unfolding pick_scalars
picked keys (obj fields) key e h =
    rw (← obj_injective e) (pick_fields-get fields keys key ∙ rw h refl)
picked keys null key e h = cc
picked keys (bool b) key e h = cc
picked keys (num n) key e h = cc
picked keys (str s) key e h = cc
picked keys (arr i) key e h = cc

picked_at :
    (keys : List Text) (o : Option Json) {inner : Fields} (key : Text)
    → elim o [ none ↦ none | some v ↦ some (pick_scalars v keys) ] ≡ some (obj inner)
    → contains keys key ≡ false
    → get_field inner key ≡ none
picked_at keys none key e h = cc
picked_at keys (some v) key e h = picked keys v key e h

view_at-armed :
    (o : Option Json)
    → elim o [ none ↦ none | some v ↦ view_value (codes "armed") v ]
      ≡ elim o [ none ↦ none | some v ↦ some (pick_scalars v trigger_leg_armed_fields) ]
unfolding view_value text_eq
view_at-armed none = refl
view_at-armed (some v) = refl

view_at-last_fire :
    (o : Option Json)
    → elim o [ none ↦ none | some v ↦ view_value (codes "last_fire") v ]
      ≡ elim o [ none ↦ none | some v ↦ some (pick_scalars v trigger_leg_last_fire_fields) ]
unfolding view_value text_eq
view_at-last_fire none = refl
view_at-last_fire (some v) = refl

pub whitelist-ViewOnly : (fields : Fields) → ViewOnly (whitelist_trigger_leg_view (obj fields))
unfolding whitelist_trigger_leg_view view_at text_eq
whitelist-ViewOnly fields =
    let get : (key : Text)
        → get_field (view_fields fields trigger_leg_view_fields) key
          ≡ only (contains trigger_leg_view_fields key) (view_at fields key) =
      view_fields-get fields trigger_leg_view_fields in
    record {
      out = view_fields fields trigger_leg_view_fields;
      leg_eq = refl;
      listed = λ key h. get key ∙ rw h refl;
      armed = λ inner key e h.
          picked_at trigger_leg_armed_fields (get_field fields (codes "armed")) key
            (sym (view_at-armed (get_field fields (codes "armed"))) ∙ sym (get (codes "armed")) ∙ e)
            h;
      last_fire = λ inner key e h.
          picked_at trigger_leg_last_fire_fields (get_field fields (codes "last_fire")) key
            (sym (view_at-last_fire (get_field fields (codes "last_fire")))
              ∙ sym (get (codes "last_fire"))
              ∙ e)
            h;
    }
