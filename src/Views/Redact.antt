-- ===== src/Views/Redact.antt =====
-- The lenient redaction of src/triggerOrderViews.ts.
pub mod Clean
pub mod Legs
pub mod ViewOnly
pub mod Responses
use fermi_v1_sdk.Base.{
  ℕ, suc, ◌+◌, Bool, true, false, ◌||◌, List, [], ◌∷◌, Option, none, some, Text, codes, text_eq,
  if◌then◌else◌, ltb,
}
use fermi_v1_sdk.Views.{
  Json, null, bool, num, str, arr, obj, Items, nil, item, Fields, empty, field, get_field,
  set_field, contains, trigger_leg_view_fields, trigger_leg_armed_fields,
  trigger_leg_last_fire_fields, trigger_forbidden_keys, max_redact_depth,
}

abbrev pub is_json_scalar : Json → Bool
is_json_scalar (arr items) = false
is_json_scalar (obj fields) = false
is_json_scalar _ = true

-- `Object.prototype.hasOwnProperty.call(value, field) && isJsonScalar(value[field])`
abbrev pub scalar_at : Fields → Text → Option Json
scalar_at fields key = elim (get_field fields key) [
  | none ↦ none
  | some v ↦ if is_json_scalar v then some v else none
]

abbrev pub field_if : Text → Option Json → Fields → Fields
field_if key none rest = rest
field_if key (some v) rest = field key v rest

-- The fields are visited in their order, and `out` has none of them yet.
unfoldable pub pick_fields : Fields → List Text → Fields
pick_fields fields [] = empty
pick_fields fields (key ∷ keys) = field_if key (scalar_at fields key) (pick_fields fields keys)

unfoldable pub pick_scalars : Json → List Text → Json
unfolding pick_fields
pick_scalars (obj fields) keys = obj (pick_fields fields keys)
pick_scalars _ keys = null

-- What the loop of `whitelistTriggerLegView` writes for one key.
unfoldable pub view_value : Text → Json → Option Json
unfolding pick_scalars
view_value key value =
    if text_eq key (codes "armed")
    then some (pick_scalars value trigger_leg_armed_fields)
    else if text_eq key (codes "last_fire")
    then some (pick_scalars value trigger_leg_last_fire_fields)
    else if is_json_scalar value
    then some value
    else none

unfoldable pub view_at : Fields → Text → Option Json
unfolding view_value
view_at fields key = elim (get_field fields key) [ none ↦ none | some v ↦ view_value key v ]

unfoldable pub view_fields : Fields → List Text → Fields
unfolding view_value
view_fields fields [] = empty
view_fields fields (key ∷ keys) = field_if key (view_at fields key) (view_fields fields keys)

-- The view of a leg; null stands for what is not an object.
unfoldable pub whitelist_trigger_leg_view : Json → Json
unfolding view_fields
whitelist_trigger_leg_view (obj fields) = obj (view_fields fields trigger_leg_view_fields)
whitelist_trigger_leg_view _ = null

abbrev pub is_stripped : Text → Bool
is_stripped key = contains trigger_forbidden_keys key || text_eq key (codes "__proto__")

unfoldable mutual
  pub strip_forbidden_keys : Json → ℕ → Json
  strip_forbidden_keys (arr items) depth =
      let rest = strip_items items (suc depth) in
      if ltb max_redact_depth depth then null else arr rest
  strip_forbidden_keys (obj fields) depth =
      let rest = strip_fields fields (suc depth) in
      if ltb max_redact_depth depth then null else obj rest
  strip_forbidden_keys null depth = null
  strip_forbidden_keys (bool b) depth = if ltb max_redact_depth depth then null else bool b
  strip_forbidden_keys (num n) depth = if ltb max_redact_depth depth then null else num n
  strip_forbidden_keys (str s) depth = if ltb max_redact_depth depth then null else str s

  pub strip_items : Items → ℕ → Items
  strip_items nil depth = nil
  strip_items (item v rest) depth = item (strip_forbidden_keys v depth) (strip_items rest depth)

  pub strip_fields : Fields → ℕ → Fields
  strip_fields empty depth = empty
  strip_fields (field k v rest) depth =
      let value = strip_forbidden_keys v depth in
      let others = strip_fields rest depth in if is_stripped k then others else field k value others

-- `.map(whitelist).filter((leg) => leg !== null)`
unfoldable pub view_items : Items → Items
unfolding whitelist_trigger_leg_view
view_items nil = nil
view_items (item (obj fields) rest) =
    item (whitelist_trigger_leg_view (obj fields)) (view_items rest)
view_items (item _ rest) = view_items rest

unfoldable pub redact_orders : Fields → Fields
unfolding view_items
redact_orders fields = elim (get_field fields (codes "orders")) [
  | some (arr items) ↦ set_field fields (codes "orders") (arr (view_items items))
  | _ ↦ fields
]

unfoldable pub redact_order : Fields → Fields
unfolding whitelist_trigger_leg_view
redact_order fields = elim (get_field fields (codes "order")) [
  | none ↦ fields
  | some null ↦ fields
  | some v ↦ set_field fields (codes "order") (whitelist_trigger_leg_view v)
]

abbrev pub redact_fields : Json → Json
redact_fields (obj fields) = obj (redact_order (redact_orders fields))
redact_fields v = v

unfoldable pub redact_trigger_keeper_response : Json → Json
unfolding strip_forbidden_keys
redact_trigger_keeper_response body = redact_fields (strip_forbidden_keys body 0)
