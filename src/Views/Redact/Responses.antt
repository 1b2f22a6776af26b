-- ===== src/Views/Redact/Responses.antt =====
-- The legs of a whole response: src/triggerOrderViews.ts.
use fermi_v1_sdk.Base.{
  ◌≡◌, ◌⊎◌, refl, sym, ◌∙◌, ap, Bool, false, Option, none, some, Text, codes, text_eq, text_eq→eq,
  text_eq_refl, if◌then◌else◌, Bool-cases, inl, inr, subst,
}
use fermi_v1_sdk.Views.{
  Json, null, bool, num, str, arr, obj, Items, nil, item, Fields, empty, field, get_field,
  set_field,
}
use fermi_v1_sdk.Views.Redact.{
  whitelist_trigger_leg_view, strip_forbidden_keys, view_items, redact_orders, redact_order,
  redact_fields, redact_trigger_keeper_response,
}
use fermi_v1_sdk.Views.Redact.ViewOnly.{ViewOnly, whitelist-ViewOnly, obj_injective}

get-set_same :
    (fields : Fields) (key : Text) (v : Json) → get_field (set_field fields key v) key ≡ some v
unfolding get_field set_field
get-set_same empty key v = rw (text_eq_refl key) refl
get-set_same (field k w rest) key v = elim (Bool-cases (text_eq k key)) [
  | inl e ↦ rw (e, e) refl
  | inr e ↦ rw (e, e) (get-set_same rest key v)
]

get-set_other :
    (fields : Fields) (key other : Text) (v : Json)
    → text_eq key other ≡ false
    → get_field (set_field fields key v) other ≡ get_field fields other
unfolding get_field set_field
get-set_other empty key other v h = rw h refl
get-set_other (field k w rest) key other v h =
    let ih = get-set_other rest key other v h in
    elim (Bool-cases (text_eq k key)) [
      | inl e ↦ let off : text_eq k other ≡ false = rw (text_eq→eq k key e) h in rw (e, off) refl
      | inr e ↦ rw e (if_same (text_eq k other) w ih)
    ]
  where
    if_same :
        (b : Bool) (w : Json) {x y : Option Json}
        → x ≡ y
        → (if b then some w else x) ≡ (if b then some w else y)
    if_same b w e = ap (λ o. if b then some w else o) e

abbrev pub AllItems : (Json → Type 0) → Items → Type 0
AllItems P nil = Unit
AllItems P (item v rest) = P v × AllItems P rest

view_items-ViewOnly : (items : Items) → AllItems ViewOnly (view_items items)
unfolding view_items
view_items-ViewOnly nil = tt
view_items-ViewOnly (item (obj fields) rest) = (whitelist-ViewOnly fields, view_items-ViewOnly rest)
view_items-ViewOnly (item null rest) = view_items-ViewOnly rest
view_items-ViewOnly (item (bool b) rest) = view_items-ViewOnly rest
view_items-ViewOnly (item (num n) rest) = view_items-ViewOnly rest
view_items-ViewOnly (item (str s) rest) = view_items-ViewOnly rest
view_items-ViewOnly (item (arr i) rest) = view_items-ViewOnly rest

-- What a response holds under `orders` and under `order`.
pub record LegsOnly (fields : Fields) : Type 0 where
  pub orders :
      (items : Items)
      → get_field fields (codes "orders") ≡ some (arr items)
      → AllItems ViewOnly items
  pub order : (v : Json) → get_field fields (codes "order") ≡ some v → (v ≡ null) ⊎ ViewOnly v

abbrev OrdersOnly : Option Json → Type 0
OrdersOnly (some (arr items)) = AllItems ViewOnly items
OrdersOnly _ = Unit

abbrev OrderOnly : Option Json → Type 0
OrderOnly none = Unit
OrderOnly (some v) = (v ≡ null) ⊎ ViewOnly v

whitelist-OrderOnly : (v : Json) → OrderOnly (some (whitelist_trigger_leg_view v))
whitelist-OrderOnly (obj fields) = inr (whitelist-ViewOnly fields)
whitelist-OrderOnly null = unfold whitelist_trigger_leg_view in inl refl
whitelist-OrderOnly (bool b) = unfold whitelist_trigger_leg_view in inl refl
whitelist-OrderOnly (num n) = unfold whitelist_trigger_leg_view in inl refl
whitelist-OrderOnly (str s) = unfold whitelist_trigger_leg_view in inl refl
whitelist-OrderOnly (arr i) = unfold whitelist_trigger_leg_view in inl refl

redact_orders-only :
    (fields : Fields) → OrdersOnly (get_field (redact_orders fields) (codes "orders"))
unfolding redact_orders
redact_orders-only fields = go (get_field fields (codes "orders")) refl
  where
    go :
        (o : Option Json)
        → get_field fields (codes "orders") ≡ o
        → OrdersOnly (
            get_field
              (elim o [
                | some (arr items) ↦ set_field fields (codes "orders") (arr (view_items items))
                | _ ↦ fields
              ])
              (codes "orders"))
    go none e = rw e tt
    go (some (arr items)) e =
        rw (get-set_same fields (codes "orders") (arr (view_items items)))
          (view_items-ViewOnly items)
    go (some null) e = rw e tt
    go (some (bool b)) e = rw e tt
    go (some (num n)) e = rw e tt
    go (some (str s)) e = rw e tt
    go (some (obj f)) e = rw e tt

redact_order-only :
    (fields : Fields)
    → OrderOnly (get_field (redact_order fields) (codes "order"))
      × (get_field (redact_order fields) (codes "orders") ≡ get_field fields (codes "orders"))
unfolding redact_order
redact_order-only fields = go (get_field fields (codes "order")) refl
  where
    other : text_eq (codes "order") (codes "orders") ≡ false
    other = unfold text_eq in refl

    set :
        (v : Json)
        → OrderOnly (
            get_field
              (set_field fields (codes "order") (whitelist_trigger_leg_view v))
              (codes "order"))
          × (get_field
                (set_field fields (codes "order") (whitelist_trigger_leg_view v))
                (codes "orders")
              ≡ get_field fields (codes "orders"))
    set v = (
      rw (get-set_same fields (codes "order") (whitelist_trigger_leg_view v))
          (whitelist-OrderOnly v),
      get-set_other fields (codes "order") (codes "orders") (whitelist_trigger_leg_view v) other,
    )

    go :
        (o : Option Json)
        → get_field fields (codes "order") ≡ o
        → OrderOnly (
            get_field
              (elim o [
                | none ↦ fields
                | some null ↦ fields
                | some v ↦ set_field fields (codes "order") (whitelist_trigger_leg_view v)
              ])
              (codes "order"))
          × (get_field
                (elim o [
                  | none ↦ fields
                  | some null ↦ fields
                  | some v ↦ set_field fields (codes "order") (whitelist_trigger_leg_view v)
                ])
                (codes "orders")
              ≡ get_field fields (codes "orders"))
    go none e = (rw e tt, refl)
    go (some null) e = (rw e (inl refl), refl)
    go (some (arr items)) e = set (arr items)
    go (some (bool b)) e = set (bool b)
    go (some (num n)) e = set (num n)
    go (some (str s)) e = set (str s)
    go (some (obj f)) e = set (obj f)

redact_fields-LegsOnly :
    (v : Json) {fields : Fields} → redact_fields v ≡ obj fields → LegsOnly fields
redact_fields-LegsOnly (obj g) {fields} e =
    let (order, orders) = redact_order-only (redact_orders g) in
    let same : redact_order (redact_orders g) ≡ fields = obj_injective (ap some e) in
    subst LegsOnly same (record {
      orders = λ items h. subst OrdersOnly (sym orders ∙ h) (redact_orders-only g);
      order = λ v h. subst OrderOnly h order;
    })
redact_fields-LegsOnly null e = cc
redact_fields-LegsOnly (bool b) e = cc
redact_fields-LegsOnly (num n) e = cc
redact_fields-LegsOnly (str s) e = cc
redact_fields-LegsOnly (arr i) e = cc

-- In a redacted response every leg under `orders`, and the one under `order` unless it is null, is an
-- object with no key but a leg view's, and with none but the listed keys under `armed` and
-- `last_fire`.
pub redact-LegsOnly :
    (body : Json) {fields : Fields}
    → redact_trigger_keeper_response body ≡ obj fields
    → LegsOnly fields
unfolding redact_trigger_keeper_response
redact-LegsOnly body e = redact_fields-LegsOnly (strip_forbidden_keys body 0) e
