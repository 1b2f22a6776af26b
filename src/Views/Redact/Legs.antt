-- ===== src/Views/Redact/Legs.antt =====
-- What is left of a leg: src/triggerOrderViews.ts.
use fermi_v1_sdk.Base.{
  ◌≡◌, ◌⊎◌, refl, sym, ◌∙◌, ap, Bool, true, false, List, [], ◌∷◌, Option, none, some, Text, codes,
  text_eq, text_eq→eq, text_eq_iff, ◌≢◌, subst, if◌then◌else◌, Bool-cases, inl, inr,
}
use fermi_v1_sdk.Views.{
  Json, null, bool, num, str, arr, obj, Fields, get_field, contains, trigger_leg_view_fields,
  trigger_leg_armed_fields, trigger_leg_last_fire_fields,
}
use fermi_v1_sdk.Views.Redact.{
  is_json_scalar, scalar_at, field_if, pick_fields, pick_scalars, view_value, view_at, view_fields,
  whitelist_trigger_leg_view,
}

-- An entry that is only there where a test holds.
abbrev pub only : Bool → Option Json → Option Json
only true o = o
only false o = none

get-field_if :
    (k key : Text) (o : Option Json) (rest : Fields)
    → text_eq k key ≡ true
    → (get_field rest key ≡ none) ⊎ (get_field rest key ≡ o)
    → get_field (field_if k o rest) key ≡ o
get-field_if k key none rest e (inl h) = h
get-field_if k key none rest e (inr h) = h
get-field_if k key (some v) rest e h = unfold get_field in rw e refl

get-field_if_other :
    (k key : Text) (o : Option Json) (rest : Fields)
    → text_eq k key ≡ false
    → get_field (field_if k o rest) key ≡ get_field rest key
get-field_if_other k key none rest e = refl
get-field_if_other k key (some v) rest e = unfold get_field in rw e refl

from_only : (b : Bool) (o g : Option Json) → g ≡ only b o → (g ≡ none) ⊎ (g ≡ o)
from_only true o g h = inr h
from_only false o g h = inl h

pub view_fields-get :
    (fields : Fields) (keys : List Text) (key : Text)
    → get_field (view_fields fields keys) key ≡ only (contains keys key) (view_at fields key)
unfolding view_fields get_field
view_fields-get fields [] key = refl
view_fields-get fields (k ∷ keys) key =
    let ih = view_fields-get fields keys key in
    elim (Bool-cases (text_eq k key)) [
      | inl e ↦
          let same : view_at fields k ≡ view_at fields key =
            ap (view_at fields) (text_eq→eq k key e) in
          rw e (
            get-field_if k key (view_at fields k) (view_fields fields keys) e
              (rw same (from_only (contains keys key) (view_at fields key) _ ih))
            ∙ same)
      | inr e ↦ rw e (get-field_if_other k key (view_at fields k) (view_fields fields keys) e ∙ ih)
    ]

pub pick_fields-get :
    (fields : Fields) (keys : List Text) (key : Text)
    → get_field (pick_fields fields keys) key ≡ only (contains keys key) (scalar_at fields key)
unfolding pick_fields get_field
pick_fields-get fields [] key = refl
pick_fields-get fields (k ∷ keys) key =
    let ih = pick_fields-get fields keys key in
    elim (Bool-cases (text_eq k key)) [
      | inl e ↦
          let same : scalar_at fields k ≡ scalar_at fields key =
            ap (scalar_at fields) (text_eq→eq k key e) in
          rw e (
            get-field_if k key (scalar_at fields k) (pick_fields fields keys) e
              (rw same (from_only (contains keys key) (scalar_at fields key) _ ih))
            ∙ same)
      | inr e ↦
          rw e (get-field_if_other k key (scalar_at fields k) (pick_fields fields keys) e ∙ ih)
    ]

-- A value that is neither a list nor an object.
abbrev pub scalar : Option Json → Option Json
scalar none = none
scalar (some null) = some null
scalar (some (bool b)) = some (bool b)
scalar (some (num n)) = some (num n)
scalar (some (str s)) = some (str s)
scalar (some (arr items)) = none
scalar (some (obj fields)) = none

-- Of an object the listed scalars are shown and nothing else; null for what is no object.
abbrev pub Filtered : List Text → Option Json → Option Json → Type 0
Filtered keys none shown = shown ≡ none
Filtered keys (some (obj inner)) shown =
    (kept : Fields) × (shown ≡ some (obj kept))
    × ((k : Text) → get_field kept k ≡ only (contains keys k) (scalar (get_field inner k)))
Filtered keys (some _) shown = shown ≡ some null

-- What is shown under a listed key, of the value that the keeper has there.
abbrev pub Shown : Text → Option Json → Option Json → Type 0
Shown key value shown =
    ((key ≡ codes "armed") × Filtered trigger_leg_armed_fields value shown)
    ⊎ (((key ≡ codes "last_fire") × Filtered trigger_leg_last_fire_fields value shown)
        ⊎ ((key ≢ codes "armed") × (key ≢ codes "last_fire") × (shown ≡ scalar value)))

abbrev pub Displays : Fields → Text → Option Json → Type 0
Displays fields key shown =
    ((contains trigger_leg_view_fields key ≡ false) × (shown ≡ none))
    ⊎ ((contains trigger_leg_view_fields key ≡ true) × Shown key (get_field fields key) shown)

if-scalar :
    (o : Option Json)
    → elim o [ none ↦ none | some v ↦ if is_json_scalar v then some v else none ] ≡ scalar o
if-scalar none = refl
if-scalar (some null) = refl
if-scalar (some (bool b)) = refl
if-scalar (some (num n)) = refl
if-scalar (some (str s)) = refl
if-scalar (some (arr items)) = refl
if-scalar (some (obj fields)) = refl

pick-Filtered :
    (keys : List Text) (o : Option Json)
    → Filtered keys o (elim o [ none ↦ none | some v ↦ some (pick_scalars v keys) ])
unfolding pick_scalars
pick-Filtered keys none = refl
pick-Filtered keys (some (obj inner)) = (
  pick_fields inner keys,
  refl,
  λ k. pick_fields-get inner keys k ∙ ap (only (contains keys k)) (if-scalar (get_field inner k)),
)
pick-Filtered keys (some null) = refl
pick-Filtered keys (some (bool b)) = refl
pick-Filtered keys (some (num n)) = refl
pick-Filtered keys (some (str s)) = refl
pick-Filtered keys (some (arr items)) = refl

eq_apart : (s t : Text) → text_eq s t ≡ false → s ≢ t
eq_apart s t h e = let same : text_eq s t ≡ true = (text_eq_iff s t).1 e in cc

view_value-armed :
    (key : Text) (o : Option Json)
    → text_eq key (codes "armed") ≡ true
    → elim o [ none ↦ none | some v ↦ some (pick_scalars v trigger_leg_armed_fields) ]
      ≡ elim o [ none ↦ none | some v ↦ view_value key v ]
unfolding view_value
view_value-armed key none a = refl
view_value-armed key (some v) a = rw a refl

view_value-last_fire :
    (key : Text) (o : Option Json)
    → text_eq key (codes "armed") ≡ false
    → text_eq key (codes "last_fire") ≡ true
    → elim o [ none ↦ none | some v ↦ some (pick_scalars v trigger_leg_last_fire_fields) ]
      ≡ elim o [ none ↦ none | some v ↦ view_value key v ]
unfolding view_value
view_value-last_fire key none a l = refl
view_value-last_fire key (some v) a l = rw (a, l) refl

view_value-other :
    (key : Text) (o : Option Json)
    → text_eq key (codes "armed") ≡ false
    → text_eq key (codes "last_fire") ≡ false
    → elim o [ none ↦ none | some v ↦ view_value key v ]
      ≡ elim o [ none ↦ none | some v ↦ if is_json_scalar v then some v else none ]
unfolding view_value
view_value-other key none a l = refl
view_value-other key (some v) a l = rw (a, l) refl

view_value-Shown :
    (key : Text) (o : Option Json)
    → Shown key o (elim o [ none ↦ none | some v ↦ view_value key v ])
view_value-Shown key o = elim (Bool-cases (text_eq key (codes "armed"))) [
  | inl a ↦ inl (
    text_eq→eq key _ a,
    subst (Filtered trigger_leg_armed_fields o) (view_value-armed key o a)
        (pick-Filtered trigger_leg_armed_fields o),
  )
  | inr a ↦ elim (Bool-cases (text_eq key (codes "last_fire"))) [
    | inl l ↦ inr (
        inl (
          text_eq→eq key _ l,
          subst (Filtered trigger_leg_last_fire_fields o) (view_value-last_fire key o a l)
              (pick-Filtered trigger_leg_last_fire_fields o),
        ))
    | inr l ↦
        inr (inr (eq_apart key _ a, eq_apart key _ l, view_value-other key o a l ∙ if-scalar o))
  ]
]

-- A reader of the view of a leg finds nothing under a key that is not listed. Under `armed` and
-- `last_fire` it finds their listed fields, each only if its value is neither a list nor an object, or
-- null if the keeper's value is no object; and under another listed key the keeper's own value, if that
-- is neither a list nor an object, and else nothing.
pub whitelist-reads :
    (fields : Fields) (key : Text)
    → (out : Fields) × (whitelist_trigger_leg_view (obj fields) ≡ obj out)
      × Displays fields key (get_field out key)
unfolding whitelist_trigger_leg_view view_at
whitelist-reads fields key =
    let get : get_field (view_fields fields trigger_leg_view_fields) key
        ≡ only (contains trigger_leg_view_fields key) (view_at fields key) =
      view_fields-get fields trigger_leg_view_fields key in
    (
      view_fields fields trigger_leg_view_fields,
      refl,
      elim (Bool-cases (contains trigger_leg_view_fields key)) [
        | inl t ↦ inr (
          t,
          subst (Shown key (get_field fields key))
              (sym (get ∙ ap (λ b. only b (view_at fields key)) t))
              (view_value-Shown key (get_field fields key)),
        )
        | inr f ↦ inl (f, get ∙ ap (λ b. only b (view_at fields key)) f)
      ],
    )
