-- ===== src/Views/Redact/Clean.antt =====
-- No forbidden key is left anywhere: src/triggerOrderViews.ts.
use fermi_v1_sdk.Base.{
  ℕ, suc, ◌≡◌, refl, arith, Bool, true, false, not, ◌&&◌, ◌||◌, List, [], ◌∷◌, Option, none, some,
  Text, codes, text_eq, if◌then◌else◌, ltb, all, Bool-cases, inl, inr,
}
use fermi_v1_sdk.Views.{
  Json, null, bool, num, str, arr, obj, Items, nil, item, Fields, empty, field, get_field,
  set_field, trigger_leg_view_fields, trigger_leg_armed_fields, trigger_leg_last_fire_fields,
  max_redact_depth,
}
use fermi_v1_sdk.Views.Redact.{
  is_json_scalar, scalar_at, field_if, pick_fields, pick_scalars, view_value, view_at, view_fields,
  whitelist_trigger_leg_view, is_stripped, strip_forbidden_keys, strip_items, strip_fields,
  view_items, redact_orders, redact_order, redact_fields, redact_trigger_keeper_response,
}

-- The keys that make a stored leg replayable, and the one that would change an object's prototype.
abbrev pub replays : Text → Bool
replays key =
    text_eq (codes "payload_b64") key
    || (text_eq (codes "user_signature_b64") key
        || (text_eq (codes "remaining_accounts") key
            || (text_eq (codes "request") key || text_eq key (codes "__proto__"))))

stripped-replays : (key : Text) → is_stripped key ≡ false → replays key ≡ false
stripped-replays key h =
    same (text_eq (codes "payload_b64") key) (text_eq (codes "user_signature_b64") key)
      (text_eq (codes "remaining_accounts") key) (text_eq (codes "request") key)
      (text_eq key (codes "__proto__")) h
  where
    same :
        (a b c d e : Bool)
        → ((a || (b || (c || (d || false)))) || e) ≡ false
        → (a || (b || (c || (d || e)))) ≡ false
    same a b c d e h = ground arith

-- No object in the value, at any depth, has such a key.
unfoldable mutual
  pub clean : Json → Bool
  clean (arr items) = clean_items items
  clean (obj fields) = clean_fields fields
  clean null = true
  clean (bool b) = true
  clean (num n) = true
  clean (str s) = true

  pub clean_items : Items → Bool
  clean_items nil = true
  clean_items (item v rest) = clean v && clean_items rest

  pub clean_fields : Fields → Bool
  clean_fields empty = true
  clean_fields (field k v rest) = not (replays k) && (clean v && clean_fields rest)

clean-if : (b : Bool) (v : Json) → clean v ≡ true → clean (if b then null else v) ≡ true
unfolding clean
clean-if true v h = refl
clean-if false v h = h

clean-item :
    (v : Json) (rest : Items)
    → clean v ≡ true
    → clean_items rest ≡ true
    → clean_items (item v rest) ≡ true
unfolding clean
clean-item v rest h k = rw (h, k) refl

clean-field :
    (key : Text) (v : Json) (rest : Fields)
    → replays key ≡ false
    → clean v ≡ true
    → clean_fields rest ≡ true
    → clean_fields (field key v rest) ≡ true
unfolding clean
clean-field key v rest s h k = rw (s, h, k) refl

clean-strip_field :
    (key : Text) (v : Json) (rest : Fields)
    → clean v ≡ true
    → clean_fields rest ≡ true
    → clean_fields (if is_stripped key then rest else field key v rest) ≡ true
clean-strip_field key v rest h k = elim (Bool-cases (is_stripped key)) [
  | inl e ↦ rw e k
  | inr e ↦ rw e (clean-field key v rest (stripped-replays key e) h k)
]

mutual
  unfolding strip_forbidden_keys clean

  strip-clean : (v : Json) (depth : ℕ) → clean (strip_forbidden_keys v depth) ≡ true
  strip-clean (arr items) depth =
      clean-if (ltb max_redact_depth depth) (arr (strip_items items (suc depth)))
        (strip_items-clean items (suc depth))
  strip-clean (obj fields) depth =
      clean-if (ltb max_redact_depth depth) (obj (strip_fields fields (suc depth)))
        (strip_fields-clean fields (suc depth))
  strip-clean null depth = refl
  strip-clean (bool b) depth = clean-if (ltb max_redact_depth depth) (bool b) refl
  strip-clean (num n) depth = clean-if (ltb max_redact_depth depth) (num n) refl
  strip-clean (str s) depth = clean-if (ltb max_redact_depth depth) (str s) refl

  strip_items-clean : (items : Items) (depth : ℕ) → clean_items (strip_items items depth) ≡ true
  strip_items-clean nil depth = refl
  strip_items-clean (item v rest) depth =
      clean-item (strip_forbidden_keys v depth) (strip_items rest depth) (strip-clean v depth)
        (strip_items-clean rest depth)

  strip_fields-clean :
      (fields : Fields) (depth : ℕ) → clean_fields (strip_fields fields depth) ≡ true
  strip_fields-clean empty depth = refl
  strip_fields-clean (field k v rest) depth =
      clean-strip_field k (strip_forbidden_keys v depth) (strip_fields rest depth)
        (strip-clean v depth) (strip_fields-clean rest depth)

clean-scalar : (v : Json) → is_json_scalar v ≡ true → clean v ≡ true
unfolding clean
clean-scalar null h = refl
clean-scalar (bool b) h = refl
clean-scalar (num n) h = refl
clean-scalar (str s) h = refl
clean-scalar (arr i) h = cc
clean-scalar (obj f) h = cc

-- An entry that may be missing is clean when it is there.
abbrev CleanEntry : Option Json → Type 0
CleanEntry none = Unit
CleanEntry (some v) = clean v ≡ true

clean-field_if :
    (key : Text) (o : Option Json) (rest : Fields)
    → replays key ≡ false
    → CleanEntry o
    → clean_fields rest ≡ true
    → clean_fields (field_if key o rest) ≡ true
clean-field_if key none rest s h k = k
clean-field_if key (some v) rest s h k = clean-field key v rest s h k

scalar_entry :
    (b : Bool) (v : Json) → is_json_scalar v ≡ b → CleanEntry (if b then some v else none)
scalar_entry true v e = clean-scalar v e
scalar_entry false v e = tt

scalar_at-clean : (fields : Fields) (key : Text) → CleanEntry (scalar_at fields key)
scalar_at-clean fields key = go (get_field fields key)
  where
    go :
        (o : Option Json)
        → CleanEntry (elim o [ none ↦ none | some v ↦ if is_json_scalar v then some v else none ])
    go none = tt
    go (some v) = scalar_entry (is_json_scalar v) v refl

abbrev safe_keys : List Text → Bool
safe_keys keys = all (λ k. not (replays k)) keys

safe_key :
    (k : Text) (keys : List Text)
    → safe_keys (k ∷ keys) ≡ true
    → (replays k ≡ false) × (safe_keys keys ≡ true)
safe_key k keys h = (ground arith, ground arith)

pick_fields-clean :
    (fields : Fields) (keys : List Text)
    → safe_keys keys ≡ true
    → clean_fields (pick_fields fields keys) ≡ true
unfolding pick_fields clean
pick_fields-clean fields [] h = refl
pick_fields-clean fields (k ∷ keys) h =
    let (s, t) = safe_key k keys h in
    clean-field_if k (scalar_at fields k) (pick_fields fields keys) s (scalar_at-clean fields k)
      (pick_fields-clean fields keys t)

pick_scalars-clean :
    (v : Json) (keys : List Text) → safe_keys keys ≡ true → clean (pick_scalars v keys) ≡ true
unfolding pick_scalars clean
pick_scalars-clean (obj fields) keys h = pick_fields-clean fields keys h
pick_scalars-clean null keys h = refl
pick_scalars-clean (bool b) keys h = refl
pick_scalars-clean (num n) keys h = refl
pick_scalars-clean (str s) keys h = refl
pick_scalars-clean (arr i) keys h = refl

view_value-clean : (key : Text) (v : Json) → CleanEntry (view_value key v)
unfolding view_value text_eq
view_value-clean key v = go (text_eq key (codes "armed")) (text_eq key (codes "last_fire"))
  where
    go :
        (a b : Bool)
        → CleanEntry (
            if a
            then some (pick_scalars v trigger_leg_armed_fields)
            else if b
            then some (pick_scalars v trigger_leg_last_fire_fields)
            else if is_json_scalar v
            then some v
            else none)
    go true b = pick_scalars-clean v trigger_leg_armed_fields refl
    go false true = pick_scalars-clean v trigger_leg_last_fire_fields refl
    go false false = scalar_entry (is_json_scalar v) v refl

view_at-clean : (fields : Fields) (key : Text) → CleanEntry (view_at fields key)
unfolding view_at get_field
view_at-clean fields key = go (get_field fields key)
  where
    go : (o : Option Json) → CleanEntry (elim o [ none ↦ none | some v ↦ view_value key v ])
    go none = tt
    go (some v) = view_value-clean key v

view_fields-clean :
    (fields : Fields) (keys : List Text)
    → safe_keys keys ≡ true
    → clean_fields (view_fields fields keys) ≡ true
unfolding view_fields clean
view_fields-clean fields [] h = refl
view_fields-clean fields (k ∷ keys) h =
    let (s, t) = safe_key k keys h in
    clean-field_if k (view_at fields k) (view_fields fields keys) s (view_at-clean fields k)
      (view_fields-clean fields keys t)

whitelist-clean : (v : Json) → clean (whitelist_trigger_leg_view v) ≡ true
unfolding whitelist_trigger_leg_view clean text_eq
whitelist-clean (obj fields) = view_fields-clean fields trigger_leg_view_fields refl
whitelist-clean null = refl
whitelist-clean (bool b) = refl
whitelist-clean (num n) = refl
whitelist-clean (str s) = refl
whitelist-clean (arr i) = refl

view_items-clean : (items : Items) → clean_items (view_items items) ≡ true
unfolding view_items clean
view_items-clean nil = refl
view_items-clean (item (obj fields) rest) =
    clean-item (whitelist_trigger_leg_view (obj fields)) (view_items rest)
      (whitelist-clean (obj fields)) (view_items-clean rest)
view_items-clean (item null rest) = view_items-clean rest
view_items-clean (item (bool b) rest) = view_items-clean rest
view_items-clean (item (num n) rest) = view_items-clean rest
view_items-clean (item (str s) rest) = view_items-clean rest
view_items-clean (item (arr i) rest) = view_items-clean rest

clean_parts :
    (k : Text) (v : Json) (rest : Fields)
    → clean_fields (field k v rest) ≡ true
    → (replays k ≡ false) × (clean v ≡ true) × (clean_fields rest ≡ true)
unfolding clean
clean_parts k v rest h = three (replays k) (clean v) (clean_fields rest) h
  where
    three : (a b c : Bool) → (not a && (b && c)) ≡ true → (a ≡ false) × (b ≡ true) × (c ≡ true)
    three a b c h = (ground arith, ground arith, ground arith)

set_field-clean :
    (fields : Fields) (key : Text) (v : Json)
    → clean_fields fields ≡ true
    → replays key ≡ false
    → clean v ≡ true
    → clean_fields (set_field fields key v) ≡ true
unfolding set_field
set_field-clean empty key v h s c = clean-field key v empty s c h
set_field-clean (field k w rest) key v h s c =
    let (hk, hw, hr) = clean_parts k w rest h in
    elim (Bool-cases (text_eq k key)) [
      | inl e ↦ rw e (clean-field k v rest hk c hr)
      | inr e ↦
          rw e (clean-field k w (set_field rest key v) hk hw (set_field-clean rest key v hr s c))
    ]

redact_orders-clean :
    (fields : Fields) → clean_fields fields ≡ true → clean_fields (redact_orders fields) ≡ true
unfolding text_eq redact_orders get_field
redact_orders-clean fields h = go (get_field fields (codes "orders"))
  where
    go :
        (o : Option Json)
        → clean_fields (elim o [
          | some (arr items) ↦ set_field fields (codes "orders") (arr (view_items items))
          | _ ↦ fields
        ])
          ≡ true
    go none = h
    go (some (arr items)) =
        set_field-clean fields (codes "orders") (arr (view_items items)) h refl
          (unfold clean in view_items-clean items)
    go (some null) = h
    go (some (bool b)) = h
    go (some (num n)) = h
    go (some (str s)) = h
    go (some (obj f)) = h

redact_order-clean :
    (fields : Fields) → clean_fields fields ≡ true → clean_fields (redact_order fields) ≡ true
unfolding text_eq redact_order get_field
redact_order-clean fields h = go (get_field fields (codes "order"))
  where
    set :
        (v : Json)
        → clean_fields (set_field fields (codes "order") (whitelist_trigger_leg_view v)) ≡ true
    set v =
        set_field-clean fields (codes "order") (whitelist_trigger_leg_view v) h refl
          (whitelist-clean v)

    go :
        (o : Option Json)
        → clean_fields (elim o [
          | none ↦ fields
          | some null ↦ fields
          | some v ↦ set_field fields (codes "order") (whitelist_trigger_leg_view v)
        ])
          ≡ true
    go none = h
    go (some null) = h
    go (some (arr items)) = set (arr items)
    go (some (bool b)) = set (bool b)
    go (some (num n)) = set (num n)
    go (some (str s)) = set (str s)
    go (some (obj f)) = set (obj f)

redact_fields-clean : (v : Json) → clean v ≡ true → clean (redact_fields v) ≡ true
unfolding clean
redact_fields-clean (obj fields) h =
    redact_order-clean (redact_orders fields) (redact_orders-clean fields h)
redact_fields-clean null h = h
redact_fields-clean (bool b) h = h
redact_fields-clean (num n) h = h
redact_fields-clean (str s) h = h
redact_fields-clean (arr i) h = h

-- Whatever a keeper answers, no object at any depth of the redacted answer has one of the keys that
-- make a leg replayable, nor `__proto__`.
pub redact-clean : (body : Json) → clean (redact_trigger_keeper_response body) ≡ true
unfolding redact_trigger_keeper_response
redact-clean body = redact_fields-clean (strip_forbidden_keys body 0) (strip-clean body 0)
