-- ===== src/Views.antt =====
-- src/triggerOrderViews.ts: what a client is shown of a trigger order. A JSON object is the list of
-- its own properties in the order of `Object.keys`; an absent property reads as none.
pub mod Redact
pub mod Sanitize
mod Tests
use fermi_v1_sdk.Base.{
  ℕ, Bool, true, false, not, ◌&&◌, ◌||◌, List, [], ◌∷◌, Option, none, some, Number, Text, codes,
  text_eq, if◌then◌else◌, any, all, length, leb, in_range, is_digit, is_lower, is_upper, ◌==◌,
}

mutual
  pub data Json : Type 0 where
    null : Json
    bool : Bool → Json
    num : Number → Json
    str : Text → Json
    arr : Items → Json
    obj : Fields → Json

  pub data Items : Type 0 where
    nil : Items
    item : Json → Items → Items

  pub data Fields : Type 0 where
    empty : Fields
    field : Text → Json → Fields → Fields

-- `record[key]`, and `hasOwnProperty` by whether there is one
unfoldable pub get_field : Fields → Text → Option Json
get_field empty key = none
get_field (field k v rest) key = if text_eq k key then some v else get_field rest key

-- `record[key] = value`
unfoldable pub set_field : Fields → Text → Json → Fields
set_field empty key value = field key value empty
set_field (field k v rest) key value =
    if text_eq k key then field k value rest else field k v (set_field rest key value)

abbrev pub contains : List Text → Text → Bool
contains keys key = any (λ k. text_eq k key) keys

abbrev pub trigger_leg_view_fields : List Text
trigger_leg_view_fields =
    codes "id"
    ∷ codes "mango_account"
    ∷ codes "account_owner"
    ∷ codes "market_index"
    ∷ codes "client_order_id"
    ∷ codes "kind"
    ∷ codes "direction"
    ∷ codes "side"
    ∷ codes "trigger_price_lots"
    ∷ codes "limit_price_lots"
    ∷ codes "max_base_lots"
    ∷ codes "reduce_only"
    ∷ codes "oco_group"
    ∷ codes "expiry_ts"
    ∷ codes "state"
    ∷ codes "state_reason"
    ∷ codes "wait_reason"
    ∷ codes "resign_required"
    ∷ codes "created_ms"
    ∷ codes "updated_ms"
    ∷ codes "armed"
    ∷ codes "last_fire"
    ∷ []

abbrev pub trigger_leg_armed_fields : List Text
trigger_leg_armed_fields = codes "slot" ∷ codes "ts_ms" ∷ codes "position_lots" ∷ []

abbrev pub trigger_leg_last_fire_fields : List Text
trigger_leg_last_fire_fields =
    codes "attempt" ∷ codes "sequence" ∷ codes "ts_ms" ∷ codes "outcome" ∷ []

abbrev pub trigger_forbidden_keys : List Text
trigger_forbidden_keys =
    codes "payload_b64"
    ∷ codes "user_signature_b64"
    ∷ codes "remaining_accounts"
    ∷ codes "request"
    ∷ []

abbrev pub max_redact_depth : ℕ
max_redact_depth = 12

-- `/^[1-9A-HJ-NP-Za-km-z]{32,44}$/`
abbrev pub is_base58_unit : ℕ → Bool
is_base58_unit c =
    in_range b'1' b'9' c
    || (in_range b'A' b'H' c
        || (in_range b'J' b'N' c
            || (in_range b'P' b'Z' c || (in_range b'a' b'k' c || in_range b'm' b'z' c))))

abbrev pub sized : ℕ → ℕ → Text → Bool
sized least most s = leb least (length s) && leb (length s) most

unfoldable pub is_base58_pubkey : Text → Bool
is_base58_pubkey s = sized 32 44 s && all is_base58_unit s

-- `/^[A-Za-z0-9_.:-]{1,128}$/`
abbrev pub is_leg_id_unit : ℕ → Bool
is_leg_id_unit c =
    is_upper c
    || (is_lower c || (is_digit c || (c == b'_' || (c == b'.' || (c == b':' || c == b'-')))))

unfoldable pub is_trigger_leg_id : Text → Bool
is_trigger_leg_id s =
    sized 1 128 s
    && (all is_leg_id_unit s && (not (text_eq s (codes ".")) && not (text_eq s (codes ".."))))
