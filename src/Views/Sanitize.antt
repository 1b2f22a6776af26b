-- ===== src/Views/Sanitize.antt =====
-- The strict validation of a leg: src/triggerOrderViews.ts.
pub mod Valid
pub mod RoundTrip
use fermi_v1_sdk.Base.{
  ℕ, Bool, true, false, not, ◌&&◌, ◌||◌, List, [], ◌∷◌, Option, none, some, Text, codes, text_eq,
  if◌then◌else◌, ltb, leb, all, length, take, ℤ, pos, negsuc, Number, whole, other, max_safe,
  is_safe_integer, is_digit, is_lower, ◌==◌, decimal_value, number_text,
}
use fermi_v1_sdk.Views.{
  Json, null, bool, num, str, arr, obj, Items, Fields, get_field, sized, is_base58_pubkey,
  is_trigger_leg_id,
}

-- `/^\d{1,20}$/` and `/^-?\d{1,20}$/`
unfoldable pub unsigned_decimal : Text → Bool
unsigned_decimal s = sized 1 20 s && all is_digit s

unfoldable pub signed_decimal : Text → Bool
unfolding unsigned_decimal
signed_decimal [] = false
signed_decimal (c ∷ s) = if c == b'-' then unsigned_decimal s else unsigned_decimal (c ∷ s)

-- `/^[a-z_]{1,48}$/`
unfoldable pub state_name : Text → Bool
state_name s = sized 1 48 s && all (λ c. is_lower c || c == b'_') s

abbrev pub when {ℓ} : {A : Type ℓ} → Bool → A → Option A
when true a = some a
when false a = none

abbrev pub is_not_negative : Number → Bool
is_not_negative (whole (pos n)) = true
is_not_negative _ = false

-- Without `signed`, and with it.
unfoldable pub decimal_string : Option Json → Option Text
unfolding unsigned_decimal number_text
decimal_string (some (str s)) = when (unsigned_decimal s) s
decimal_string (some (num n)) = when (is_safe_integer n && is_not_negative n) (number_text n)
decimal_string _ = none

unfoldable pub signed_decimal_string : Option Json → Option Text
unfolding signed_decimal number_text
signed_decimal_string (some (str s)) = when (signed_decimal s) s
signed_decimal_string (some (num n)) = when (is_safe_integer n) (number_text n)
signed_decimal_string _ = none

-- A digit text is a safe integer exactly when its value is one: `Number` rounds no safe integer.
unfoldable pub non_negative_safe_integer : Option Json → Option ℕ
unfolding unsigned_decimal
non_negative_safe_integer (some (num (whole (pos n)))) = when (leb n max_safe) n
non_negative_safe_integer (some (str s)) =
    when (unsigned_decimal s && leb (decimal_value s) max_safe) (decimal_value s)
non_negative_safe_integer _ = none

-- None stands for undefined, some none for null.
unfoldable pub reason_string : Option Json → Option (Option Text)
reason_string none = some none
reason_string (some null) = some none
reason_string (some (str s)) = some (some (if ltb 200 (length s) then take 200 s else s))
reason_string _ = none

pub record TriggerLegArmed : Type 0 where
  pub slot : ℕ
  pub ts_ms : ℕ
  pub position_lots : Text

pub record TriggerLegLastFire : Type 0 where
  pub attempt : ℕ
  pub sequence : Option Text
  pub ts_ms : ℕ
  pub outcome : Option Text

-- An absent value: the chain of the checks, the first that fails decides.
infixl 5 ◌>>=?◌
abbrev pub ◌>>=?◌ {ℓ κ} : {A : Type ℓ} {B : Type κ} → Option A → (A → Option B) → Option B
none >>=? f = none
some a >>=? f = f a

unfoldable pub sanitize_armed : Option Json → Option TriggerLegArmed
unfolding get_field non_negative_safe_integer signed_decimal_string
sanitize_armed (some (obj value)) =
    non_negative_safe_integer (get_field value (codes "slot")) >>=? λ slot.
    non_negative_safe_integer (get_field value (codes "ts_ms")) >>=? λ ts_ms.
    signed_decimal_string (get_field value (codes "position_lots")) >>=? λ position_lots.
    some (record { slot = slot; ts_ms = ts_ms; position_lots = position_lots })
sanitize_armed _ = none

-- `sequence`: null where the value is null or absent, and otherwise a decimal text
unfoldable pub sequence_string : Option Json → Option (Option Text)
unfolding decimal_string
sequence_string none = some none
sequence_string (some null) = some none
sequence_string (some v) = decimal_string (some v) >>=? λ s. some (some s)

unfoldable pub sanitize_last_fire : Option Json → Option TriggerLegLastFire
unfolding get_field non_negative_safe_integer sequence_string reason_string
sanitize_last_fire (some (obj value)) =
    non_negative_safe_integer (get_field value (codes "attempt")) >>=? λ attempt.
    non_negative_safe_integer (get_field value (codes "ts_ms")) >>=? λ ts_ms.
    reason_string (get_field value (codes "outcome")) >>=? λ outcome.
    sequence_string (get_field value (codes "sequence")) >>=? λ sequence.
    some (record { attempt = attempt; sequence = sequence; ts_ms = ts_ms; outcome = outcome })
sanitize_last_fire _ = none

-- A text property that passes a test, and a Boolean property.
unfoldable pub text_where : (Text → Bool) → Option Json → Option Text
text_where test (some (str s)) = when (test s) s
text_where test _ = none

unfoldable pub boolean_at : Option Json → Option Bool
boolean_at (some (bool b)) = some b
boolean_at _ = none

unfoldable pub market_index_at : Option Json → Option ℕ
unfolding non_negative_safe_integer
market_index_at v = non_negative_safe_integer v >>=? λ n. when (leb n 0xffff) n

abbrev pub either : Text → Text → Text → Bool
either a b s = text_eq s a || text_eq s b

pub record TriggerLegView : Type 0 where
  pub id : Text
  pub mango_account : Text
  pub account_owner : Text
  pub market_index : ℕ
  pub client_order_id : Text
  pub kind : Text
  pub direction : Text
  pub side : Text
  pub trigger_price_lots : Text
  pub limit_price_lots : Text
  pub max_base_lots : Text
  pub reduce_only : Bool
  pub oco_group : Text
  pub expiry_ts : Text
  pub state : Text
  pub state_reason : Option Text
  pub wait_reason : Option Text
  pub resign_required : Bool
  pub created_ms : ℕ
  pub updated_ms : ℕ
  pub armed : Option TriggerLegArmed
  pub last_fire : Option TriggerLegLastFire

unfoldable pub sanitize_fields : Fields → Option TriggerLegView
unfolding get_field decimal_string non_negative_safe_integer reason_string text_where boolean_at
    market_index_at state_name is_trigger_leg_id is_base58_pubkey sanitize_armed sanitize_last_fire
sanitize_fields raw = text_where is_trigger_leg_id (get_field raw (codes "id")) >>=? λ id.
    text_where is_base58_pubkey (get_field raw (codes "mango_account")) >>=? λ mango_account.
    text_where is_base58_pubkey (get_field raw (codes "account_owner")) >>=? λ account_owner.
    market_index_at (get_field raw (codes "market_index")) >>=? λ market_index.
    decimal_string (get_field raw (codes "client_order_id")) >>=? λ client_order_id.
    text_where (either (codes "stop_loss") (codes "take_profit")) (get_field raw (codes "kind"))
    >>=? λ kind.
        text_where (either (codes "at_or_below") (codes "at_or_above"))
          (get_field raw (codes "direction"))
        >>=? λ direction.
            text_where (either (codes "bid") (codes "ask")) (get_field raw (codes "side"))
            >>=? λ side.
                decimal_string (get_field raw (codes "trigger_price_lots"))
                >>=? λ trigger_price_lots.
                    decimal_string (get_field raw (codes "limit_price_lots"))
                    >>=? λ limit_price_lots.
                        decimal_string (get_field raw (codes "max_base_lots")) >>=? λ max_base_lots.
                        boolean_at (get_field raw (codes "reduce_only")) >>=? λ reduce_only.
                        decimal_string (get_field raw (codes "oco_group")) >>=? λ oco_group.
                        decimal_string (get_field raw (codes "expiry_ts")) >>=? λ expiry_ts.
                        text_where state_name (get_field raw (codes "state")) >>=? λ state.
                        reason_string (get_field raw (codes "state_reason")) >>=? λ state_reason.
                        reason_string (get_field raw (codes "wait_reason")) >>=? λ wait_reason.
                        boolean_at (get_field raw (codes "resign_required")) >>=? λ resign_required.
                        non_negative_safe_integer (get_field raw (codes "created_ms"))
                        >>=? λ created_ms.
                            non_negative_safe_integer (get_field raw (codes "updated_ms"))
                            >>=? λ updated_ms. some (record {
                              id = id;
                              mango_account = mango_account;
                              account_owner = account_owner;
                              market_index = market_index;
                              client_order_id = client_order_id;
                              kind = kind;
                              direction = direction;
                              side = side;
                              trigger_price_lots = trigger_price_lots;
                              limit_price_lots = limit_price_lots;
                              max_base_lots = max_base_lots;
                              reduce_only = reduce_only;
                              oco_group = oco_group;
                              expiry_ts = expiry_ts;
                              state = state;
                              state_reason = state_reason;
                              wait_reason = wait_reason;
                              resign_required = resign_required;
                              created_ms = created_ms;
                              updated_ms = updated_ms;
                              armed = sanitize_armed (get_field raw (codes "armed"));
                              last_fire = sanitize_last_fire (get_field raw (codes "last_fire"));
                            })

unfoldable pub sanitize_trigger_leg_view : Json → Option TriggerLegView
unfolding sanitize_fields
sanitize_trigger_leg_view (obj raw) = sanitize_fields raw
sanitize_trigger_leg_view _ = none
