-- ===== src/Triggers/Listing.antt =====
-- The queries of the trigger client: src/triggerOrders.ts.
use fermi_v1_sdk.Base.{
  ℕ, Bool, true, false, not, ◌&&◌, ◌||◌, List, [], ◌∷◌, ◌++◌, Option, none, some, Result, ok, err,
  ◌>>=◌, ◌>>◌, throw_if, ℤ, pos, Number, whole, ◌==◌, leb, ltb, Text, codes, text_eq, length, all,
  decimal, if◌then◌else◌, is_digit, is_lower, is_upper, String,
}
use fermi_v1_sdk.Wire.{u64_max}
use fermi_v1_sdk.Platform.{Platform}
use fermi_v1_sdk.Triggers.{integer, market_index}

pub record TriggerOrderListQuery (K : Type 0) : Type 0 where
  pub fermi_account : Option K
  pub account_owner : Option K
  pub active_only : Option Bool
  pub market_index : Option Number
  pub client_order_id : Option ℤ
  pub oco_group : Option ℤ
  pub limit : Option Number

-- `URLSearchParams`, in the order of the calls of `set`
abbrev pub Query : Type 0
Query = List (Text × Text)

abbrev pub bool_text : Bool → Text
bool_text true = codes "true"
bool_text false = codes "false"

abbrev pub is_absent {ℓ} : {A : Type ℓ} → Option A → Bool
is_absent none = true
is_absent (some a) = false

unfoldable pub market_entry : Option Number → Result Query
unfolding market_index
market_entry none = ok []
market_entry (some m) = market_index m >>= λ n. ok ((codes "market_index", decimal n) ∷ [])

unfoldable pub u64_entry : String → String → Option ℤ → Result Query
unfolding integer
u64_entry name message none = ok []
u64_entry name message (some z) =
    integer z u64_max message 0 >>= λ n. ok ((codes name, decimal n) ∷ [])

unfoldable pub limit_entry : Option Number → Result Query
limit_entry none = ok []
limit_entry (some (whole (pos n))) =
    if ltb n 1 || ltb 1000 n
    then err "limit must be 1 to 1000"
    else ok ((codes "limit", decimal n) ∷ [])
limit_entry (some _) = err "limit must be 1 to 1000"

abbrev pub active_entry : Option Bool → Query
active_entry none = []
active_entry (some b) = (codes "active", bool_text b) ∷ []

-- The ids that a path may hold: `/^[A-Za-z0-9_.:-]{1,128}$/`, and not a dot or two
abbrev pub is_id_unit : ℕ → Bool
is_id_unit c =
    is_upper c
    || (is_lower c || (is_digit c || (c == b'_' || (c == b'.' || (c == b':' || c == b'-')))))

unfoldable pub valid_trigger_order_id : Text → Bool
valid_trigger_order_id id =
    leb 1 (length id)
    && (leb (length id) 128
        && (all is_id_unit id && (not (text_eq id (codes ".")) && not (text_eq id (codes "..")))))

-- `encodeURIComponent`, on the units that such an id has: it writes a colon as `%3A`
unfoldable pub encode_id : Text → Text
encode_id [] = []
encode_id (c ∷ s) = (if c == b':' then codes "%3A" else c ∷ []) ++ encode_id s

unfoldable pub trigger_order_path : Text → Result Text
unfolding valid_trigger_order_id encode_id
trigger_order_path id = do
  throw_if (not (valid_trigger_order_id id)) "invalid trigger order id"
  ok (codes "/trigger-orders/" ++ encode_id id)

module _ (W : Platform) where
  open W use {PublicKey, to_base58}

  abbrev pub key_entry : String → Option PublicKey → Query
  key_entry name none = []
  key_entry name (some k) = (codes name, to_base58 k) ∷ []

  unfoldable pub trigger_orders_query : TriggerOrderListQuery PublicKey → Result Query
  unfolding limit_entry
  trigger_orders_query query = do
    throw_if (is_absent query.fermi_account && is_absent query.account_owner)
        "fermiAccount or accountOwner is required"
    market ← market_entry query.market_index
    id ←
        u64_entry "client_order_id" "clientOrderId is out of range; use bigint"
          query.client_order_id
    oco ← u64_entry "oco_group" "ocoGroup is out of range; use bigint" query.oco_group
    limit ← limit_entry query.limit
    ok (
        key_entry "mango_account" query.fermi_account
        ++ (key_entry "account_owner" query.account_owner
            ++ (active_entry query.active_only ++ (market ++ (id ++ (oco ++ limit))))))
