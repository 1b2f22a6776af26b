-- ===== src/Triggers/Cancel.antt =====
-- The cancellation of trigger orders: src/triggerOrders.ts.
pub mod Binding
use fermi_v1_sdk.Base.{
  ℕ, Bool, true, false, not, ◌&&◌, ◌||◌, List, [], ◌∷◌, ◌++◌, map, Option, none, some, Result, ok,
  ◌>>=◌, ◌>>◌, throw_if, ℤ, pos, eq_ℤ, Number, whole, ◌==◌, ltb, Text, codes, text_eq, length, all,
  integer_text, if◌then◌else◌,
}
use fermi_v1_sdk.Wire.{Bytes}
use fermi_v1_sdk.Platform.{Platform}
use fermi_v1_sdk.Triggers.{market_index, u16, u64}
use fermi_v1_sdk.Triggers.Request.{assert_signature}

pub record TriggerCancelParams (K : Type 0) : Type 0 where
  pub group : K
  pub fermi_account : K
  pub signer : K
  pub issued_at_ms : ℤ
  pub scope : Text
  pub client_order_ids : Option (List ℤ)
  pub oco_group : Option ℤ
  pub market_index : Option Number

abbrev pub cancel_domain : Bytes
cancel_domain = codes "fermi-trigger-cancel-v1"

abbrev pub scope_ids : Text
scope_ids = codes "ids"

abbrev pub scope_oco_group : Text
scope_oco_group = codes "oco_group"

abbrev pub scope_all : Text
scope_all = codes "all"

abbrev pub known_scope : Text → Bool
known_scope scope =
    text_eq scope scope_ids || (text_eq scope scope_oco_group || text_eq scope scope_all)

-- `{ ids: 0, oco_group: 1, all: 2 }[params.scope]`, of a scope that is known
unfoldable pub scope_code : Text → ℕ
scope_code scope =
    if text_eq scope scope_ids then 0 else if text_eq scope scope_oco_group then 1 else 2

-- `!params.ocoGroup`
abbrev pub no_group : Option ℤ → Bool
no_group none = true
no_group (some z) = eq_ℤ z (pos 0)

abbrev pub ids_of : Option (List ℤ) → List ℤ
ids_of none = []
ids_of (some ids) = ids

unfoldable pub check_market : Option Number → Result (Unit {0})
unfolding market_index
check_market none = ok tt
check_market (some m) = market_index m >>= λ _. ok tt

abbrev pub market_or_any : Option Number → Number
market_or_any none = whole (pos 0xffff)
market_or_any (some m) = m

abbrev pub group_or_zero : Option ℤ → ℤ
group_or_zero none = pos 0
group_or_zero (some z) = z

-- `ids.map(u64)`, put together
unfoldable pub ids_bytes : List ℤ → Result Bytes
unfolding u64
ids_bytes [] = ok []
ids_bytes (id ∷ ids) = do b ← u64 id; bs ← ids_bytes ids; ok (b ++ bs)

-- The body of the request of `cancelTriggerOrders`; an absent field is sent as null.
pub record CancelBody : Type 0 where
  pub mango_account : Text
  pub signer : Text
  pub issued_at_ms : Text
  pub scope : Text
  pub client_order_ids : List Text
  pub oco_group : Option Text
  pub market_index : Option Number
  pub signature : Bytes

abbrev pub group_text : Option ℤ → Option Text
group_text none = none
group_text (some z) = some (integer_text z)

module _ (W : Platform) where
  open W use {PublicKey, equals, to_bytes, to_base58, sha256, sign_detached, key_of_secret}

  unfoldable pub cancel_message_bytes : TriggerCancelParams PublicKey → Result Bytes
  unfolding u64 u16 ids_bytes scope_code
  cancel_message_bytes params = do
    let ids = ids_of params.client_order_ids
    throw_if (not (known_scope params.scope)) "invalid cancel scope"
    throw_if (ltb 0xffff (length ids) || text_eq params.scope scope_ids && length ids == 0)
        "ids scope needs 1 to 65535 clientOrderIds"
    throw_if (text_eq params.scope scope_oco_group && no_group params.oco_group)
        "oco_group scope needs a non-zero ocoGroup"
    check_market params.market_index
    issued ← u64 params.issued_at_ms
    market ← u16 (market_or_any params.market_index)
    oco ← u64 (group_or_zero params.oco_group)
    count ← u16 (whole (pos (length ids)))
    bytes ← ids_bytes ids
    ok (
        cancel_domain
        ++ (to_bytes params.group
            ++ (to_bytes params.fermi_account
                ++ (to_bytes params.signer
                    ++ (issued
                        ++ (scope_code params.scope ∷ (market ++ (oco ++ (count ++ bytes)))))))))

  unfoldable pub trigger_cancel_message_hash : TriggerCancelParams PublicKey → Result Bytes
  unfolding cancel_message_bytes
  trigger_cancel_message_hash params = do bytes ← cancel_message_bytes params; ok (sha256 bytes)

  unfoldable pub sign_trigger_cancel : TriggerCancelParams PublicKey → Bytes → Result Bytes
  unfolding trigger_cancel_message_hash
  sign_trigger_cancel params secret = do
    throw_if (not (length secret == 64)) "bad secret key size"
    throw_if (not (equals (key_of_secret secret) params.signer)) "cancel signer does not match"
    hash ← trigger_cancel_message_hash params
    ok (sign_detached hash secret)

  unfoldable pub cancel_body : TriggerCancelParams PublicKey → Bytes → Result CancelBody
  unfolding trigger_cancel_message_hash assert_signature
  cancel_body params signature = do
    hash ← trigger_cancel_message_hash params
    assert_signature W hash signature params.signer
    ok (record {
      mango_account = to_base58 params.fermi_account;
      signer = to_base58 params.signer;
      issued_at_ms = integer_text params.issued_at_ms;
      scope = params.scope;
      client_order_ids = map integer_text (ids_of params.client_order_ids);
      oco_group = group_text params.oco_group;
      market_index = params.market_index;
      signature = signature;
    })

pub record CancelResult : Type 0 where
  pub id : Text
  pub outcome : Text
  pub state : Text

abbrev pub is_final : CancelResult → Bool
is_final r = text_eq r.outcome (codes "cancelled") || text_eq r.outcome (codes "already_terminal")

unfoldable pub trigger_cancel_is_final : List CancelResult → Bool
trigger_cancel_is_final results = all is_final results
