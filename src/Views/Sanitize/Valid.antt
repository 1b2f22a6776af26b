-- ===== src/Views/Sanitize/Valid.antt =====
-- Which legs pass the validation, and that a valid one passes unchanged: src/triggerOrderViews.ts.
use fermi_v1_sdk.Base.{
  ℕ, ◌≤◌, ◌≡◌, ◌⊎◌, inl, inr, refl, subst, arith, Bool, true, false, ◌&&◌, Option, none, some, Text,
  codes, text_eq, text_eq→eq, if◌then◌else◌, ltb, leb, le→leb, leb→le, length, length-take, take,
  pos, negsuc, whole, other, max_safe, decimal, decimal-digits, length-decimal, integer_text,
  number_text, Bool-cases, &&_parts, some_injective,
}
use fermi_v1_sdk.Views.{
  Json, null, bool, num, str, arr, obj, Fields, get_field, is_base58_pubkey, is_trigger_leg_id,
}
use fermi_v1_sdk.Views.Sanitize.{
  unsigned_decimal, state_name, when, decimal_string, non_negative_safe_integer, reason_string,
  ◌>>=?◌, text_where, boolean_at, market_index_at, either, TriggerLegView, sanitize_fields,
  sanitize_trigger_leg_view,
}

pub from_some {ℓ κ μ} :
    {A : Type ℓ} {B : Type κ} {P : Type μ} (m : Option A) (f : A → Option B) {b : B}
    → (m >>=? f) ≡ some b
    → ((a : A) → m ≡ some a → f a ≡ some b → P)
    → P
from_some none f h k = cc
from_some (some a) f h k = k a refl h

-- A value that a test let through passes the test.
pub when_value {ℓ} :
    {A : Type ℓ} (b : Bool) (a : A) {r : A} → when b a ≡ some r → (b ≡ true) × (a ≡ r)
when_value true a h = (refl, some_injective h)
when_value false a h = cc

text_where_test :
    (test : Text → Bool) (v : Option Json) {s : Text} → text_where test v ≡ some s → test s ≡ true
unfolding text_where
text_where_test test none h = cc
text_where_test test (some (str t)) h = let (ok, e) = when_value (test t) t h in rw (← e) ok
text_where_test test (some null) h = cc
text_where_test test (some (bool b)) h = cc
text_where_test test (some (num n)) h = cc
text_where_test test (some (arr i)) h = cc
text_where_test test (some (obj f)) h = cc

decimal-unsigned : (n : ℕ) → n ≤ max_safe → unsigned_decimal (decimal n) ≡ true
unfolding unsigned_decimal
decimal-unsigned n h =
    let (lo, hi) = length-decimal n 20 (omega arith) (omega arith) in
    rw (le→leb 1 (length (decimal n)) lo, le→leb (length (decimal n)) 20 hi, decimal-digits n) refl

decimal_string_test :
    (v : Option Json) {s : Text} → decimal_string v ≡ some s → unsigned_decimal s ≡ true
unfolding decimal_string
decimal_string_test none h = cc
decimal_string_test (some (str t)) h =
    let (ok, e) = when_value (unsigned_decimal t) t h in rw (← e) ok
decimal_string_test (some (num (whole (pos n)))) h =
    let (ok, e) = when_value (leb n max_safe && true) (number_text (whole (pos n))) h in
    let safe : n ≤ max_safe = ground arith in
    rw (← e) (unfold number_text integer_text in decimal-unsigned n safe)
decimal_string_test (some (num (whole (negsuc n)))) h =
    let (bad, _) = when_value (ltb n max_safe && false) (number_text (whole (negsuc n))) h in
    ground arith
decimal_string_test (some (num (other t))) h = cc
decimal_string_test (some null) h = cc
decimal_string_test (some (bool b)) h = cc
decimal_string_test (some (arr i)) h = cc
decimal_string_test (some (obj f)) h = cc

safe_integer_le : (v : Option Json) {n : ℕ} → non_negative_safe_integer v ≡ some n → n ≤ max_safe
unfolding non_negative_safe_integer
safe_integer_le none h = cc
safe_integer_le (some (num (whole (pos n)))) h =
    let (ok, e) = when_value (leb n max_safe) n h in rw (← e) (leb→le n max_safe ok)
safe_integer_le (some (num (whole (negsuc n)))) h = cc
safe_integer_le (some (num (other t))) h = cc
safe_integer_le (some (str s)) h =
    let (ok, e) = when_value _ _ h in
    let (_, le) = &&_parts _ _ ok in rw (← e) (leb→le _ max_safe le)
safe_integer_le (some null) h = cc
safe_integer_le (some (bool b)) h = cc
safe_integer_le (some (arr i)) h = cc
safe_integer_le (some (obj f)) h = cc

market_index_le : (v : Option Json) {n : ℕ} → market_index_at v ≡ some n → n ≤ 0xffff
unfolding market_index_at
market_index_le v h =
    from_some (non_negative_safe_integer v) _ h
      λ n e k. let (ok, e) = when_value (leb n 0xffff) n k in rw (← e) (leb→le n 0xffff ok)

abbrev pub ShortReason : Option Text → Type 0
ShortReason none = Unit
ShortReason (some s) = length s ≤ 200

cut : (s : Text) → length (if ltb 200 (length s) then take 200 s else s) ≤ 200
cut s = elim (Bool-cases (ltb 200 (length s))) [
  | inl e ↦ rw e (omega (arith, length-take 200 s))
  | inr e ↦ rw e (ground arith)
]

reason_short : (v : Option Json) {r : Option Text} → reason_string v ≡ some r → ShortReason r
unfolding reason_string
reason_short none h = subst ShortReason (some_injective h) tt
reason_short (some null) h = subst ShortReason (some_injective h) tt
reason_short (some (str s)) h = subst ShortReason (some_injective h) (cut s)
reason_short (some (bool b)) h = cc
reason_short (some (num n)) h = cc
reason_short (some (arr i)) h = cc
reason_short (some (obj f)) h = cc

either_of : (a b s : Text) → either a b s ≡ true → (s ≡ a) ⊎ (s ≡ b)
either_of a b s h = elim (Bool-cases (text_eq s a)) [
  | inl e ↦ inl (text_eq→eq s a e)
  | inr e ↦ inr (text_eq→eq s b (rw e at h))
]

-- A leg view with every field as it is specified.
pub record Valid (v : TriggerLegView) : Type 0 where
  pub id : is_trigger_leg_id v.id ≡ true
  pub mango_account : is_base58_pubkey v.mango_account ≡ true
  pub account_owner : is_base58_pubkey v.account_owner ≡ true
  pub market_index : v.market_index ≤ 0xffff
  pub client_order_id : unsigned_decimal v.client_order_id ≡ true
  pub kind : (v.kind ≡ codes "stop_loss") ⊎ (v.kind ≡ codes "take_profit")
  pub direction : (v.direction ≡ codes "at_or_below") ⊎ (v.direction ≡ codes "at_or_above")
  pub side : (v.side ≡ codes "bid") ⊎ (v.side ≡ codes "ask")
  pub trigger_price_lots : unsigned_decimal v.trigger_price_lots ≡ true
  pub limit_price_lots : unsigned_decimal v.limit_price_lots ≡ true
  pub max_base_lots : unsigned_decimal v.max_base_lots ≡ true
  pub oco_group : unsigned_decimal v.oco_group ≡ true
  pub expiry_ts : unsigned_decimal v.expiry_ts ≡ true
  pub state : state_name v.state ≡ true
  pub state_reason : ShortReason v.state_reason
  pub wait_reason : ShortReason v.wait_reason
  pub created_ms : v.created_ms ≤ max_safe
  pub updated_ms : v.updated_ms ≤ max_safe

sanitize_fields-Valid : (raw : Fields) {v : TriggerLegView} → sanitize_fields raw ≡ some v → Valid v
unfolding sanitize_fields
sanitize_fields-Valid raw h =
    let get : Text → Option Json = get_field raw in
    from_some (text_where is_trigger_leg_id (get (codes "id"))) _ h λ id e1 h.
      from_some (text_where is_base58_pubkey (get (codes "mango_account"))) _ h λ account e2 h.
        from_some (text_where is_base58_pubkey (get (codes "account_owner"))) _ h λ owner e3 h.
          from_some (market_index_at (get (codes "market_index"))) _ h λ market e4 h.
            from_some (decimal_string (get (codes "client_order_id"))) _ h λ order e5 h.
              from_some
                (text_where (either (codes "stop_loss") (codes "take_profit")) (get (codes "kind")))
                _ h
                λ kind e6 h.
                  from_some
                    (text_where (either (codes "at_or_below") (codes "at_or_above"))
                      (get (codes "direction")))
                    _ h
                    λ direction e7 h.
                      from_some
                        (text_where (either (codes "bid") (codes "ask")) (get (codes "side"))) _ h
                        λ side e8 h.
                          from_some (decimal_string (get (codes "trigger_price_lots"))) _ h
                            λ trigger e9 h.
                              from_some (decimal_string (get (codes "limit_price_lots"))) _ h
                                λ limit e10 h.
                                  from_some (decimal_string (get (codes "max_base_lots"))) _ h
                                    λ base e11 h.
                                      from_some (boolean_at (get (codes "reduce_only"))) _ h
                                        λ reduce e12 h.
                                          from_some (decimal_string (get (codes "oco_group"))) _ h
                                            λ oco e13 h.
                                              from_some (decimal_string (get (codes "expiry_ts"))) _
                                                h
                                                λ expiry e14 h.
                                                  from_some
                                                    (text_where state_name (get (codes "state"))) _
                                                    h
                                                    λ state e15 h.
                                                      from_some
                                                        (reason_string (get (codes "state_reason")))
                                                        _ h
                                                        λ reason e16 h.
                                                          from_some
                                                            (reason_string
                                                            (get (codes "wait_reason")))
                                                            _ h
                                                            λ wait e17 h.
                                                            from_some
                                                            (boolean_at
                                                            (get (codes "resign_required")))
                                                            _ h
                                                            λ resign e18 h.
                                                            from_some
                                                            (non_negative_safe_integer
                                                            (get (codes "created_ms")))
                                                            _ h
                                                            λ created e19 h.
                                                            from_some
                                                            (non_negative_safe_integer
                                                            (get (codes "updated_ms")))
                                                            _ h
                                                            λ updated e20 h.
                                                            subst Valid (some_injective h) (record {
                                                            id =
                                                            text_where_test is_trigger_leg_id
                                                            (get (codes "id")) e1;
                                                            mango_account =
                                                            text_where_test is_base58_pubkey
                                                            (get (codes "mango_account")) e2;
                                                            account_owner =
                                                            text_where_test is_base58_pubkey
                                                            (get (codes "account_owner")) e3;
                                                            market_index =
                                                            market_index_le
                                                            (get (codes "market_index")) e4;
                                                            client_order_id =
                                                            decimal_string_test
                                                            (get (codes "client_order_id")) e5;
                                                            kind =
                                                            either_of (codes "stop_loss")
                                                            (codes "take_profit") kind
                                                            (text_where_test
                                                            (either (codes "stop_loss")
                                                            (codes "take_profit"))
                                                            (get (codes "kind")) e6);
                                                            direction =
                                                            either_of (codes "at_or_below")
                                                            (codes "at_or_above") direction
                                                            (text_where_test
                                                            (either (codes "at_or_below")
                                                            (codes "at_or_above"))
                                                            (get (codes "direction")) e7);
                                                            side =
                                                            either_of (codes "bid") (codes "ask")
                                                            side
                                                            (text_where_test
                                                            (either (codes "bid") (codes "ask"))
                                                            (get (codes "side")) e8);
                                                            trigger_price_lots =
                                                            decimal_string_test
                                                            (get (codes "trigger_price_lots")) e9;
                                                            limit_price_lots =
                                                            decimal_string_test
                                                            (get (codes "limit_price_lots")) e10;
                                                            max_base_lots =
                                                            decimal_string_test
                                                            (get (codes "max_base_lots")) e11;
                                                            oco_group =
                                                            decimal_string_test
                                                            (get (codes "oco_group")) e13;
                                                            expiry_ts =
                                                            decimal_string_test
                                                            (get (codes "expiry_ts")) e14;
                                                            state =
                                                            text_where_test state_name
                                                            (get (codes "state")) e15;
                                                            state_reason =
                                                            reason_short
                                                            (get (codes "state_reason")) e16;
                                                            wait_reason =
                                                            reason_short (get (codes "wait_reason"))
                                                            e17;
                                                            created_ms =
                                                            safe_integer_le
                                                            (get (codes "created_ms")) e19;
                                                            updated_ms =
                                                            safe_integer_le
                                                            (get (codes "updated_ms")) e20;
                                                            })

-- A leg that passes the validation has a leg id, base58 keys, a 16-bit market index, decimal texts of
-- 1 to 20 digits for its numbers, a known kind, direction and side, a state name, reasons of at most
-- 200 units and safe timestamps, whatever the keeper sent.
pub sanitize-Valid :
    (raw : Json) {v : TriggerLegView} → sanitize_trigger_leg_view raw ≡ some v → Valid v
unfolding sanitize_trigger_leg_view
sanitize-Valid (obj raw) h = sanitize_fields-Valid raw h
sanitize-Valid null h = cc
sanitize-Valid (bool b) h = cc
sanitize-Valid (num n) h = cc
sanitize-Valid (str s) h = cc
sanitize-Valid (arr i) h = cc
