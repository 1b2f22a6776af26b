-- ===== src/Triggers/Legs.antt =====
-- How a leg is built: src/triggerOrders.ts. A random number is taken from a list of draws, each one a
-- u64; the list that is left is part of the result, and a run that uses them all up is an error.
pub mod Built
pub mod Safe
pub mod Returns
pub mod Groups
use fermi_v1_sdk.Base.{
  ℕ, zero, suc, ◌+◌, ◌-◌, ◌*◌, ◌/◌, Bool, true, false, not, ◌&&◌, ◌||◌, List, [], ◌∷◌, ◌++◌, Option,
  none, some, Result, ok, err, ◌>>=◌, ◌>>◌, throw_if, ℤ, pos, negsuc, leb_ℤ, ltb_ℤ, Number, whole,
  other, ◌==◌, ltb, if◌then◌else◌, Text, codes, text_eq, max_safe, length,
}
use fermi_v1_sdk.Wire.{Bytes, BigNumberish, big, num}
use fermi_v1_sdk.Platform.{Platform}
use fermi_v1_sdk.Intents.{Side, bid, ask, immediate_or_cancel, decrement_take}
use fermi_v1_sdk.Intents.Payload.{PlaceOrderFields, encode_perp_place_order_v2}
use fermi_v1_sdk.Intents.Accounts.{AccountMeta, hash_accounts_for_ctm_enqueue}
use fermi_v1_sdk.Intents.Messages.{build_perp_user_intent_message_v3}
use fermi_v1_sdk.Triggers.{
  stop_loss, take_profit, at_or_above, at_or_below, i64_max, integer, market_index,
}
use fermi_v1_sdk.Triggers.Terms.{TriggerTerms, trigger_already_met, trigger_terms_commitment}

-- `bigint | 'all'`
pub data Size : Type 0 where
  all_lots : Size
  lots : ℤ → Size

pub record SlTpParams (K : Type 0) : Type 0 where
  pub group : K
  pub execution_queue : K
  pub market_index : Number
  pub fermi_account : K
  pub signer : K
  pub remaining_accounts : List (AccountMeta K)
  pub position : Text
  pub size : Size
  pub stop_loss_price_lots : Option ℤ
  pub take_profit_price_lots : Option ℤ
  pub slippage_bps : Number
  pub expiry_ts : ℤ
  pub oracle_price_lots : Option ℤ

pub record SlTpLeg (K : Type 0) : Type 0 where
  pub kind : ℕ
  pub terms : TriggerTerms
  pub client_order_id : ℤ
  pub payload : Bytes
  pub intent_hash : Bytes
  pub params : SlTpParams K

pub record LegOptions : Type 0 where
  pub oco_group : Option ℤ
  pub salt : Option ℤ
  pub limit_price_lots : Option ℤ

abbrev pub is_long : Text → Bool
is_long position = text_eq position (codes "long")

abbrev pub is_short : Text → Bool
is_short position = text_eq position (codes "short")

unfoldable pub check_size : Size → Result (Unit {0})
unfolding integer
check_size all_lots = ok tt
check_size (lots n) = integer n i64_max "size is out of range; use bigint" 1 >>= λ _. ok tt

unfoldable pub slippage : Number → Result ℕ
slippage (whole (pos n)) =
    if ltb n 10000 then ok n else err "slippageBps must be an integer from 0 to 9999"
slippage _ = err "slippageBps must be an integer from 0 to 9999"

abbrev pub direction_for : Bool → ℕ → ℕ
direction_for true kind = if kind == stop_loss then at_or_below else at_or_above
direction_for false kind = if kind == stop_loss then at_or_above else at_or_below

unfoldable pub check_oracle : ℕ → ℤ → Option ℤ → Result (Unit {0})
unfolding integer
check_oracle direction trigger none = ok tt
check_oracle direction trigger (some oracle) = do
  o ← integer oracle i64_max "oraclePriceLots is out of range; use bigint" 1
  throw_if (trigger_already_met direction trigger oracle)
      "trigger is already met by the oracle price"

-- The limit that the slippage gives: below the trigger for an ask, above it for a bid.
abbrev pub default_limit : Bool → ℕ → ℕ → ℕ
default_limit true trigger bps = trigger * (10000 - bps) / 10000
default_limit false trigger bps = (trigger * (10000 + bps) + 9999) / 10000

abbrev pub chosen_limit : Option ℤ → Bool → ℕ → ℕ → ℤ
chosen_limit none long trigger bps = pos (default_limit long trigger bps)
chosen_limit (some limit) long trigger bps = limit

abbrev pub not_marketable : Bool → ℕ → ℕ → Bool
not_marketable true limit trigger = ltb trigger limit
not_marketable false limit trigger = ltb limit trigger

unfoldable pub draw : List ℕ → Result (ℕ × List ℕ)
draw [] = err "no draw is left"
draw (d ∷ ds) = ok (d, ds)

-- `options.salt ?? randomU64()`
unfoldable pub first_salt : Option ℤ → List ℕ → Result (ℤ × List ℕ)
unfolding draw
first_salt (some salt) ds = ok (salt, ds)
first_salt none ds = draw ds >>= λ r. ok (pos r.0, r.1)

abbrev pub with_salt : TriggerTerms → ℤ → TriggerTerms
with_salt terms salt = record {
  kind = terms.kind;
  direction = terms.direction;
  trigger_price_lots = terms.trigger_price_lots;
  oco_group = terms.oco_group;
  expiry_ts = terms.expiry_ts;
  salt = salt;
}

abbrev pub order_size : Size → ℤ
order_size all_lots = pos i64_max
order_size (lots n) = n

abbrev pub order_fields : Bool → ℕ → Size → ℕ → ℕ → PlaceOrderFields
order_fields long limit size id expiry = record {
  side = if long then ask else bid;
  price_lots = big (pos limit);
  max_base_lots = big (order_size size);
  max_quote_lots = big (pos i64_max);
  client_order_id = big (pos id);
  order_type = immediate_or_cancel;
  self_trade_behavior = decrement_take;
  reduce_only = true;
  expiry_timestamp = num (whole (pos expiry));
  limit = whole (pos 10);
}

-- `options.ocoGroup ?? 0n`
abbrev pub or_zero : Option ℤ → ℤ
or_zero none = pos 0
or_zero (some z) = z

abbrev pub wanted_one : ℕ → Option ℤ → List (ℕ × ℤ)
wanted_one kind none = []
wanted_one kind (some price) = (kind, price) ∷ []

-- `wanted.length > 1 ? randomU64() || 1n : 0n`
unfoldable pub oco_group_of : ℕ → List ℕ → Result (ℤ × List ℕ)
unfolding draw
oco_group_of wanted ds =
    if ltb 1 wanted
    then (draw ds >>= λ r. ok (pos (if r.0 == 0 then 1 else r.0), r.1))
    else ok (pos 0, ds)

-- A leg's terms, the commitment to them, and the draws that are left.
pub record Committed : Type 0 where
  pub terms : TriggerTerms
  pub id : ℕ
  pub draws : List ℕ

module _ (W : Platform) where
  open W use {PublicKey}

  -- The loop: draw another salt as long as the commitment is zero.
  unfoldable pub commit : PublicKey → PublicKey → Number → TriggerTerms → List ℕ → Result Committed
  commit group account index terms [] =
      trigger_terms_commitment W group account index terms >>= λ id.
      if id == 0 then err "no draw is left" else ok (record { terms = terms; id = id; draws = [] })
  commit group account index terms (d ∷ ds) =
      let again = commit group account index (with_salt terms (pos d)) ds in
      trigger_terms_commitment W group account index terms >>= λ id.
      if id == 0 then again else ok (record { terms = terms; id = id; draws = d ∷ ds })

  -- The message that a leg's signer signs.
  unfoldable pub leg_message : SlTpParams PublicKey → Bytes → ℤ → Result Bytes
  unfolding build_perp_user_intent_message_v3
  leg_message params payload id =
      build_perp_user_intent_message_v3 W (record {
        party = record {
          group = params.group;
          fermi_account = params.fermi_account;
          user_owner = params.signer;
        };
        kind = whole (pos 0);
        market_index = params.market_index;
        payload = payload;
        accounts_hash =
            hash_accounts_for_ctm_enqueue W params.group params.execution_queue
              params.remaining_accounts;
        min_execute_slot = big (pos 0);
        expires_at_slot = big (pos 0);
        client_order_id = big id;
      })
      >>= λ m. ok m.user_intent_message

  -- The checks of `buildTriggerOrderLeg` before it draws: the limit price.
  unfoldable pub checked_limit : SlTpParams PublicKey → ℕ → ℤ → LegOptions → Result (ℕ × ℕ)
  unfolding integer market_index slippage check_oracle
  checked_limit params kind trigger options = do
    m ← market_index params.market_index
    throw_if (not (is_long params.position) && not (is_short params.position))
        "position must be long or short"
    check_size params.size
    bps ← slippage params.slippage_bps
    price ← integer trigger i64_max "triggerPriceLots is out of range; use bigint" 1
    check_oracle (direction_for (is_long params.position) kind) trigger params.oracle_price_lots
    limit ←
        integer (chosen_limit options.limit_price_lots (is_long params.position) price bps) i64_max
          "limitPriceLots is out of range; use bigint" 1
    throw_if (not_marketable (is_long params.position) limit price)
        "IOC limit is not marketable at the trigger"
    ok (price, limit)

  unfoldable pub build_trigger_order_leg :
      SlTpParams PublicKey → ℕ → ℤ → LegOptions → List ℕ → Result (SlTpLeg PublicKey × List ℕ)
  unfolding checked_limit commit leg_message integer
  build_trigger_order_leg params kind trigger options draws = do
    prices ← checked_limit params kind trigger options
    salted ← first_salt options.salt draws
    committed ←
        commit params.group params.fermi_account params.market_index
          (record {
            kind = kind;
            direction = direction_for (is_long params.position) kind;
            trigger_price_lots = trigger;
            oco_group = or_zero options.oco_group;
            expiry_ts = params.expiry_ts;
            salt = salted.0;
          })
          salted.1
    expiry ← integer params.expiry_ts max_safe "expiryTs is out of range; use bigint" 1
    payload ←
        encode_perp_place_order_v2
          (order_fields (is_long params.position) prices.1 params.size committed.id expiry)
    message ← leg_message params payload (pos committed.id)
    ok (
      (record {
        kind = kind;
        terms = committed.terms;
        client_order_id = pos committed.id;
        payload = payload;
        intent_hash = message;
        params = params;
      }),
      committed.draws,
    )

  abbrev pub wanted_of : SlTpParams PublicKey → List (ℕ × ℤ)
  wanted_of params =
      wanted_one stop_loss params.stop_loss_price_lots
      ++ wanted_one take_profit params.take_profit_price_lots

  unfoldable pub build_each :
      SlTpParams PublicKey → ℤ → List (ℕ × ℤ) → List ℕ → Result (List (SlTpLeg PublicKey) × List ℕ)
  build_each params oco_group [] draws = ok ([], draws)
  build_each params oco_group ((kind, price) ∷ rest) draws = do
    built ←
        build_trigger_order_leg params kind price
          (record { oco_group = some oco_group; salt = none; limit_price_lots = none }) draws
    others ← build_each params oco_group rest built.1
    ok (built.0 ∷ others.0, others.1)

  unfoldable pub build_sl_tp_legs :
      SlTpParams PublicKey → List ℕ → Result (List (SlTpLeg PublicKey) × List ℕ)
  unfolding build_each oco_group_of
  build_sl_tp_legs params draws = do
    throw_if (length (wanted_of params) == 0) "set stopLossPriceLots or takeProfitPriceLots"
    group ← oco_group_of (length (wanted_of params)) draws
    build_each params group.0 (wanted_of params) group.1
