-- ===== src/Triggers/Request.antt =====
-- What is sent for a leg, and what has to hold for it: src/triggerOrders.ts.
pub mod Intact
pub mod Accepted
pub mod Sent
use fermi_v1_sdk.Base.{
  ℕ, Bool, true, false, not, ◌&&◌, ◌||◌, List, [], ◌∷◌, map, Option, none, some, get_elem?, Result,
  ok, ◌>>=◌, ◌>>◌, throw_if, ℤ, pos, eq_ℤ, Number, ◌==◌, Text, codes, text_eq, length, integer_text,
  number_text,
}
use fermi_v1_sdk.Wire.{Bytes, read_u64}
use fermi_v1_sdk.Platform.{Platform}
use fermi_v1_sdk.Intents.Accounts.{AccountMeta}
use fermi_v1_sdk.Triggers.Terms.{TriggerTerms, trigger_terms_commitment}
use fermi_v1_sdk.Triggers.Legs.{SlTpParams, SlTpLeg, leg_message}

pub record TriggerOrderTermsWire : Type 0 where
  pub version : ℕ
  pub kind : ℕ
  pub direction : ℕ
  pub trigger_price_lots : Text
  pub oco_group : Text
  pub expiry_ts : Text
  pub salt : Text
  pub price_source : ℕ
  pub flags : ℕ

-- `RelayerAccountMeta`
pub record RelayerAccountMeta : Type 0 where
  pub pubkey : Text
  pub is_signer : Bool
  pub is_writable : Bool

pub record SubmitIntentRequest : Type 0 where
  pub group : Text
  pub execution_queue : Text
  pub market : Text
  pub payload : Bytes
  pub remaining_accounts : List RelayerAccountMeta
  pub min_execute_slot : Text
  pub expires_at_slot : Text
  pub user_owner : Text
  pub mango_account : Text
  pub user_signature : Bytes
  pub intent_version : ℕ
  pub target_kind : ℕ
  pub target_index : Number
  pub client_order_id : Text
  pub trigger_order : TriggerOrderTermsWire
  pub max_fee_lamports : Text

unfoldable pub wire_terms : TriggerTerms → TriggerOrderTermsWire
wire_terms terms = record {
  version = 1;
  kind = terms.kind;
  direction = terms.direction;
  trigger_price_lots = integer_text terms.trigger_price_lots;
  oco_group = integer_text terms.oco_group;
  expiry_ts = integer_text terms.expiry_ts;
  salt = integer_text terms.salt;
  price_source = 0;
  flags = 0;
}

-- `payload[offset] !== value`
abbrev pub byte_is : Bytes → ℕ → ℕ → Bool
byte_is payload offset value = elim (get_elem? payload offset) [
  | none ↦ false
  | some b ↦ b == value
]

module _ (W : Platform) where
  open W use {
    PublicKey, equals, to_bytes, to_base58, sign_detached, verify_detached, key_of_secret, to_hex,
  }

  abbrev pub to_relayer_account_meta : AccountMeta PublicKey → RelayerAccountMeta
  to_relayer_account_meta a = record {
    pubkey = to_base58 a.pubkey;
    is_signer = a.is_signer;
    is_writable = a.is_writable;
  }

  -- A secret key of another size makes tweetnacl throw.
  unfoldable pub sign_trigger_order_leg : SlTpLeg PublicKey → Bytes → Result Bytes
  sign_trigger_order_leg leg secret = do
    throw_if (not (length secret == 64)) "bad secret key size"
    throw_if (not (equals (key_of_secret secret) leg.params.signer))
        "trigger signer does not match the leg"
    ok (sign_detached leg.intent_hash secret)

  unfoldable pub signature_valid : Bytes → Bytes → PublicKey → Bool
  signature_valid hash signature signer =
      length signature == 64
      && (verify_detached hash signature (to_bytes signer)
          || verify_detached (to_hex hash) signature (to_bytes signer))

  unfoldable pub assert_signature : Bytes → Bytes → PublicKey → Result (Unit {0})
  unfolding signature_valid
  assert_signature hash signature signer =
      throw_if (not (signature_valid hash signature signer)) "invalid trigger signature"

  -- The first test of `triggerOrderRequest`: the leg still holds what was committed to.
  unfoldable pub leg_intact : SlTpLeg PublicKey → ℕ → Bool
  leg_intact leg commitment =
      eq_ℤ (pos commitment) leg.client_order_id
      && (length leg.payload == 49
          && (read_u64 leg.payload 29 == commitment
              && (eq_ℤ (pos (read_u64 leg.payload 40)) leg.terms.expiry_ts
                  && (byte_is leg.payload 37 1 && byte_is leg.payload 39 1))))

  unfoldable pub trigger_order_request :
      SlTpLeg PublicKey → Bytes → Text → Result SubmitIntentRequest
  unfolding leg_intact assert_signature leg_message wire_terms
  trigger_order_request leg signature max_fee_lamports = do
    let p = leg.params
    commitment ← trigger_terms_commitment W p.group p.fermi_account p.market_index leg.terms
    throw_if (not (leg_intact leg commitment))
        "trigger terms or payload changed; rebuild and sign the leg again"
    expected ← leg_message W p leg.payload leg.client_order_id
    throw_if (not (text_eq expected leg.intent_hash))
        "trigger accounts or payload changed; rebuild and sign the leg again"
    assert_signature leg.intent_hash signature p.signer
    ok (record {
      group = to_base58 p.group;
      execution_queue = to_base58 p.execution_queue;
      market = number_text p.market_index;
      payload = leg.payload;
      remaining_accounts = map to_relayer_account_meta p.remaining_accounts;
      min_execute_slot = codes "0";
      expires_at_slot = codes "0";
      user_owner = to_base58 p.signer;
      mango_account = to_base58 p.fermi_account;
      user_signature = signature;
      intent_version = 3;
      target_kind = 0;
      target_index = p.market_index;
      client_order_id = integer_text leg.client_order_id;
      trigger_order = wire_terms leg.terms;
      max_fee_lamports = max_fee_lamports;
    })

-- The part of the answer that `withheld` reads; an absent text is falsy, as the empty one is.
pub record TriggerOrderAccepted : Type 0 where
  pub trigger_order_id : Option Text
  pub trigger_order_status : Option Text
  pub tx_signature : Option Text

abbrev pub is_truthy : Option Text → Bool
is_truthy none = false
is_truthy (some []) = false
is_truthy (some (c ∷ s)) = true

abbrev pub is_armed_status : Option Text → Bool
is_armed_status none = false
is_armed_status (some s) = text_eq s (codes "pending") || text_eq s (codes "armed")

unfoldable pub withheld : TriggerOrderAccepted → Result TriggerOrderAccepted
withheld response = do
  throw_if
      (not (is_truthy response.trigger_order_id)
        || (not (is_armed_status response.trigger_order_status) || is_truthy response.tx_signature))
      "trigger hand-off was not acknowledged; inspect trigger status before retrying"
  ok response
