-- ===== src/Triggers/Terms.antt =====
-- The terms of a trigger order, and the commitment to them: src/triggerOrders.ts.
pub mod Binding
use fermi_v1_sdk.Base.{
  ℕ, Bool, not, ◌&&◌, ◌||◌, List, [], ◌∷◌, ◌++◌, Result, ok, ◌>>=◌, ◌>>◌, throw_if, ℤ, leb_ℤ,
  Number, whole, pos, codes, ◌==◌, if◌then◌else◌,
}
use fermi_v1_sdk.Wire.{Bytes, le_bytes, read_u64, u64_max}
use fermi_v1_sdk.Platform.{Platform}
use fermi_v1_sdk.Triggers.{
  stop_loss, take_profit, at_or_above, at_or_below, i64_max, integer, market_index, u64, u16,
}

pub record TriggerTerms : Type 0 where
  pub kind : ℕ
  pub direction : ℕ
  pub trigger_price_lots : ℤ
  pub oco_group : ℤ
  pub expiry_ts : ℤ
  pub salt : ℤ

abbrev pub terms_domain : Bytes
terms_domain = codes "fermi-trigger-terms-v1"

-- `includes` over the two kinds, and over the two directions
abbrev pub known_codes : ℕ → ℕ → Bool
known_codes kind direction =
    (kind == stop_loss || kind == take_profit)
    && (direction == at_or_above || direction == at_or_below)

abbrev pub trigger_already_met : ℕ → ℤ → ℤ → Bool
trigger_already_met direction trigger oracle =
    if direction == at_or_below then leb_ℤ oracle trigger else leb_ℤ trigger oracle

module _ (W : Platform) where
  open W use {PublicKey, to_bytes, sha256}

  unfoldable pub trigger_terms_bytes : PublicKey → PublicKey → Number → TriggerTerms → Result Bytes
  unfolding integer market_index u64 u16 le_bytes
  trigger_terms_bytes group account index terms = do
    m ← market_index index
    throw_if (not (known_codes terms.kind terms.direction)) "invalid trigger kind or direction"
    price ←
        integer terms.trigger_price_lots i64_max "triggerPriceLots is out of range; use bigint" 1
    e ← integer terms.expiry_ts u64_max "expiryTs is out of range; use bigint" 1
    market ← u16 index
    oco ← u64 terms.oco_group
    expiry ← u64 terms.expiry_ts
    salt ← u64 terms.salt
    ok (
        terms_domain
        ++ (to_bytes group
            ++ (to_bytes account
                ++ (market
                    ++ (1
                        ∷ terms.kind
                        ∷ terms.direction
                        ∷ 0
                        ∷ 0
                        ∷ (le_bytes 8 price ++ (oco ++ (expiry ++ salt))))))))

  unfoldable pub trigger_terms_commitment : PublicKey → PublicKey → Number → TriggerTerms → Result ℕ
  unfolding trigger_terms_bytes
  trigger_terms_commitment group account index terms = do
    bytes ← trigger_terms_bytes group account index terms
    ok (read_u64 (sha256 bytes) 0)
