-- ===== src/Context.antt =====
-- src/context.ts: the accounts that an order of the execution queue names, in their fixed order. The
-- maps of the group and the fallback oracles are read through a library: they are functions here.
pub mod Fallbacks
pub mod Slots
pub mod Order
pub mod Canonical
pub mod Sample
mod Tests
use fermi_v1_sdk.Base.{
  ℕ, filter, Bool, true, false, not, ◌&&◌, ◌||◌, List, [], ◌∷◌, ◌++◌, map, Option, none, some,
  Result, ok, err, ◌>>=◌, ◌>>◌, throw_if, map_result, Text, text_eq, any, ◌==◌, leb, if◌then◌else◌,
  Number,
}
use fermi_v1_sdk.Platform.{Platform}
use fermi_v1_sdk.Intents.Accounts.{AccountMeta, meta}

pub record MintInfo (K : Type 0) : Type 0 where
  pub token_index : ℕ
  pub oracle : K
  pub first_bank : K

pub record PerpMarket (K : Type 0) : Type 0 where
  pub perp_market_index : ℕ
  pub public_key : K
  pub bids : K
  pub asks : K
  pub event_queue : K
  pub oracle : K

-- A position of `serum3` or `openbookV2`
pub record SpotPosition (K : Type 0) : Type 0 where
  pub market_index : ℕ
  pub open_orders : K

pub record FermiAccount (K : Type 0) : Type 0 where
  pub public_key : K
  pub tokens : List ℕ
  pub serum3 : List (SpotPosition K)
  pub openbook_v2 : Option (List (SpotPosition K))

-- What the client library knows of a group. `settlement_token` is the index of its settlement bank.
pub record Group (K : Type 0) : Type 0 where
  pub public_key : K
  pub settlement_token : ℕ
  pub token_index_unset : ℕ
  pub serum3_market_index_unset : ℕ
  pub mint_info_of : ℕ → Option (MintInfo K)
  pub perp_markets : List (PerpMarket K)
  pub perp_market_by_index : Number → Result (PerpMarket K)
  pub fallback_oracles_of : K → Option (List K)

pub record Sections (K : Type 0) : Type 0 where
  pub bank_accounts : List K
  pub token_oracles : List K
  pub perp_markets : List K
  pub perp_oracles : List K
  pub serum_open_orders : List K
  pub openbook_open_orders : List K
  pub fallback_oracles : List K

-- `includes`
abbrev pub includes : ℕ → List ℕ → Bool
includes n ns = any (λ k. k == n) ns

-- `uniqueBy` with numbers for keys: the first value of each key stays.
unfoldable pub unique_from {ℓ} : {A : Type ℓ} → (A → ℕ) → List ℕ → List A → List A
unique_from key seen [] = []
unique_from key seen (x ∷ xs) =
    let more = unique_from key (key x ∷ seen) xs in
    let rest = unique_from key seen xs in if includes (key x) seen then rest else x ∷ more

unfoldable pub unique_by {ℓ} : {A : Type ℓ} → (A → ℕ) → List A → List A
unfolding unique_from
unique_by key values = unique_from key [] values

-- The write at `findIndex((index) => index === from)`
unfoldable pub replace_first : ℕ → ℕ → List ℕ → List ℕ
replace_first from to [] = []
replace_first from to (n ∷ ns) = if n == from then to ∷ ns else n ∷ replace_first from to ns

-- The token slots, with the settlement token in a free one if it has none.
unfoldable pub token_positions : ℕ → ℕ → List ℕ → Result (List ℕ)
unfolding replace_first
token_positions settlement unset tokens = do
  let indices =
      if not (includes settlement tokens) && includes unset tokens
      then replace_first unset settlement tokens
      else tokens
  throw_if (not (includes settlement indices))
      "all Fermi token positions are occupied; cannot build canonical perp execution-queue accounts"
  ok indices

unfoldable pub mint_info_for : {K : Type 0} → Group K → ℕ → Result (MintInfo K)
mint_info_for g token_index = elim (g.mint_info_of token_index) [
  | none ↦ err "missing mint info for token index"
  | some info ↦ ok info
]

unfoldable pub mint_infos : {K : Type 0} → Group K → List ℕ → Result (List (MintInfo K))
unfolding mint_info_for unique_by
mint_infos g indices =
    map_result (mint_info_for g) (filter (λ i. not (i == g.token_index_unset)) indices) >>= λ infos.
    ok (unique_by (λ (m : MintInfo _). m.token_index) infos)

-- `sort` by the market index, which keeps the order of equal ones
unfoldable pub insert_market :
    {K : Type 0} → PerpMarket K → List (PerpMarket K) → List (PerpMarket K)
insert_market m [] = m ∷ []
insert_market m (n ∷ ns) =
    if leb m.perp_market_index n.perp_market_index then m ∷ (n ∷ ns) else n ∷ insert_market m ns

unfoldable pub sort_markets : {K : Type 0} → List (PerpMarket K) → List (PerpMarket K)
unfolding insert_market
sort_markets [] = []
sort_markets (m ∷ ms) = insert_market m (sort_markets ms)

unfoldable pub fallbacks_for : {K : Type 0} → Group K → List K → List K
fallbacks_for g [] = []
fallbacks_for g (oracle ∷ oracles) = elim (g.fallback_oracles_of oracle) [
  | none ↦ fallbacks_for g oracles
  | some keys ↦ keys ++ fallbacks_for g oracles
]

abbrev pub open_orders_of : {K : Type 0} → ℕ → List (SpotPosition K) → List K
open_orders_of unset positions =
    map (λ (p : SpotPosition _). p.open_orders)
      (filter (λ (p : SpotPosition _). not (p.market_index == unset)) positions)

abbrev pub or_empty : {K : Type 0} → Option (List K) → List K
or_empty none = []
or_empty (some ks) = ks

module _ (W : Platform) where
  open W use {PublicKey, equals, to_base58, default_key}

  -- The loop over `sections.fallbackOracles`; `seen` is the set of the keys' texts.
  unfoldable pub new_fallbacks : List Text → List PublicKey → List PublicKey
  new_fallbacks seen [] = []
  new_fallbacks seen (fallback ∷ rest) =
      let skipped = new_fallbacks seen rest in
      let kept = new_fallbacks (to_base58 fallback ∷ seen) rest in
      if equals fallback default_key || any (λ t. text_eq t (to_base58 fallback)) seen
      then skipped
      else fallback ∷ kept

  unfoldable pub health_remaining_account_keys : Sections PublicKey → List PublicKey
  unfolding new_fallbacks
  health_remaining_account_keys s =
      s.bank_accounts
      ++ (s.token_oracles
          ++ (s.perp_markets
              ++ (s.perp_oracles
                  ++ (s.serum_open_orders
                      ++ (s.openbook_open_orders
                          ++ new_fallbacks (map to_base58 s.token_oracles) s.fallback_oracles)))))

  abbrev pub sections_of :
      Group PublicKey → FermiAccount PublicKey → List (MintInfo PublicKey) → Sections PublicKey
  sections_of g account infos = record {
    bank_accounts = map (λ (m : MintInfo _). m.first_bank) infos;
    token_oracles = map (λ (m : MintInfo _). m.oracle) infos;
    perp_markets = map (λ (m : PerpMarket _). m.public_key) (sort_markets g.perp_markets);
    perp_oracles = map (λ (m : PerpMarket _). m.oracle) (sort_markets g.perp_markets);
    serum_open_orders = open_orders_of g.serum3_market_index_unset account.serum3;
    openbook_open_orders = open_orders_of 65535 (or_empty account.openbook_v2);
    fallback_oracles = fallbacks_for g (map (λ (m : MintInfo _). m.oracle) infos);
  }

  abbrev pub head_accounts :
      PublicKey → PublicKey → PublicKey → PerpMarket PublicKey → List (AccountMeta PublicKey)
  head_accounts group account user market =
      meta W group false false
      ∷ meta W account false true
      ∷ meta W user false false
      ∷ meta W market.public_key false true
      ∷ meta W market.bids false true
      ∷ meta W market.asks false true
      ∷ meta W market.event_queue false true
      ∷ meta W market.oracle false false
      ∷ []

  unfoldable pub canonical_perp_remaining_accounts :
      Group PublicKey
      → FermiAccount PublicKey
      → PublicKey
      → Number
      → Result (List (AccountMeta PublicKey))
  unfolding token_positions mint_infos health_remaining_account_keys sort_markets fallbacks_for
  canonical_perp_remaining_accounts g account user market_index = do
    market ← g.perp_market_by_index market_index
    indices ← token_positions g.settlement_token g.token_index_unset account.tokens
    infos ← mint_infos g indices
    ok (
        head_accounts g.public_key account.public_key user market
        ++ map (λ k. meta W k false false)
            (health_remaining_account_keys (sections_of g account infos)))
