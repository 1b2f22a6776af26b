-- ===== src/Context/Canonical.antt =====
-- The list of accounts that src/context.ts builds for an order.
use mathlib.Core.List.{Perm}
use fermi_v1_sdk.Base.{
  ℕ, some, ◌≡◌, ◌≢◌, ◌⊎◌, refl, subst, All, false, List, [], ◌++◌, map, ok, from_bind, ok_injective,
  Number,
}
use fermi_v1_sdk.Platform.{Platform}
use fermi_v1_sdk.Intents.Accounts.{AccountMeta, meta}
use fermi_v1_sdk.Context.{
  MintInfo, PerpMarket, FermiAccount, Group, token_positions, mint_infos, sort_markets,
  fallbacks_for, open_orders_of, or_empty, health_remaining_account_keys, head_accounts,
  canonical_perp_remaining_accounts,
}
use fermi_v1_sdk.Context.Fallbacks.{Kept, new_fallbacks-Kept, Member, All-mono}
use fermi_v1_sdk.Context.Slots.{FreshKeys, mint_infos-Covered, token_positions-Member}
use fermi_v1_sdk.Context.Order.{IsOrdered, sort_markets-IsOrdered, sort_markets-perm}

module _ (W : Platform) where
  open W use {PublicKey}

  abbrev pub read_only : List PublicKey → List (AccountMeta PublicKey)
  read_only = map (λ k. meta W k false false)

  -- The sections of the list, in their order, and what is in them.
  pub record Canonical (g : Group PublicKey) (account : FermiAccount PublicKey) (user : PublicKey)
      (market_index : Number) (accounts : List (AccountMeta PublicKey)) : Type 0 where
    pub market : PerpMarket PublicKey
    pub infos : List (MintInfo PublicKey)
    pub markets : List (PerpMarket PublicKey)
    pub fallbacks : List PublicKey
    pub market_of : g.perp_market_by_index market_index ≡ ok market
    pub sections :
        accounts
        ≡ head_accounts W g.public_key account.public_key user market
          ++ read_only (
              map (λ (m : MintInfo PublicKey). m.first_bank) infos
              ++ (map (λ (m : MintInfo PublicKey). m.oracle) infos
                  ++ (map (λ (m : PerpMarket PublicKey). m.public_key) markets
                      ++ (map (λ (m : PerpMarket PublicKey). m.oracle) markets
                          ++ (open_orders_of g.serum3_market_index_unset account.serum3
                              ++ (open_orders_of 65535 (or_empty account.openbook_v2)
                                  ++ fallbacks))))))
    pub once : FreshKeys [] (map (λ (m : MintInfo PublicKey). m.token_index) infos)
    pub settlement :
        (info : MintInfo PublicKey) × (g.mint_info_of g.settlement_token ≡ some info)
        × Member info.token_index (map (λ (m : MintInfo PublicKey). m.token_index) infos)
    pub each :
        (i : ℕ)
        → i ≢ g.token_index_unset
        → Member i account.tokens
        → (info : MintInfo PublicKey) × (g.mint_info_of i ≡ some info)
          × Member info.token_index (map (λ (m : MintInfo PublicKey). m.token_index) infos)
    -- An info is the group's own record, bank and oracle included, of the settlement token or of a token
    -- in use.
    pub real :
        All
          (λ (info : MintInfo PublicKey).
            (i : ℕ) × (g.mint_info_of i ≡ some info)
            × ((i ≡ g.settlement_token) ⊎ Member i account.tokens)
            × (i ≢ g.token_index_unset))
          infos
    pub ordered : IsOrdered markets
    pub same_markets : Perm markets g.perp_markets
    pub kept :
        Kept W
          (map (λ (m : MintInfo PublicKey). m.oracle) infos)
          (fallbacks_for g (map (λ (m : MintInfo PublicKey). m.oracle) infos))
          fallbacks

  -- The accounts of an order are the eight of the order itself, five of them writable, and then read-only
  -- ones without a signer: the bank and the oracle, as the group records them, of every token in use and
  -- of the settlement token and of no other, no token index twice; every perp market and its oracle, by index; the open orders accounts; and of
  -- the fallback oracles exactly those that are neither the default key nor already an oracle, each once.
  -- The settlement token's index is not the mark of a free slot.
  pub accounts-Canonical :
      (g : Group PublicKey) (account : FermiAccount PublicKey) (user : PublicKey)
      (market_index : Number) {accounts : List (AccountMeta PublicKey)}
      → g.settlement_token ≢ g.token_index_unset
      → canonical_perp_remaining_accounts W g account user market_index ≡ ok accounts
      → Canonical g account user market_index accounts
  unfolding canonical_perp_remaining_accounts health_remaining_account_keys
  accounts-Canonical g account user market_index used h =
      from_bind (g.perp_market_by_index market_index) _ h λ market em h1.
        from_bind (token_positions g.settlement_token g.token_index_unset account.tokens) _ h1
          λ indices ei h2. from_bind (mint_infos g indices) _ h2 λ infos ef h3.
            let (settled, stays, from_position) =
              token_positions-Member g.settlement_token g.token_index_unset account.tokens ei in
            let c = mint_infos-Covered g indices ef in
            subst (Canonical g account user market_index) (ok_injective h3) (record {
              market = market;
              infos = infos;
              markets = sort_markets g.perp_markets;
              fallbacks = _;
              market_of = em;
              sections = refl;
              once = c.once;
              settlement = c.each g.settlement_token used settled;
              each = λ i off m. c.each i off (stays i off m);
              real =
                  All-mono _ _ infos (λ info (i, e, m, off). (i, e, from_position i m, off)) c.real;
              ordered = sort_markets-IsOrdered g.perp_markets;
              same_markets = sort_markets-perm g.perp_markets;
              kept = new_fallbacks-Kept W _ _;
            })
