-- ===== src/Context/Tests.antt =====
-- The accounts of src/context.ts on a group of two tokens and two markets.
use fermi_v1_sdk.Base.{ℕ, ◌≡◌, refl, arith, List, [], ◌∷◌, err, map, ok_or, text_eq}
use fermi_v1_sdk.Platform.Sample.{sample_platform}
use fermi_v1_sdk.Intents.Accounts.{AccountMeta}
use fermi_v1_sdk.Context.{
  token_positions, mint_infos, sort_markets, fallbacks_for, health_remaining_account_keys,
  canonical_perp_remaining_accounts,
}
use fermi_v1_sdk.Context.Sample.{group, account, two}
use fermi_v1_sdk.Context.Canonical.{Canonical, accounts-Canonical}

abbrev accounts : List (AccountMeta ℕ)
unfolding canonical_perp_remaining_accounts
accounts = ok_or [] (canonical_perp_remaining_accounts sample_platform group account 3 two)

keys_in_order :
    map (λ (a : AccountMeta ℕ). a.pubkey) accounts
    ≡ 1 ∷ 2 ∷ 3 ∷ 30 ∷ 31 ∷ 32 ∷ 33 ∷ 34 ∷ 10 ∷ 11 ∷ 20 ∷ 21 ∷ 30 ∷ 30 ∷ 34 ∷ 34 ∷ 41 ∷ 77 ∷ []
unfolding canonical_perp_remaining_accounts token_positions mint_infos health_remaining_account_keys
    sort_markets fallbacks_for text_eq
keys_in_order = refl

full_account :
    canonical_perp_remaining_accounts sample_platform group
      (record account { tokens = 1 ∷ [] })
      3
      two
    ≡ err
        "all Fermi token positions are occupied; cannot build canonical perp execution-queue accounts"
unfolding canonical_perp_remaining_accounts token_positions
full_account = refl

accounts-Canonical_example : Canonical sample_platform group account 3 two accounts
unfolding canonical_perp_remaining_accounts token_positions mint_infos health_remaining_account_keys
    sort_markets fallbacks_for text_eq
accounts-Canonical_example =
    accounts-Canonical sample_platform group account 3 two (λ e. omega arith) refl
