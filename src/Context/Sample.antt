-- ===== src/Context/Sample.antt =====
-- A group of two tokens and two markets, and an account of it, for the tests of src/context.ts and of
-- what is built on it.
use fermi_v1_sdk.Base.{
  ℕ, [], ◌∷◌, Option, none, some, Result, ok, err, ◌==◌, if◌then◌else◌, Number, whole, pos,
}
use fermi_v1_sdk.Context.{MintInfo, PerpMarket, FermiAccount, Group}

abbrev pub market_at : ℕ → PerpMarket ℕ
market_at n = record {
  perp_market_index = n;
  public_key = 30;
  bids = 31;
  asks = 32;
  event_queue = 33;
  oracle = 34;
}

abbrev pub mint_at : ℕ → Option (MintInfo ℕ)
mint_at n =
    if n == 0
    then some (record { token_index = 0; oracle = 20; first_bank = 10 })
    else if n == 1
    then some (record { token_index = 1; oracle = 21; first_bank = 11 })
    else none

abbrev pub two : Number
two = whole (pos 2)

abbrev pub market_of : Number → Result (PerpMarket ℕ)
market_of (whole (pos n)) = if n == 2 then ok (market_at 2) else err "no market"
market_of _ = err "no market"

abbrev pub group : Group ℕ
group = record {
  public_key = 1;
  settlement_token = 0;
  token_index_unset = 65535;
  serum3_market_index_unset = 65535;
  mint_info_of = mint_at;
  perp_markets = market_at 2 ∷ market_at 1 ∷ [];
  perp_market_by_index = market_of;
  fallback_oracles_of = λ k. if k == 21 then some (0 ∷ 20 ∷ 77 ∷ 77 ∷ []) else none;
}

abbrev pub account : FermiAccount ℕ
account = record {
  public_key = 2;
  tokens = 65535 ∷ 1 ∷ 65535 ∷ [];
  serum3 =
      record { market_index = 65535; open_orders = 40 }
      ∷ record { market_index = 4; open_orders = 41 }
      ∷ [];
  openbook_v2 = none;
}
