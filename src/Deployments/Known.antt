-- ===== src/Deployments/Known.antt =====
-- The deployments that src/deployments.ts writes out. A fraction is a `Number` of its own: the tag is
-- how many of them make one.
use fermi_v1_sdk.Base.{
  ℕ, Bool, false, List, [], ◌∷◌, Option, some, Text, codes, Number, whole, other, pos,
}

pub record FermiV1MarketDeployment : Type 0 where
  pub symbol : Text
  pub perp_market : Text
  pub bids : Text
  pub asks : Text
  pub event_queue : Text
  pub oracle : Text
  pub queue : Text
  pub direct_pool : Text
  pub market_index : ℕ
  pub base_decimals : ℕ
  pub base_lot_size : ℕ
  pub quote_lot_size : ℕ
  pub tick_size : Number
  pub min_base_size : Number

pub record FermiV1Deployment : Type 0 where
  pub name : Text
  pub cluster : Text
  pub rpc_url : Text
  pub program_id : Text
  pub group : Text
  pub group_admin : Text
  pub security_admin : Text
  pub authority_state : Text
  pub ctm_signer : Text
  pub usdc_mint : Text
  pub usdc_bank : Text
  pub usdc_vault : Text
  pub usdc_oracle : Text
  pub usdc_token_program : Text
  pub group_num : ℕ
  pub markets : List FermiV1MarketDeployment
  pub gateway_url : Option Text
  pub gateway_grpc_addr : Option Text
  pub direct_pools_initialized : Bool

abbrev pub r6_sol : FermiV1MarketDeployment
r6_sol = record {
  symbol = codes "SOL";
  perp_market = codes "VugpJNgQNdQmVonc24S2HLQrvfXYVkknxnPd4yssw4M";
  bids = codes "BZKQi4RP4dqGb8Fi2V8SNbJSQxACCbV8p5PuN35q29WW";
  asks = codes "4WvEZ4EjU4ffLeywv1vtyAyFcfGDFftx67Mnu39sqQZu";
  event_queue = codes "Ai2RBmHHPq5vL7qLQJSLHCU4Ltd6PyRqZ6UXTf9hksqd";
  oracle = codes "7UVimffxr9ow1uXYxsr4LHAcV58mLzhmwaeKvJ1pjLiE";
  queue = codes "H298eJU5b4uyAHpeeZQdXS9JUttmmaMh2U6RYkUHFfE9";
  direct_pool = codes "AiGSZp9VP8JfMnBdzaAoU84rWj5ydS9zn42iRA7oAKVL";
  market_index = 0;
  base_decimals = 5;
  base_lot_size = 100;
  quote_lot_size = 1;
  tick_size = other 1000;
  min_base_size = other 1000;
}

abbrev pub r6_eth : FermiV1MarketDeployment
r6_eth = record {
  symbol = codes "ETH";
  perp_market = codes "95gqXmc8E6Pb9BTYGpQY157DzdP7MBvnaG7Fpj5FAH2y";
  bids = codes "djrj2NfmhncAybWqz4uZmu6tkySwhMoqfo8kf278nvx";
  asks = codes "GzzWThTSU56y86bMGQ8BnvrHhcWVcsLEd8A8CdQZRm7n";
  event_queue = codes "9cupdjvXX4cdq61fFqo9V5zDd8YuqtNkJ7uxW277gKbF";
  oracle = codes "42amVS4KgzR9rA28tkVYqVXjq9Qa8dcZQMbH5EYFX6XC";
  queue = codes "764RYGQACUpWqx3dtYUmfG2G3MK6wXT5WPPRHJxzCJQP";
  direct_pool = codes "7mGGoaCwhApNkmv2zJ24bxiycmhfY2xAsd8MUSxb9bf";
  market_index = 1;
  base_decimals = 6;
  base_lot_size = 100;
  quote_lot_size = 10;
  tick_size = other 10;
  min_base_size = other 10000;
}

abbrev pub r6_btc : FermiV1MarketDeployment
r6_btc = record {
  symbol = codes "BTC";
  perp_market = codes "Fd3i4vXE7xwTThXSZWrjjdpNQZZgPSNmpPZNp6g7vKg8";
  bids = codes "2hdarJUX6A8yb7fqKsdBmLEvUsPAGxMfTR4qknHNXa95";
  asks = codes "5dPYYfQh43i51FvG4rHTebgpYDAesBP8yxRVXBjApJjZ";
  event_queue = codes "B1DjTnZ6BeFfRwV3LrmoVXuRViYj2mKH8wgnxAhxGt9W";
  oracle = codes "4cSM2e6rvbGQUFiJbqytoVMi5GgghSMr8LwVrT9VPSPo";
  queue = codes "ArvDdpYTojBbH4FkCxLxALmX3Sb5qr4VsmFFkgV2NSC3";
  direct_pool = codes "7ntaZ5g2waMBCXPPEdaaEq8iKo5WoDEnUGczyxERL8iL";
  market_index = 2;
  base_decimals = 6;
  base_lot_size = 100;
  quote_lot_size = 100;
  tick_size = whole (pos 1);
  min_base_size = other 10000;
}

abbrev pub fermi_r6_mainnet : FermiV1Deployment
fermi_r6_mainnet = record {
  name = codes "fermi-r6-mainnet";
  cluster = codes "mainnet-beta";
  rpc_url = codes "https://api.mainnet-beta.solana.com";
  program_id = codes "FRMiKrj2hQGvcZQtSDdiFRZ4cmaTjuc1QVkM2B5ShUvA";
  group = codes "87qUKYQoK1f9gYQjYzw5NcRo7wx6VmfhTGJ7JenoeYAA";
  group_admin = codes "FD2tQBXbC6SHA8cP1X7o9g3sXqcdAbTb2Tyz9NR5zjye";
  security_admin = codes "3S4dH6ToiwZcwJ7xXmd7BWa1cvtRYzxRJPQ4pu1UMv6Q";
  authority_state = codes "6UZcSHiFYdxCu7LQFhLP97YiM6DH8xMPXTCmuw9Zc1X";
  ctm_signer = codes "89mhgW2vZZiCdwRXDJe9sCp4SNTJL7VB1W2zeX6u1hC";
  usdc_mint = codes "EPjFWdd5AufqSSqeM2qN1xzybapC8G4wEGGkZwyTDt1v";
  usdc_bank = codes "HiNH3WgCQa57zBNDR2a3EftfFDjZFRUzzrBSqn8RVygU";
  usdc_vault = codes "F7cXPkwe5zRocBMdgAWtxomQJyQKzk1PJSM5fWWE8C9j";
  usdc_oracle = codes "Dpw1EAVrSB1ibxiDQyTAW6Zip3J4Btk2x4SgApQCeFbX";
  usdc_token_program = codes "TokenkegQfeZyiNwAJbNbGKPFXCWuBvf9Ss623VQ5DA";
  group_num = 1;
  markets = r6_sol ∷ r6_eth ∷ r6_btc ∷ [];
  gateway_url = some (codes "https://v1.fermi.trade/prod");
  gateway_grpc_addr = some (codes "v1.fermi.trade:443");
  direct_pools_initialized = false;
}

abbrev pub r9_sol : FermiV1MarketDeployment
r9_sol = record {
  symbol = codes "SOL";
  perp_market = codes "2jUszh9DyyAEFUvDR9mRLYEprLoC9w6pgpYRQVGoMPRM";
  bids = codes "CXKCPKH2DNks4D2nT5t4tHsj8xh3n9FJEq6TVhCVDtdM";
  asks = codes "C2hyQhp9oQECFPQwjGUMBGAXSY96yrvYWGfUpecvJKLe";
  event_queue = codes "9TMUoCYcqwaeY7UidexCRnXqafjNR9seg1PF1pPy9ZJZ";
  oracle = codes "7UVimffxr9ow1uXYxsr4LHAcV58mLzhmwaeKvJ1pjLiE";
  queue = codes "2qzZteLYcn5nWGnhoZDTBjDPnPHSF7CAS8VJfq2s8Jko";
  direct_pool = codes "GYomPovq6CXZ4sdSf7dSJ4v7NEE8Ki4Wwv42W7ytD7Fz";
  market_index = 0;
  base_decimals = 5;
  base_lot_size = 100;
  quote_lot_size = 1;
  tick_size = other 1000;
  min_base_size = other 1000;
}

abbrev pub r9_eth : FermiV1MarketDeployment
r9_eth = record {
  symbol = codes "ETH";
  perp_market = codes "6DefNnu4epthsW4HG6oiFQE3uF1W6YbGLAtKqYfqj1TY";
  bids = codes "ALdK3AWq9Ym2TqBbsew1zjreN3MR5J1HNwE1fGASsGeL";
  asks = codes "BVtpJ3PdG7rJ7zS1mC2SgvJ69cyJwR3RP9YqYDrLbmfv";
  event_queue = codes "58rMkcrWNmNM61iexT31Thkw4XREXu5gM9K1sXAbP8KM";
  oracle = codes "42amVS4KgzR9rA28tkVYqVXjq9Qa8dcZQMbH5EYFX6XC";
  queue = codes "2L27coMt2RXQLFhqgvFmhA1q6EBt8j9BLRNaJQ5nERD6";
  direct_pool = codes "qmjH9HKmvaMZcoi5FPb8pUYdmbtLxizAMh5WYDKi1nq";
  market_index = 1;
  base_decimals = 6;
  base_lot_size = 100;
  quote_lot_size = 10;
  tick_size = other 10;
  min_base_size = other 10000;
}

abbrev pub r9_btc : FermiV1MarketDeployment
r9_btc = record {
  symbol = codes "BTC";
  perp_market = codes "BBWb85XLqJNKUCA9Ma7yvEWLQKhpK7mTUhBJxFSgfL8N";
  bids = codes "7Ud5Eim6AxXupuSngvXKXsMdYj51k1xTRQpcDHB5196M";
  asks = codes "Gh6JZSWKEb9u55Vt5NUPj6VWTtodRYZG8VV4YoEYSEYi";
  event_queue = codes "DVqPiCuFyy2kZKUVwk1NY93cy9HY6ojRPqe9oco4JmXW";
  oracle = codes "4cSM2e6rvbGQUFiJbqytoVMi5GgghSMr8LwVrT9VPSPo";
  queue = codes "J22zX4ZZH8xUKekv21MG9PVkEBKgNttPa2hEtb6u4TLe";
  direct_pool = codes "8hBAM13QVwH6ko97JTVNVtKRSprQyPGYrd1zVydYGzt8";
  market_index = 2;
  base_decimals = 6;
  base_lot_size = 100;
  quote_lot_size = 100;
  tick_size = whole (pos 1);
  min_base_size = other 10000;
}

abbrev pub fermi_r9_mainnet : FermiV1Deployment
fermi_r9_mainnet = record {
  name = codes "fermi-r9-mainnet";
  cluster = codes "mainnet-beta";
  rpc_url = codes "https://api.mainnet-beta.solana.com";
  program_id = codes "FRMiX94PWHbndvySq8xyRx185GvPeggUeKaLmZgVdd4";
  group = codes "2mDvxS4A6bJyR3RjLwvBWeNuFvCAaQ26ss7w1jUChRse";
  group_admin = codes "C6McwyLwidpExcbdK28JDPU4LSXD1WDyXNdPnZewd6Wo";
  security_admin = codes "HUkCAMm2CRfgvxPXUdGgNHqY8gkV65cwkSP5k2HU9wi5";
  authority_state = codes "B26BWduuUnojTFmyMK3mP19Gs4wdgcEVMM7xEQMrtbvU";
  ctm_signer = codes "6s8nfTaY2gpiH1AnvZSqc71ucJTshSvvHoUCfUPPdQMs";
  usdc_mint = codes "EPjFWdd5AufqSSqeM2qN1xzybapC8G4wEGGkZwyTDt1v";
  usdc_bank = codes "147eAzRXsDhNnL1We6qDXN7XfDrRVJvLszp59v1XnEXv";
  usdc_vault = codes "HwA5W62F4vGrAetTuGHs8GiRc8cDwB4ignXLZnbNsHUA";
  usdc_oracle = codes "Dpw1EAVrSB1ibxiDQyTAW6Zip3J4Btk2x4SgApQCeFbX";
  usdc_token_program = codes "TokenkegQfeZyiNwAJbNbGKPFXCWuBvf9Ss623VQ5DA";
  group_num = 1;
  markets = r9_sol ∷ r9_eth ∷ r9_btc ∷ [];
  gateway_url = some (codes "https://v1.fermi.trade/prod");
  gateway_grpc_addr = some (codes "v1.fermi.trade:443");
  direct_pools_initialized = false;
}
