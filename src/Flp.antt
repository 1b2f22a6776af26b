-- ===== src/Flp.antt =====
-- src/flp: the liquidity pools.
pub mod Math
pub mod Vaults
pub mod Instructions
pub mod V4
