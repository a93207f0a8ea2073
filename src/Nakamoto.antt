-- ===== src/Nakamoto.antt =====
-- The consensus code: the crates crates/meow-nakamoto and crates/meow-nakamoto-types.
pub mod Header
pub mod Store
pub mod Roots
pub mod Inputs
pub mod SystemTransactions
pub mod Mempool
pub mod Chain
pub mod Miner
