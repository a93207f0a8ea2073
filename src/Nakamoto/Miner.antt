-- ===== src/Nakamoto/Miner.antt =====
-- crates/meow-nakamoto/src/miner: the mining work unit and the miner that owns chain and mempool.
pub mod Work
pub mod State
pub mod Execution
pub mod Reward
pub mod Mined
pub mod Grind
pub mod Loop
pub mod Fuel
pub mod Accepted
pub mod Sync
unfoldable pub use Work.*
unfoldable pub use State.*
