-- ===== src/Nakamoto/Mempool.antt =====
-- crates/meow-nakamoto/src/mempool: the pool of pending transactions.
pub mod Defs
pub mod Valid
pub mod Retain
pub mod Drain
unfoldable pub use Defs.*
