-- ===== src/Nakamoto/Chain.antt =====
-- crates/meow-nakamoto/src/chain: the block tree, its snapshots and the fork choice.
mod State
mod Structure
mod Replay
mod Apply
pub mod WellFormed
pub mod Valid
pub mod Prune
pub mod Record
pub mod Execution
pub mod Accept
unfoldable pub use State.*
unfoldable pub use Structure.*
unfoldable pub use Replay.*
unfoldable pub use Apply.*
pub mod ForkChoice
