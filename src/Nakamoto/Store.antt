-- ===== src/Nakamoto/Store.antt =====
-- crates/meow-nakamoto/src/store.rs: the object store.
pub mod Defs
pub mod Lookup
pub mod Valid
pub mod Order
pub mod Total
unfoldable pub use Defs.*
