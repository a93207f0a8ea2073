-- ===== src/Nakamoto/Inputs.antt =====
-- crates/meow-vm-adapter/src/inputs_resolver.rs: the objects that a transaction needs.
mod Defs
pub mod Total
unfoldable pub use Defs.*
