-- ===== src/Adapter.antt =====
-- The adapter between the chain and the virtual machine: crates/meow-vm-adapter, and the conversions of
-- crates/meow-types and crates/meow-vm-types that it uses.
pub mod Defs
pub mod Context
pub mod Resolvers
pub mod Effects
pub mod Execute
pub mod Layout
pub mod Placed
pub mod Coins
pub mod Versions
pub mod Spent
