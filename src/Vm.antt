-- ===== src/Vm.antt =====
-- The virtual machine: the crates crates/meow-vm-types and crates/meow-vm.
pub mod Types
pub mod Bytecode
pub mod Module
pub mod Ref
pub mod Errors
pub mod Gas
pub mod Values
pub mod Natives
pub mod Machine
