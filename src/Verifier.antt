-- ===== src/Verifier.antt =====
-- The bytecode verifier: crates/meow-vm-bytecode-verifier, its structural phase.
pub mod Errors
pub mod Types
pub mod Cycles
pub mod Instructions
pub mod Structural
pub mod Forward
