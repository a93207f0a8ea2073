-- ===== src/Types.antt =====
-- The data types of crates/meow-types.
pub mod Primitives
pub mod Object
pub mod Transaction
pub mod Validator
pub mod Validity
