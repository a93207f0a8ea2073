-- ===== src/Vm/Machine.antt =====
-- The interpreter of crates/meow-vm/src/lib.rs: Frame has the frame and its stack, Exec one
-- instruction, Run the loop and the calls, and the others prove what these do.
pub mod Frame
pub mod Exec
pub mod Run
pub mod Metered
pub mod Steady
pub mod Progress
pub mod Follows
pub mod Paid
pub mod Ends
pub mod Census
pub mod Conserved
pub mod Moves
