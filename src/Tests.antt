-- ===== src/Tests.antt =====
-- Runs of the model, and the theorems at concrete inputs.
mod World
mod Mining
mod Chain
mod Stores
mod Pool
mod Rounds
mod Sync
mod Machine
mod Verified
mod Layouts
mod Adapter
