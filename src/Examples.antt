-- ===== src/Examples.antt =====
-- Concrete inputs, and the theorems applied at them.
pub mod Data
mod Diff
pub mod Store
mod Storage
pub mod World
mod Sync
mod Finished
mod Source
mod Share
