-- ===== src/Syncer.antt =====
-- internal/syncer/service.go: previews that are stored as plans, plans that are applied by
-- operations, and the recovery of operations, over the store, the target and the clock.
pub mod Types
pub mod Exec
pub mod Checks
pub mod Plans
pub mod Preview
pub mod Repository
pub mod Moves
pub mod Create
pub mod Update
pub mod Service
pub mod Safe
pub mod Asking
pub mod Kept
pub mod Blocks
pub mod Silent
pub mod Sound
pub mod Sending
pub mod Once
pub mod Writes
pub mod Quiet
pub mod Answers
pub mod Verified
