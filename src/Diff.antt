-- ===== src/Diff.antt =====
-- internal/diff/preview.go: the preview of a synchronization. `Validate` and `Compare` are the
-- functions that `Preview` calls, and `Run` is `Preview` itself; the other modules prove.
pub mod Validate
pub mod Compare
pub mod Target
pub mod Run
pub mod ValidSource
pub mod ValidTarget
pub mod Inversion
pub mod Kept
pub mod Applicable
pub mod Edited
pub mod Accounts
