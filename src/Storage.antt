-- ===== src/Storage.antt =====
-- internal/storage: the durable state. Each call of the store holds its mutex and, where it writes
-- more than once, a transaction, so a call is one step from a database to a database, and one
-- that fails leaves the database as it was. Faults of the disk and cancelled contexts are left out.
pub mod Types
pub mod Tables
pub mod Records
pub mod Sort
pub mod Allowed
pub mod Operations
pub mod Prepare
pub mod Transition
pub mod Bindings
pub mod Mappings
pub mod Rows
pub mod Moves
pub mod Evidence
pub mod Preserved
pub mod Installed
pub mod Updated
pub mod Finalized
pub mod Completed
pub mod Replay
pub mod Listing
pub mod Recovery
pub mod Mapped
pub mod Versions
pub mod Calls
