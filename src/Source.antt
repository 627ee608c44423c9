-- ===== src/Source.antt =====
-- internal/source/chatgpt/parser.go: the snapshot that a decoded conversation holds.
pub mod Values
pub mod Graph
pub mod Citations
pub mod Scan
pub mod Snapshot
pub mod Passes
pub mod Found
pub mod Parsed
pub mod Ancestry
pub mod Decode
pub mod Decoded
pub mod Share
pub mod Named
pub mod Chosen
pub mod Shared
