-- ===== src/Difference.antt =====
-- cmd/difference.go: the comparison of two listings, and cmd/diff-main.go's message.
pub mod Metadata
pub mod ModTime
pub mod Compare
pub mod Total
pub mod Stuck
pub mod Merge
pub mod Refines
pub mod SourceOnly
pub mod Report
pub mod Sent
