-- ===== src/Find.antt =====
-- cmd/find.go: which objects of a listing find prints.
pub mod Pattern
pub mod Match
pub mod Conditions
pub mod Exact
