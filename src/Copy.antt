-- ===== src/Copy.antt =====
-- cmd/cp-url.go: the orders that cp and mv make of their arguments.
pub mod FilePath
pub mod World
pub mod Guess
pub mod Kinds
pub mod Orders
pub mod Regular
pub mod Distinct
pub mod IntoSelf
