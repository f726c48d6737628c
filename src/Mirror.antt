-- ===== src/Mirror.antt =====
-- cmd/mirror-url.go: the orders that mirror makes of a comparison.
pub mod Plan
pub mod Safety
pub mod Exact
pub mod Job
pub mod Status
pub mod Outcome
pub mod Retry
pub mod Start
pub mod Watch
pub mod Cycle
