-- ===== src/Duration.antt =====
-- The durations of cmd/duration.go.
pub mod Units
pub mod Parse
pub mod LeadingInt
pub mod Total
pub mod Single
