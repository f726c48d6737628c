-- ===== src/Parallel.antt =====
-- cmd/parallel-manager.go: the pool of workers that runs the copies of mirror and cp.
pub mod System
pub mod Counts
pub mod Invariant
pub mod Safety
