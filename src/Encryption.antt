-- ===== src/Encryption.antt =====
-- cmd/encryption-methods.go: the keys of server-side encryption by prefix.
pub mod Keys
pub mod Lookup
pub mod Longest
pub mod Parse
