-- ===== src/Config.antt =====
-- cmd/config-old.go, cmd/config-v10.go and cmd/config-migrate.go: the formats of the configuration
-- file and its migration.
pub mod Formats
pub mod Defaults
pub mod ConvertOld
pub mod ConvertNew
pub mod Migrate
pub mod Version
pub mod Lost
pub mod Repair
pub mod WebHosts
pub mod Repaired
pub mod Kept
