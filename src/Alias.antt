-- ===== src/Alias.antt =====
-- cmd/config.go, cmd/config-utils.go and cmd/config-validate.go: aliases, from the environment,
-- from a file of the environment and from the configuration, their expansion and their validation.
pub mod Env
pub mod Expand
pub mod Validate
pub mod Keys
pub mod Full
pub mod Sound
