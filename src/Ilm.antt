-- ===== src/Ilm.antt =====
-- cmd/ilm: lifecycle rules, their parse from options, their validation, edit, removal and display.
pub mod Rule
pub mod Parse
pub mod Validate
pub mod Options
pub mod Edit
pub mod Table
pub mod Tags
pub mod Removal
pub mod Valid
pub mod Conflict
pub mod Flags
pub mod Added
