-- ===== src/Tests.antt =====
-- Runs of the modelled functions at concrete inputs.
mod Fixtures
mod Sync
mod Stored
mod Keys
mod Urls
mod Durations
mod Rules
mod Copies
mod Pool
mod Searches
mod Jobs
mod Aliases
