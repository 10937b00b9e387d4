-- ===== src/Schedule/Overrides.antt =====
-- internal/schedule/service_overrides.go: writes of lessons under constraints, locks and versions.
pub mod Rows
pub mod Defs
pub mod Steps
pub mod Replaced
pub mod Outcome
pub mod Versions
pub mod Safety
pub mod Addition
pub mod Refused
mod Tests
