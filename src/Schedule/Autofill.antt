-- ===== src/Schedule/Autofill.antt =====
-- internal/schedule/service_location_autofill.go: rooms for the lessons that have none.
pub mod Defs
pub mod Service
pub mod Planned
pub mod Taken
pub mod Written
pub mod Considered
pub mod Versioned
pub mod Safety
mod Tests
