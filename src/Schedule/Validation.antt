-- ===== src/Schedule/Validation.antt =====
-- internal/schedule/service_validate.go: the warnings on a schedule.
pub mod Defs
pub mod Hours
pub mod Rules
pub mod Occupancy
pub mod Facility
pub mod Service
pub mod Conflicts
pub mod Unreported
mod Tests
