-- ===== src/Schedule/Build.antt =====
-- internal/schedule/service_build.go: the days of a schedule.
pub mod StudyStates
pub mod DayStates
pub mod Defs
pub mod Slots
pub mod Days
pub mod Shown
mod Tests
pub mod Parity
