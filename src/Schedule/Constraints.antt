-- ===== src/Schedule/Constraints.antt =====
-- internal/schedule: the day constraints of teachers and of the calendar.
pub mod Defs
pub mod Verdicts
pub mod Normalize
mod Tests
