-- ===== src/Schedule.antt =====
-- internal/schedule: the schedule service, its rows and its rules.
pub mod Models
pub mod Errors
pub mod Store
pub mod SystemState
mod Memory
pub mod Lessons
pub mod Rooms
pub mod Constraints
pub mod Overrides
pub mod Edits
pub mod Inheritance
pub mod Dictionaries
pub mod WeekCache
pub mod Build
pub mod Views
pub mod Locations
pub mod Autofill
pub mod Semester
pub mod Validation
pub mod Explain
pub mod Assignments
