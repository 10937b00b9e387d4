-- ===== src/Schedule/Assignments.antt =====
-- internal/schedule/repository_teachers.go: the assignments of teachers to courses.
pub mod Defs
pub mod Published
mod Tests
