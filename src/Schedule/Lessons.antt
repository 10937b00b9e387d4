-- ===== src/Schedule/Lessons.antt =====
-- internal/schedule/repository_lessons.go and types.go: the checks and the normal form of a lesson.
pub mod Normalize
pub mod Normal
pub mod Stable
mod Tests
