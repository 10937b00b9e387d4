-- ===== src/Schedule/Edits.antt =====
-- internal/schedule/service_overrides.go and repository_lessons.go: lessons created, edited and
-- cancelled one by one.
pub mod Defs
pub mod Updated
mod Tests
