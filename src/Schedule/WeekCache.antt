-- ===== src/Schedule/WeekCache.antt =====
-- internal/schedule/week_cache.go: the bounded cache of built weeks, and its laws.
pub mod Defs
pub mod Laws
pub mod Eviction
pub mod Clone
pub mod Range
pub mod Sound
mod Tests
