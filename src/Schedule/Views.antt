-- ===== src/Schedule/Views.antt =====
-- internal/schedule/service_filter.go: a schedule by group, teacher or location.
pub mod Defs
pub mod Service
mod Order
pub mod Collected
pub mod Shown
mod Tests
