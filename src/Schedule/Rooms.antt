-- ===== src/Schedule/Rooms.antt =====
-- internal/schedule: room assignments, and the check that a room is free.
pub mod Defs
pub mod Free
pub mod Assigned
pub mod Reassigned
mod Tests
