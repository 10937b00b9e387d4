-- ===== src/Schedule/Rooms/Tests.antt =====
-- internal/schedule: the theorems about rooms on the small timetable.
use ispo_shedule_backend.Prelude.{pos, ◌≡◌, refl, [], ◌∷◌}
use ispo_shedule_backend.Prelude.Text.{trim_space, to_lower}
use ispo_shedule_backend.Prelude.Results.{ok}
use ispo_shedule_backend.Prelude.Transaction.{and_then, lift, reject_if}
use ispo_shedule_backend.Schedule.Models.{published, RoomAssignment}
use ispo_shedule_backend.Schedule.Store.{Tables}
use ispo_shedule_backend.Schedule.Memory.{memory, memory-IsDatabase, tables_one}
use ispo_shedule_backend.Schedule.Rooms.Defs.{
  assignment_status, assignment_source, normalize_room_assignment, query, write_assignment,
  upsert_room_assignment_for_lesson,
}
use ispo_shedule_backend.Schedule.Rooms.Reassigned.{
  Reassigned, upsert_room_assignment_for_lesson-Reassigned,
}

abbrev moved : RoomAssignment
moved = record {
  id = pos 1;
  schedule_lesson_id = pos 1;
  location_id = pos 8;
  source = "manual";
  status = published;
}

abbrev moved_tables : Tables
moved_tables = record tables_one { room_assignments = moved ∷ [] }

moves :
    upsert_room_assignment_for_lesson memory (pos 1) (pos 8) "manual" tables_one
    ≡ ok (moved, moved_tables)
unfolding trim_space to_lower and_then lift reject_if assignment_status assignment_source
    normalize_room_assignment query write_assignment upsert_room_assignment_for_lesson
moves = refl

upsert_room_assignment_for_lesson-Reassigned_example :
    Reassigned tables_one moved_tables (pos 1) (pos 8)
upsert_room_assignment_for_lesson-Reassigned_example =
    upsert_room_assignment_for_lesson-Reassigned memory memory-IsDatabase (pos 1) (pos 8) "manual"
      moved tables_one moved_tables (refl, tt) moves
