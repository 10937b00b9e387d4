-- ===== src/Schedule/Edits/Tests.antt =====
-- internal/schedule/service_overrides.go: the theorems about UpdateScheduleLesson at an edit.
use ispo_shedule_backend.Prelude.{pos, false, ◌≡◌, ◌≢◌, refl, some, [], ◌∷◌, int_succ, arith}
use ispo_shedule_backend.Prelude.Text.{trim_space, to_lower}
use ispo_shedule_backend.Prelude.Results.{ok}
use ispo_shedule_backend.Prelude.Transaction.{and_then, lift, reject_if}
use ispo_shedule_backend.Schedule.Models.{ScheduleLesson}
use ispo_shedule_backend.Schedule.Store.{Tables}
use ispo_shedule_backend.Schedule.Memory.{memory, memory-IsDatabase, lesson_one, tables_one}
use ispo_shedule_backend.Schedule.Lessons.Normalize.{
  date_only, normalize_lesson_format, normalize_lesson_source, normalize_status, normalize_flow_key,
  normalize_schedule_lesson,
}
use ispo_shedule_backend.Schedule.Rooms.Defs.{query}
use ispo_shedule_backend.Schedule.Constraints.Defs.{
  teacher_verdict, global_verdict, check_teacher_constraints, check_global_day_constraint,
}
use ispo_shedule_backend.Schedule.Overrides.Rows.{version_conflict}
use ispo_shedule_backend.Schedule.Edits.Defs.{
  patched, row_or_fail, first_lesson, check_live_day, update_schedule_lesson,
}
use ispo_shedule_backend.Schedule.Edits.Updated.{
  Updated, update_schedule_lesson-Updated, update_schedule_lesson_once,
}

abbrev patch : ScheduleLesson
patch = record lesson_one { pair_number = pos 5 }

abbrev edited : ScheduleLesson
edited = record patch { version = pos 2 }

abbrev edited_tables : Tables
edited_tables = record tables_one { lessons = edited ∷ [] }

edits :
    update_schedule_lesson memory (pos 1) patch (some (pos 1)) false false tables_one
    ≡ ok (edited, edited_tables)
unfolding int_succ trim_space to_lower and_then lift reject_if date_only normalize_lesson_format
    normalize_lesson_source normalize_status normalize_flow_key normalize_schedule_lesson query
    teacher_verdict global_verdict check_teacher_constraints check_global_day_constraint
    version_conflict patched row_or_fail first_lesson check_live_day update_schedule_lesson
edits = refl

update_schedule_lesson-Updated_example :
    Updated tables_one edited_tables (pos 1) patch (some (pos 1)) false false edited
update_schedule_lesson-Updated_example =
    update_schedule_lesson-Updated memory memory-IsDatabase (pos 1) patch (some (pos 1)) false false
      edited tables_one edited_tables edits

update_schedule_lesson_once_example :
    update_schedule_lesson memory (pos 1) patch (some (pos 1)) false false edited_tables
    ≢ ok (edited, edited_tables)
update_schedule_lesson_once_example =
    update_schedule_lesson_once memory memory-IsDatabase (pos 1) patch patch 1 false false false
      false edited edited tables_one edited_tables edited_tables (omega arith) edits
