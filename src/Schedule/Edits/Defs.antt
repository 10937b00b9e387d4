-- ===== src/Schedule/Edits/Defs.antt =====
-- internal/schedule/service_overrides.go (CreateScheduleLesson, UpdateScheduleLesson) and
-- repository_lessons.go (CreateScheduleLesson, CancelScheduleLesson).
use ispo_shedule_backend.Prelude.{
  ℤ, Bool, true, false, Option, none, some, ◌==◌, int_eq, find, int_succ,
}
use ispo_shedule_backend.Prelude.Transaction.{Step, pure, fail, ◌>>=◌, ◌>>◌, lift, reject_if}
use ispo_shedule_backend.Schedule.Models.{
  Time, EntityStatus, cancelled, is_cancelled, ScheduleLesson,
}
use ispo_shedule_backend.Schedule.Errors.{Error, record_not_found, lesson_version_conflict}
use ispo_shedule_backend.Schedule.Store.{Database}
use ispo_shedule_backend.Schedule.Lessons.Normalize.{
  date_only, normalize_lesson_format, normalize_lesson_source, normalize_schedule_lesson,
}
use ispo_shedule_backend.Schedule.Rooms.Defs.{query}
use ispo_shedule_backend.Schedule.Constraints.Defs.{
  check_teacher_constraints, check_global_day_constraint,
}
use ispo_shedule_backend.Schedule.Overrides.Rows.{version_conflict}

-- the assignments of UpdateScheduleLesson
unfoldable pub patched : ScheduleLesson → ScheduleLesson → ScheduleLesson
patched row patch = record row {
  group_id = patch.group_id;
  lesson_date = date_only patch.lesson_date;
  pair_number = patch.pair_number;
  subgroup = patch.subgroup;
  subject_id = patch.subject_id;
  teacher_id = patch.teacher_id;
  lesson_format = normalize_lesson_format patch.lesson_format;
  status = patch.status;
  source = normalize_lesson_source patch.source;
  flow_key = patch.flow_key;
  comment = patch.comment;
  version = int_succ row.version;
}

module _ (db : Database) where
  unfoldable pub row_or_fail : Option ScheduleLesson → Step Error db.State ScheduleLesson
  row_or_fail none = fail record_not_found
  row_or_fail (some row) = pure row

  -- `tx.First(&row, id)`
  unfoldable pub first_lesson : ℤ → Step Error db.State ScheduleLesson
  first_lesson id = query db (λ t. find (λ r. r.id == id) t.lessons) >>= row_or_fail

  -- `if row.Status != StatusCancelled { … }`
  unfoldable pub check_live_day : EntityStatus → Time → Bool → Step Error db.State (Unit {0})
  check_live_day status lesson_date confirmed = elim (is_cancelled status) [
    | true ↦ pure tt
    | false ↦ check_global_day_constraint db lesson_date confirmed
  ]

  -- CreateScheduleLesson of the service
  unfoldable pub create_schedule_lesson :
      ScheduleLesson → Bool → Bool → Step Error db.State ScheduleLesson
  create_schedule_lesson row confirmed_teacher confirmed_global_day = do
    next ← lift (normalize_schedule_lesson row)
    check_live_day next.status next.lesson_date confirmed_global_day
    check_teacher_constraints db next.teacher_id next.lesson_date confirmed_teacher
    created ← db.create_lesson next
    db.commit
    pure created

  -- UpdateScheduleLesson of the service
  unfoldable pub update_schedule_lesson :
      ℤ → ScheduleLesson → Option ℤ → Bool → Bool → Step Error db.State ScheduleLesson
  update_schedule_lesson id patch expected_version confirmed_teacher confirmed_global_day = do
    row ← first_lesson id
    reject_if (version_conflict expected_version row.version) lesson_version_conflict
    next ← lift (normalize_schedule_lesson (patched row patch))
    check_live_day next.status next.lesson_date confirmed_global_day
    check_teacher_constraints db next.teacher_id next.lesson_date confirmed_teacher
    db.save_lesson next
    db.commit
    pure next

  -- CancelScheduleLesson of the repository
  unfoldable pub cancel_schedule_lesson : ℤ → Option ℤ → Step Error db.State ScheduleLesson
  cancel_schedule_lesson id expected_version = do
    row ← first_lesson id
    reject_if (version_conflict expected_version row.version) lesson_version_conflict
    let next = record row { status = cancelled; version = int_succ row.version }
    db.save_lesson next
    db.commit
    pure next
