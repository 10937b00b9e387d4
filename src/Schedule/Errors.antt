-- ===== src/Schedule/Errors.antt =====
-- The errors of internal/schedule: the typed ones of service_overrides.go and repository_lessons.go,
-- the texts of fmt.Errorf, and those that the database hands back.
use ispo_shedule_backend.Prelude.{ℤ, String}
use ispo_shedule_backend.Schedule.Models.{Time, TeacherDayConstraint, CalendarDayConstraint}

pub data Error : Type 0 where
  message : String → Error
  record_not_found : Error
  storage : String → Error
  lesson_version_conflict : Error
  teacher_confirmation_required : TeacherDayConstraint → Error
  teacher_hard_block : TeacherDayConstraint → Error
  global_confirmation_required : CalendarDayConstraint → Error
  global_day_blocked : CalendarDayConstraint → Error
  room_conflict : ℤ → Time → ℤ → Error
  wrapped : String → Error → Error
