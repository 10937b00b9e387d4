-- ===== src/Schedule/Lessons/Tests.antt =====
-- internal/schedule/repository_lessons.go: the theorems about normalizeScheduleLesson at a lesson.
use ispo_shedule_backend.Prelude.{pos, some, ◌≡◌, refl, inl, inr, arith}
use ispo_shedule_backend.Prelude.Text.{trim_space, to_lower}
use ispo_shedule_backend.Prelude.Results.{ok}
use ispo_shedule_backend.Schedule.Models.{ScheduleLesson}
use ispo_shedule_backend.Schedule.Memory.{lesson_one}
use ispo_shedule_backend.Schedule.Lessons.Normalize.{
  date_only, normalize_lesson_format, normalize_lesson_source, normalize_status, normalize_flow_key,
  normalize_schedule_lesson,
}
use ispo_shedule_backend.Schedule.Lessons.Normal.{IsNormal, normalize_schedule_lesson-IsNormal}
use ispo_shedule_backend.Schedule.Lessons.Stable.{normalize_schedule_lesson_fixed}

-- The lesson as a client may send it.
abbrev raw_lesson : ScheduleLesson
raw_lesson = record lesson_one {
  lesson_format = " Offline";
  source = "";
  flow_key = some " ";
  version = pos 0;
}

accepts : normalize_schedule_lesson raw_lesson ≡ ok lesson_one
unfolding trim_space to_lower date_only normalize_lesson_format normalize_lesson_source
    normalize_status normalize_flow_key normalize_schedule_lesson
accepts = refl

normalize_schedule_lesson-IsNormal_example : IsNormal lesson_one
normalize_schedule_lesson-IsNormal_example =
    normalize_schedule_lesson-IsNormal raw_lesson lesson_one accepts

one_IsNormal : IsNormal lesson_one
one_IsNormal = record {
  group = refl;
  midnight = refl;
  dated = λ e. absurd (omega (arith, e));
  pair = (omega arith, omega arith);
  subgroup = tt;
  format = inl refl;
  status = inr (inl refl);
  source = inl refl;
  version = refl;
  flow_key = tt;
}

normalize_schedule_lesson_fixed_example : normalize_schedule_lesson lesson_one ≡ ok lesson_one
normalize_schedule_lesson_fixed_example = normalize_schedule_lesson_fixed lesson_one one_IsNormal
