-- ===== src/Schedule/Constraints/Tests.antt =====
-- internal/schedule/service_overrides.go: the theorems about day constraints at a confirmed warning.
use ispo_shedule_backend.Prelude.{pos, true, false, ◌≡◌, ◌↔◌, refl, none, some, [], ◌∷◌, All}
use ispo_shedule_backend.Prelude.Text.{trim_space, to_lower}
use ispo_shedule_backend.Prelude.Results.{ok}
use ispo_shedule_backend.Prelude.Transaction.{and_then, lift}
use ispo_shedule_backend.Schedule.Models.{TeacherDayConstraint, CalendarDayConstraint}
use ispo_shedule_backend.Schedule.Store.{Tables}
use ispo_shedule_backend.Schedule.Memory.{memory, today, tables_one}
use ispo_shedule_backend.Schedule.Lessons.Normalize.{date_only}
use ispo_shedule_backend.Schedule.Rooms.Defs.{query}
use ispo_shedule_backend.Schedule.Constraints.Defs.{
  teacher_verdict, global_verdict, check_teacher_constraints,
}
use ispo_shedule_backend.Schedule.Lessons.Normalize.{normalize_flow_key}
use ispo_shedule_backend.Schedule.Constraints.Normalize.{
  known_constraint_type, known_style, normalize_calendar_day_constraint, IsNormalConstraint,
  normalize_calendar_day_constraint-IsNormalConstraint,
}
use ispo_shedule_backend.Schedule.Constraints.Verdicts.{
  Permits, PermitsToday, teacher_verdict_iff, global_verdict_iff,
}

abbrev warning : TeacherDayConstraint
warning = record {
  id = pos 1;
  teacher_id = pos 9;
  target_date = today;
  reason = "exam";
  constraint_level = "warning";
  requires_confirmation = true;
}

abbrev holiday : CalendarDayConstraint
holiday = record {
  id = pos 1;
  target_date = today;
  title = "holiday";
  reason = none;
  constraint_type = "blocked";
  affects_lessons = true;
  requires_confirmation = true;
  style_preset = "danger";
}

abbrev warned : Tables
warned = record tables_one { teacher_constraints = warning ∷ [] }

confirmed_passes :
    check_teacher_constraints memory (some (pos 9)) today true warned ≡ ok (tt, warned)
unfolding and_then lift date_only query teacher_verdict check_teacher_constraints
confirmed_passes = refl

teacher_verdict_iff_example :
    (teacher_verdict true (warning ∷ []) ≡ ok tt) ↔ All (Permits true) (warning ∷ [])
teacher_verdict_iff_example = teacher_verdict_iff true (warning ∷ [])

global_verdict_iff_example :
    (global_verdict false (some holiday) ≡ ok tt) ↔ PermitsToday false (some holiday)
global_verdict_iff_example = global_verdict_iff false (some holiday)

-- The constraint as a client may send it.
abbrev raw_holiday : CalendarDayConstraint
raw_holiday = record holiday { title = " holiday "; constraint_type = "Blocked"; style_preset = "" }

accepts : normalize_calendar_day_constraint raw_holiday ≡ ok holiday
unfolding trim_space to_lower date_only normalize_flow_key known_constraint_type known_style
    normalize_calendar_day_constraint
accepts = refl

normalize_calendar_day_constraint-IsNormalConstraint_example : IsNormalConstraint holiday
normalize_calendar_day_constraint-IsNormalConstraint_example =
    normalize_calendar_day_constraint-IsNormalConstraint raw_holiday holiday accepts
