-- ===== src/Schedule/Validation/Tests.antt =====
-- Two groups in one room, and a week of three pairs (Hours, Unreported).
use ispo_shedule_backend.Prelude.{
  ℕ, ℤ, pos, true, false, ◌≡◌, none, some, List, [], ◌∷◌, ◌==◌, string_eq, nat_eq, pair_eq, int_eq,
  ltb, lookup, refl, inl, length, any, contains,
}
use ispo_shedule_backend.Prelude.{AllDistinct}
use ispo_shedule_backend.Prelude.Text.{trim_space, to_lower, equal_fold}
use ispo_shedule_backend.Prelude.Format.{split_comma}
use ispo_shedule_backend.Schedule.Models.{Lesson, DaySchedule, both}
use ispo_shedule_backend.Schedule.Locations.{
  LocationMeta, meta_of, has_type, is_virtual, is_physical_education_facility,
}
use ispo_shedule_backend.Schedule.Validation.Defs.{validate_weekly_student_hours}
use ispo_shedule_backend.Schedule.Validation.Hours.{is_day_at, validate_weekly_student_hours-any}
use ispo_shedule_backend.Schedule.Validation.Occupancy.{
  room_slot_eq, slot_at, slot_of_lesson, normalized_flow_key, validate_location_occupancy_rules,
}
use ispo_shedule_backend.Schedule.Validation.Conflicts.{is_in}
use ispo_shedule_backend.Schedule.Validation.Unreported.{
  is_room_warning, validate_location_occupancy_rules-any,
}

abbrev lesson_in : ℤ → ℤ → Lesson
lesson_in pair room = record {
  pair_number = pair;
  subject_id = some (pos 5);
  subject_name = "Алгебра";
  location_id = some room;
  location_name = "104";
  lesson_format = "offline";
  teacher_name = "Иванов";
  subgroup = none;
  flow_key = none;
  is_changed = false;
  is_added = false;
  comment = none;
}

abbrev day_of : ℕ → List Lesson → DaySchedule
day_of d lessons = record {
  date = d;
  day_of_week = 0;
  week_parity = both;
  overlay_text = none;
  study_day_state = none;
  global_day_constraint = none;
  events = [];
  events_nil = false;
  lessons = lessons;
  lessons_nil = false;
}

abbrev three_pairs : List DaySchedule
three_pairs =
    day_of 7 (lesson_in (pos 1) (pos 4) ∷ lesson_in (pos 2) (pos 4) ∷ [])
    ∷ day_of 8 (lesson_in (pos 1) (pos 4) ∷ [])
    ∷ []

validate_weekly_student_hours-any_example :
    (pairs : List (ℕ × ℤ)) × AllDistinct pairs
    × ((at : ℕ × ℤ) → contains at pairs ≡ any (is_day_at 7 at) three_pairs)
    × (any (λ w. w.date == 7) (validate_weekly_student_hours three_pairs) ≡ ltb 18 (length pairs))
validate_weekly_student_hours-any_example = validate_weekly_student_hours-any three_pairs 7

abbrev two_schedules : List (ℤ × List DaySchedule)
two_schedules =
    (pos 1, day_of 7 (lesson_in (pos 2) (pos 4) ∷ []) ∷ [])
    ∷ (pos 2, day_of 7 (lesson_in (pos 1) (pos 4) ∷ lesson_in (pos 2) (pos 4) ∷ []) ∷ [])
    ∷ []

abbrev metas : List (ℤ × LocationMeta)
metas =
    (
      pos 4,
      record {
        id = pos 4;
        campus_id = none;
        campus_name = "";
        kind = "physical";
        type_codes = "lab";
      },
    )
    ∷ []

validate_location_occupancy_rules-any_example :
    any
      (is_room_warning (slot_at 7 (pos 2) (pos 4)))
      (validate_location_occupancy_rules metas (pos 1) [] two_schedules)
    ≡ true
unfolding is_in slot_of_lesson normalized_flow_key meta_of lookup is_virtual
    is_physical_education_facility has_type split_comma trim_space to_lower equal_fold
validate_location_occupancy_rules-any_example =
    validate_location_occupancy_rules-any metas (pos 1) [] (slot_at 7 (pos 2) (pos 4)) (pos 2) "" ""
      two_schedules (λ p. cc) (inl refl) refl refl refl
