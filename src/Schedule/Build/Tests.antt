-- ===== src/Schedule/Build/Tests.antt =====
-- A week of one group that follows another, built by buildDays (Defs).
use ispo_shedule_backend.Prelude.{ap, sym, ◌∙◌, int_beq_iff}
use ispo_shedule_backend.Schedule.Build.Shown.{ShowsGroup, build_days-ShowsGroup}
use ispo_shedule_backend.Prelude.Transaction.{and_then}
use ispo_shedule_backend.Schedule.Store.{Tables}
use ispo_shedule_backend.Schedule.Memory.{memory, memory-IsDatabase, today, tables_one}
use ispo_shedule_backend.Schedule.Rooms.Defs.{query}
use ispo_shedule_backend.Schedule.SystemState.{state_or_init, get_system_state}
use ispo_shedule_backend.Schedule.WeekCache.Sound.{IsSound}
use ispo_shedule_backend.Schedule.WeekCache.Range.{versioned_range}
use ispo_shedule_backend.Prelude.{
  ℕ, ◌+◌, ◌≤◌, ℤ, pos, String, true, false, ◌≡◌, Option, none, some, List, [], ◌∷◌, ◌==◌, string_eq,
  nat_eq, int_eq, if◌then◌else◌, lookup, insert, insert_all, last_value, fall_back, arith, refl,
  subst, inl, inr, All, Bool-cases,
}
use mathlib.Core.List.{Permᴰ}
use mathlib.Core.List
use mathlib.Core.List.Permᴰ as Perm
use ispo_shedule_backend.Prelude.Text.{trim_space, to_lower}
use ispo_shedule_backend.Prelude.Results.{Result, ok, ok_inj}
use ispo_shedule_backend.Prelude.Sorting.{insert_sorted, stable_sort}
use ispo_shedule_backend.Schedule.Models.{
  Time, Group, Lesson, published, numerator, denominator, DaySchedule, WeekScheduleResponse,
}
use ispo_shedule_backend.Schedule.Errors.{Error}
use ispo_shedule_backend.Schedule.Lessons.Normalize.{normalize_lesson_format}
use ispo_shedule_backend.Schedule.Inheritance.{schedule_inheritance_chain_ids, walk, reverse}
use ispo_shedule_backend.Schedule.WeekCache.Defs.{new_week_cache, get}
use ispo_shedule_backend.Schedule.WeekCache.Laws.{new_week_cache-IsValid}
use ispo_shedule_backend.Schedule.WeekCache.Range.{
  monday_of_week, is_canonical_week, get_range, fresh_range, keep_range, cached_range,
}
use ispo_shedule_backend.Schedule.Build.StudyStates.{
  default_study_day_state, AcademicCalendarWeek, AcademicDayOverrideStateRow, study_entries,
  week_starts, collected_states, study_state_on,
}
use ispo_shedule_backend.Schedule.Build.DayStates.{unless, study_state_on-collected_states}
use ispo_shedule_backend.Schedule.Build.Parity.{
  day_of_week_for_date, week_parity_for_date, week_parity_for_date-alternates,
}
use ispo_shedule_backend.Schedule.Build.Defs.{
  ScheduleLessonView, SlotKey, slot_eq, Slots, subgroup_key, slots_on, put_row, put_rows,
  lesson_from_schedule_lesson_view, day_lessons, ScheduleReads, rows_of_chain, build_day, each_day,
  day_inputs, build_days,
}
use ispo_shedule_backend.Schedule.Build.Slots.{day_lessons-forgets, IsSubgroup}
use ispo_shedule_backend.Schedule.Build.Days.{IsScheduleOf, get_range-IsScheduleOf}

abbrev midnight : ℕ → Time
midnight d = record { day = d; nanos = 0 }

abbrev view : ℤ → ℤ → ℕ → ℤ → Option ℤ → ScheduleLessonView
view row_id gid d pair sub = record {
  id = row_id;
  group_id = gid;
  lesson_date = midnight d;
  pair_number = pair;
  subgroup = sub;
  subject_id = some (pos 5);
  subject_name = "Алгебра";
  teacher_id = none;
  teacher_name = "";
  location_id = none;
  location_name = "";
  lesson_format = "offline";
  status = published;
  source = "manual";
  flow_key = none;
  comment = none;
  version = pos 1;
  room_assignment_id = none;
}

abbrev slot : ℤ → ℤ → SlotKey
slot pair sub = record { pair_number = pair; subgroup = sub }

-- group 2 is the base; group 1 has a third pair of its own
abbrev base_rows : List ScheduleLessonView
base_rows =
    view (pos 10) (pos 2) 7 (pos 3) none ∷ view (pos 11) (pos 2) 7 (pos 1) (some (pos 2)) ∷ []

abbrev own_rows : List ScheduleLessonView
own_rows = view (pos 12) (pos 1) 7 (pos 3) none ∷ []

abbrev swapped : Slots
swapped =
    (slot (pos 1) (pos 2), view (pos 11) (pos 2) 7 (pos 1) (some (pos 2)))
    ∷ (slot (pos 3) (pos 0), view (pos 10) (pos 2) 7 (pos 3) none)
    ∷ []

day_lessons-forgets_example : day_lessons swapped ≡ day_lessons (slots_on 7 (put_rows [] base_rows))
unfolding put_rows put_row slots_on lookup insert subgroup_key
day_lessons-forgets_example =
    day_lessons-forgets 7 base_rows swapped (tt, (omega arith, tt)) (Permᴰ.swap refl refl)

week_parity_for_date-alternates_example :
    (week_parity_for_date (some 3) 0 ≡ week_parity_for_date (some 3) 6)
    × (week_parity_for_date (some 3) 3 ≡ denominator)
    × ((6 + 14 ≤ 3 + 106751) → (3 + 14 ≤ 6 + 106751) → week_parity_for_date (some 3) 13 ≡ numerator)
unfolding week_parity_for_date monday_of_week
week_parity_for_date-alternates_example = week_parity_for_date-alternates 3 6

abbrev holiday : AcademicDayOverrideStateRow
holiday = record {
  target_date = midnight 7;
  activity_code = "HOLIDAY";
  activity_name = none;
  is_teaching = false;
}

abbrev lesson_week : AcademicCalendarWeek
lesson_week = record {
  week_number = pos 2;
  week_start_date = midnight 7;
  activity_code = "TEACHING";
  activity_name = none;
  is_teaching = true;
}

-- a Wednesday of a week whose Monday is a holiday
study_state_on-collected_states_example :
    study_state_on 9 (collected_states 7 7 (lesson_week ∷ []) (holiday ∷ []) []) ≡ record {
      activity_code = "HOLIDAY";
      activity_name = none;
      is_teaching = false;
      source = "academic_day_override";
    }
unfolding last_value fall_back monday_of_week study_entries week_starts insert lookup unless
study_state_on-collected_states_example =
    study_state_on-collected_states 7 7 (lesson_week ∷ []) (holiday ∷ []) [] 9

abbrev groups : ℤ → Result Error Group
groups gid =
    if gid == pos 1
    then ok (record {
      id = pos 1;
      name = "ИС-21";
      course = pos 2;
      schedule_source_group_id = some (pos 2);
      curriculum_id = none;
      admission_year = none;
      specialty_id = none;
    })
    else ok (record {
      id = gid;
      name = "ИС";
      course = pos 2;
      schedule_source_group_id = none;
      curriculum_id = none;
      admission_year = none;
      specialty_id = none;
    })

abbrev reads : Tables → ScheduleReads
reads t = record {
  get_group = groups;
  list_overlays_between = λ gid first last. ok [];
  list_calendar_day_constraints_between = λ first last. ok [];
  list_day_events_between = λ gid first last. ok [];
  list_study_day_states = λ gid first last. ok [];
  list_schedule_lesson_views_between =
      λ gid first last. if gid == pos 1 then ok own_rows else ok base_rows;
}

rows_fit :
    (t : Tables) (gid : ℤ) (first last : ℕ) (rows : List ScheduleLessonView)
    → (reads t).list_schedule_lesson_views_between gid first last ≡ ok rows
    → All (λ r. IsSubgroup r.subgroup) rows
rows_fit t gid first last rows h = elim (Bool-cases (gid == pos 1)) [
  | inl own ↦ subst (All (λ r. IsSubgroup r.subgroup)) (ok_inj (rw own at h)) (tt, tt)
  | inr base ↦
      subst (All (λ r. IsSubgroup r.subgroup)) (ok_inj (rw base at h)) (tt, (omega arith, tt))
]

abbrev backwards : Slots → Slots
backwards = List.reverse

abbrev version_text : Time → String
version_text v = "v1"

abbrev week_of_build : Tables → ℤ → ℕ → ℕ → Result Error (List DaySchedule)
week_of_build t = build_days backwards (some 0) (reads t)

empty_cache : IsSound memory version_text week_of_build tables_one (new_week_cache (pos 4))
unfolding new_week_cache get lookup
empty_cache = record {
  valid = new_week_cache-IsValid (pos 4);
  coherent = λ now version t h k w found same. cc;
}

abbrev algebra : ℤ → Option ℤ → Lesson
algebra pair sub = record {
  pair_number = pair;
  subject_id = some (pos 5);
  subject_name = "Алгебра";
  location_id = none;
  location_name = "";
  lesson_format = "offline";
  teacher_name = "";
  subgroup = sub;
  flow_key = none;
  is_changed = false;
  is_added = false;
  comment = none;
}

abbrev day_with : ℕ → ℕ → List Lesson → DaySchedule
day_with d weekday lessons = record {
  date = d;
  day_of_week = weekday;
  week_parity = numerator;
  overlay_text = none;
  study_day_state = some default_study_day_state;
  global_day_constraint = none;
  events = [];
  events_nil = false;
  lessons = lessons;
  lessons_nil = false;
}

abbrev shown_week : WeekScheduleResponse
shown_week = record {
  group_id = pos 1;
  date_start = 7;
  date_end = 8;
  data_version = "v1";
  days =
      day_with 7 0 (algebra (pos 1) (some (pos 2)) ∷ algebra (pos 3) none ∷ [])
      ∷ day_with 8 1 []
      ∷ [];
}

shown :
    (get_range memory version_text week_of_build today
      (pos 1)
      (midnight 7)
      (midnight 8)
      (tables_one, new_week_cache (pos 4))).0
    ≡ ok shown_week
unfolding get_range versioned_range get_system_state state_or_init query and_then fresh_range
    cached_range keep_range is_canonical_week monday_of_week build_days day_inputs rows_of_chain
    each_day build_day slots_on put_rows put_row lookup insert insert_all day_lessons stable_sort
    insert_sorted lesson_from_schedule_lesson_view normalize_lesson_format trim_space to_lower
    schedule_inheritance_chain_ids walk reverse study_state_on day_of_week_for_date
    week_parity_for_date subgroup_key
shown = refl

get_range-IsScheduleOf_example : IsScheduleOf (pos 1) 7 8 shown_week
get_range-IsScheduleOf_example =
    get_range-IsScheduleOf memory memory-IsDatabase version_text backwards (some 0) reads
      (λ slots. Perm.symm (Perm.reverse slots)) rows_fit today (pos 1) (midnight 7) (midnight 8)
      tables_one (new_week_cache (pos 4)) shown_week empty_cache shown

groups_fit : (gid : ℤ) (g : Group) → groups gid ≡ ok g → g.id ≡ gid
groups_fit gid g h = elim (Bool-cases (gid == pos 1)) [
  | inl own ↦ ap (λ k. k.id) (sym (ok_inj (rw own at h))) ∙ sym ((int_beq_iff gid (pos 1)).0 own)
  | inr base ↦ ap (λ k. k.id) (sym (ok_inj (rw base at h)))
]

built_days : build_days backwards (some 0) (reads tables_one) (pos 1) 7 8 ≡ ok shown_week.days
unfolding build_days day_inputs rows_of_chain each_day build_day slots_on put_rows put_row lookup
    insert insert_all day_lessons stable_sort insert_sorted lesson_from_schedule_lesson_view
    normalize_lesson_format trim_space to_lower schedule_inheritance_chain_ids walk reverse
    study_state_on monday_of_week day_of_week_for_date week_parity_for_date subgroup_key
built_days = refl

build_days-ShowsGroup_example : ShowsGroup (reads tables_one) (pos 1) 7 8 shown_week.days
build_days-ShowsGroup_example =
    build_days-ShowsGroup backwards (some 0) (reads tables_one)
      (λ slots. Perm.symm (Perm.reverse slots)) (pos 1) 7 8 shown_week.days groups_fit built_days
