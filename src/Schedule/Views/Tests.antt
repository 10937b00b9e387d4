-- ===== src/Schedule/Views/Tests.antt =====
-- A view of two groups by teacher (Service), over the week cache.
use ispo_shedule_backend.Prelude.{
  ℕ, ℤ, pos, String, false, ◌≡◌, none, List, [], ◌∷◌, map, string_eq, nat_eq, int_eq, lookup, refl,
  All,
}
use ispo_shedule_backend.Prelude.Text.{trim_space, equal_fold}
use ispo_shedule_backend.Prelude.TextOrder.{string_ltb}
use ispo_shedule_backend.Prelude.Results.{Result, ok, err}
use ispo_shedule_backend.Prelude.Sorting.{insert_sorted, stable_sort}
use ispo_shedule_backend.Schedule.Models.{
  Time, Group, Lesson, WeekScheduleResponse, DaySchedule, both,
}
use ispo_shedule_backend.Schedule.Errors.{Error, record_not_found}
use ispo_shedule_backend.Schedule.WeekCache.Defs.{WeekCache, new_week_cache, get}
use ispo_shedule_backend.Schedule.WeekCache.Laws.{new_week_cache-IsValid}
use ispo_shedule_backend.Prelude.{Bool-cases, inl, inr, sym, subst, is_positive}
use ispo_shedule_backend.Prelude.Transaction.{and_then}
use ispo_shedule_backend.Schedule.Store.{Tables}
use ispo_shedule_backend.Schedule.Memory.{memory, memory-IsDatabase, today, tables_one}
use ispo_shedule_backend.Schedule.Rooms.Defs.{query}
use ispo_shedule_backend.Schedule.SystemState.{state_or_init, get_system_state}
use ispo_shedule_backend.Schedule.WeekCache.Clone.{
  clone_day_schedule, clone_week_schedule_response, cloned,
}
use ispo_shedule_backend.Schedule.WeekCache.Range.{
  get_range, versioned_range, plain_range, fresh_range, cached_range, keep_range, is_canonical_week,
  monday_of_week,
}
use ispo_shedule_backend.Schedule.WeekCache.Sound.{IsSound, get_range-cloned}
use ispo_shedule_backend.Schedule.Build.Defs.{subgroup_key}
use ispo_shedule_backend.Schedule.Build.Parity.{day_of_week_for_date, week_parity_for_date}
use ispo_shedule_backend.Schedule.Views.Defs.{
  ScheduleViewDay, ScheduleViewResponse, ViewReads, view_lesson, view_days_from_week,
  sort_schedule_view_lessons, empty_schedule_view_days, add_lessons, add_days, taught_by,
}
use ispo_shedule_backend.Schedule.Views.Service.{
  empty_response, collect, get_aggregated_schedule_view,
}
use ispo_shedule_backend.Schedule.Views.Collected.{IsViewDay, AreWeeks, dates_from}
use ispo_shedule_backend.Schedule.Views.Shown.{get_aggregated_schedule_view-IsViewDay}

abbrev lesson_by : ℤ → String → Lesson
lesson_by pair name = record {
  pair_number = pair;
  subject_id = none;
  subject_name = "Алгебра";
  location_id = none;
  location_name = "";
  lesson_format = "offline";
  teacher_name = name;
  subgroup = none;
  flow_key = none;
  is_changed = false;
  is_added = false;
  comment = none;
}

abbrev group_named : ℤ → String → Group
group_named gid text = record {
  id = gid;
  name = text;
  course = pos 1;
  schedule_source_group_id = none;
  curriculum_id = none;
  admission_year = none;
  specialty_id = none;
}

-- each group has two lessons on every first day
abbrev build : Tables → ℤ → ℕ → ℕ → Result Error (List DaySchedule)
build t gid start_day end_day = ok (
    record {
      date = start_day;
      day_of_week = 0;
      week_parity = both;
      overlay_text = none;
      study_day_state = none;
      global_day_constraint = none;
      events = [];
      events_nil = false;
      lessons = lesson_by (pos 2) "Иванов" ∷ lesson_by (pos 3) "Петров" ∷ [];
      lessons_nil = false;
    }
    ∷ [])

abbrev two_groups : List Group
two_groups = group_named (pos 1) "ИС-21" ∷ group_named (pos 2) "ИС-11" ∷ []

abbrev reads : ViewReads
reads = record {
  data_version = ok "v1";
  get_group = λ gid. err record_not_found;
  get_teacher = λ tid. err record_not_found;
  get_location = λ lid. err record_not_found;
  list_groups = ok two_groups;
}

abbrev monday : Time
monday = record { day = 7; nanos = 0 }

abbrev version_text : Time → String
version_text v = "v1"

abbrev Kept : Type 0
Kept = Tables × WeekCache

abbrev range_of : ℤ → Kept → Result Error WeekScheduleResponse × Kept
range_of gid = get_range memory version_text build today gid monday monday

abbrev uncached : ℤ → Result Error WeekScheduleResponse
uncached gid = cloned (plain_range memory version_text build today gid monday monday tables_one)

-- the cache is sound, and the tables stay as they are
abbrev Sound : Kept → Type 0
Sound (s, c) = IsSound memory version_text build s c × (s ≡ tables_one)

same_tables : (gid : ℤ) (c : WeekCache) → (range_of gid (tables_one, c)).1.0 ≡ tables_one
unfolding get_range versioned_range get_system_state state_or_init query and_then
same_tables gid c = elim (Bool-cases (is_positive gid)) [
  | inl good ↦ rw good refl
  | inr bad ↦ rw bad refl
]

range_of-Sound :
    (gid : ℤ) (c : Kept)
    → Sound c
    → (cloned (range_of gid c).0 ≡ uncached gid) × Sound (range_of gid c).1
range_of-Sound gid (s, c) (sound, same) =
    let (reply, next) =
      get_range-cloned memory version_text build memory-IsDatabase today gid monday monday s c
        sound in
    (
      subst
          (λ u.
            cloned (range_of gid (s, c)).0
            ≡ cloned (plain_range memory version_text build today gid monday monday u))
          same reply,
      (next, subst (λ u. (range_of gid (u, c)).1.0 ≡ tables_one) (sym same) (same_tables gid c)),
    )

abbrev asked : ScheduleViewResponse
asked = empty_response "teacher" 7 7 "v1"

abbrev answer : ScheduleViewResponse
answer = record asked {
  days =
      record {
        date = 7;
        day_of_week = 0;
        week_parity = both;
        lessons =
            view_lesson (group_named (pos 2) "ИС-11") (lesson_by (pos 2) "Иванов")
            ∷ view_lesson (group_named (pos 1) "ИС-21") (lesson_by (pos 2) "Иванов")
            ∷ [];
      }
      ∷ [];
}

empty_Sound : Sound (tables_one, new_week_cache (pos 4))
unfolding new_week_cache get lookup
empty_Sound = (
  record {
    valid = new_week_cache-IsValid (pos 4);
    coherent = λ now version t h k w found same. cc;
  },
  refl,
)

answered :
    (get_aggregated_schedule_view range_of reads none asked 7 7
      (taught_by "иванов")
      (tables_one, new_week_cache (pos 4))).0
    ≡ ok answer
unfolding get_aggregated_schedule_view collect empty_schedule_view_days add_days add_lessons
    view_days_from_week sort_schedule_view_lessons stable_sort insert_sorted string_ltb subgroup_key
    get_range versioned_range get_system_state state_or_init query and_then
    clone_week_schedule_response clone_day_schedule fresh_range cached_range keep_range
    is_canonical_week monday_of_week day_of_week_for_date week_parity_for_date lookup equal_fold
    trim_space
answered = refl

get_aggregated_schedule_view-IsViewDay_example :
    (groups : List Group) × (reads.list_groups ≡ ok groups)
    × ((weeks : List (Group × WeekScheduleResponse)) × AreWeeks uncached groups weeks
        × All (IsViewDay (taught_by "иванов") weeks) answer.days)
    × (map ScheduleViewDay.date answer.days ≡ dates_from 1 7)
get_aggregated_schedule_view-IsViewDay_example =
    get_aggregated_schedule_view-IsViewDay (taught_by "иванов") range_of Sound uncached
      range_of-Sound reads none asked answer 7 7 (tables_one, new_week_cache (pos 4)) empty_Sound
      answered
