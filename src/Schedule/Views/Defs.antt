-- ===== src/Schedule/Views/Defs.antt =====
-- internal/schedule/service_filter.go: a schedule by group, teacher or location, over GetRange
-- (WeekCache/Range). Each call of GetRange may change the week cache, also when the view then fails.
-- Dates are day numbers; no write to the schedule is taken to run meanwhile.
use ispo_shedule_backend.Prelude.{
  ℕ, zero, suc, ℤ, String, Bool, false, not, Option, none, some, List, [], ◌∷◌, ◌++◌, map, ◌==◌,
  string_eq, nat_eq, int_eq, if◌then◌else◌, ltb_ℤ, is_positive, filter, contains,
}
use ispo_shedule_backend.Prelude.Text.{trim_space, to_lower, equal_fold}
use ispo_shedule_backend.Prelude.TextOrder.{string_ltb}
use ispo_shedule_backend.Prelude.Results.{Result, ok, err, ◌>>=◌}
use ispo_shedule_backend.Prelude.Sorting.{stable_sort}
use ispo_shedule_backend.Schedule.Models.{
  Group, WeekParity, Lesson, DaySchedule, WeekScheduleResponse,
}
use ispo_shedule_backend.Schedule.Errors.{Error, message}
use ispo_shedule_backend.Schedule.Dictionaries.{Location}
use ispo_shedule_backend.Schedule.Build.Defs.{subgroup_key}
use ispo_shedule_backend.Schedule.Build.Parity.{day_of_week_for_date, week_parity_for_date}

pub record ScheduleViewFilter : Type 0 where
  pub scope : String
  pub group_id : Option ℤ
  pub teacher_id : Option ℤ
  pub teacher_name : Option String
  pub location_id : Option ℤ

pub record ScheduleViewLesson : Type 0 where
  pub group_id : ℤ
  pub group_name : String
  pub pair_number : ℤ
  pub subject_id : Option ℤ
  pub subject_name : String
  pub location_id : Option ℤ
  pub location_name : String
  pub lesson_format : String
  pub teacher_name : String
  pub subgroup : Option ℤ
  pub is_changed : Bool
  pub is_added : Bool
  pub comment : Option String

pub record ScheduleViewDay : Type 0 where
  pub date : ℕ
  pub day_of_week : ℕ
  pub week_parity : WeekParity
  pub lessons : List ScheduleViewLesson

pub record ScheduleViewResponse : Type 0 where
  pub scope : String
  pub date_start : ℕ
  pub date_end : ℕ
  pub data_version : String
  pub group_id : Option ℤ
  pub group_name : Option String
  pub teacher_id : Option ℤ
  pub teacher_name : Option String
  pub location_id : Option ℤ
  pub location_name : Option String
  pub days : List ScheduleViewDay

pub record Teacher : Type 0 where
  pub id : ℤ
  pub name : String

-- normalizeScheduleViewScope
unfoldable pub normalize_schedule_view_scope : String → String
normalize_schedule_view_scope scope =
    let lower = to_lower (trim_space scope) in
    if contains lower ("" ∷ "group" ∷ "groups" ∷ "student" ∷ "students" ∷ [])
    then "group"
    else if contains lower ("teacher" ∷ "teachers" ∷ [])
    then "teacher"
    else if contains lower
        ("location" ∷ "locations" ∷ "room" ∷ "rooms" ∷ "auditorium" ∷ "auditoriums" ∷ [])
    then "location"
    else ""

-- the `less` of sortScheduleViewLessons
abbrev pub view_before : ScheduleViewLesson → ScheduleViewLesson → Bool
view_before a b =
    if not (a.pair_number == b.pair_number)
    then ltb_ℤ a.pair_number b.pair_number
    else if not (a.group_name == b.group_name)
    then string_ltb a.group_name b.group_name
    else ltb_ℤ (subgroup_key a.subgroup) (subgroup_key b.subgroup)

-- sortScheduleViewLessons
unfoldable pub sort_schedule_view_lessons : List ScheduleViewLesson → List ScheduleViewLesson
unfolding stable_sort
sort_schedule_view_lessons lessons = stable_sort view_before lessons

abbrev pub view_lesson : Group → Lesson → ScheduleViewLesson
view_lesson group lesson = record {
  group_id = group.id;
  group_name = group.name;
  pair_number = lesson.pair_number;
  subject_id = lesson.subject_id;
  subject_name = lesson.subject_name;
  location_id = lesson.location_id;
  location_name = lesson.location_name;
  lesson_format = lesson.lesson_format;
  teacher_name = lesson.teacher_name;
  subgroup = lesson.subgroup;
  is_changed = lesson.is_changed;
  is_added = lesson.is_added;
  comment = lesson.comment;
}

module _ (matches : Lesson → Bool) where
  -- viewDaysFromWeek, for one day and for all
  abbrev pub view_day : Group → DaySchedule → ScheduleViewDay
  view_day group day = record {
    date = day.date;
    day_of_week = day.day_of_week;
    week_parity = day.week_parity;
    lessons = sort_schedule_view_lessons (map (view_lesson group) (filter matches day.lessons));
  }

  unfoldable pub view_days_from_week : WeekScheduleResponse → Group → List ScheduleViewDay
  view_days_from_week week group = map (view_day group) week.days

-- emptyScheduleViewDays: `n` days from `day` on
unfoldable pub empty_schedule_view_days : Option ℕ → ℕ → ℕ → List ScheduleViewDay
empty_schedule_view_days semester_start zero day = []
empty_schedule_view_days semester_start (suc n) day =
    record {
      date = day;
      day_of_week = day_of_week_for_date day [];
      week_parity = week_parity_for_date semester_start day;
      lessons = [];
    }
    ∷ empty_schedule_view_days semester_start n (suc day)

-- `days[targetIdx].Lessons = append(…)`: byDate leads from a date to its only day
unfoldable pub add_lessons : List ScheduleViewDay → ScheduleViewDay → List ScheduleViewDay
add_lessons [] day = []
add_lessons (d ∷ days) day =
    (if d.date == day.date then record d { lessons = d.lessons ++ day.lessons } else d)
    ∷ add_lessons days day

unfoldable pub add_days : List ScheduleViewDay → List ScheduleViewDay → List ScheduleViewDay
add_days days [] = days
add_days days (day ∷ shown) = add_days (add_lessons days day) shown

abbrev pub sort_day : ScheduleViewDay → ScheduleViewDay
sort_day d = record d { lessons = sort_schedule_view_lessons d.lessons }

-- the repository's reads; `data_version` is what GetSystemState answers, whose insert of a missing row is
-- left to SystemState
pub record ViewReads : Type 0 where
  pub data_version : Result Error String
  pub get_group : ℤ → Result Error Group
  pub get_teacher : ℤ → Result Error Teacher
  pub get_location : ℤ → Result Error Location
  pub list_groups : Result Error (List Group)

-- `if filter.ID == nil || *filter.ID <= 0 { return e }`
abbrev pub required_id : Option ℤ → String → Result Error ℤ
required_id none text = err (message text)
required_id (some id) text = if is_positive id then ok id else err (message text)

abbrev pub required_name : Option String → Result Error String
required_name none = err (message "teacher_id or teacher_name required")
required_name (some name) =
    if trim_space name == ""
    then err (message "teacher_id or teacher_name required")
    else ok (trim_space name)

abbrev pub known_id : Option ℤ → Option ℤ
known_id none = none
known_id (some id) = if is_positive id then some id else none

-- resolveScheduleViewTeacher
unfoldable pub resolve_schedule_view_teacher :
    ViewReads → ScheduleViewFilter → Result Error (String × Option ℤ)
resolve_schedule_view_teacher reads f = elim (known_id f.teacher_id) [
  | some id ↦ reads.get_teacher id >>= λ teacher. ok (trim_space teacher.name, some teacher.id)
  | none ↦ required_name f.teacher_name >>= λ name. ok (name, none)
]

-- the two tests by which lessons are chosen
abbrev pub taught_by : String → Lesson → Bool
taught_by name lesson = equal_fold (trim_space lesson.teacher_name) name

abbrev pub held_in : ℤ → Lesson → Bool
held_in id lesson = elim lesson.location_id [ none ↦ false | some l ↦ l == id ]
