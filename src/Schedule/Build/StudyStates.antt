-- ===== src/Schedule/Build/StudyStates.antt =====
-- internal/schedule/repository_curricula.go: defaultStudyDayState and
-- ListStudyDayStatesForGroupBetween, and the state that buildDays (service_build.go) picks for a day.
-- A map keyed by YYYY-MM-DD texts is keyed by the days that they name. Each query is an argument.
use ispo_shedule_backend.Prelude.{
  ℕ, ℤ, String, Bool, true, ◌||◌, Option, none, some, List, [], ◌∷◌, map, ◌==◌, string_eq, nat_eq,
  int_eq, if◌then◌else◌, ltb, lookup, insert, insert_all, has_key,
}
use ispo_shedule_backend.Prelude.Text.{trim_space, to_upper}
use ispo_shedule_backend.Prelude.Results.{Result, ok, err, ◌>>=◌}
use ispo_shedule_backend.Schedule.Models.{Time, Group, StudyDayState}
use ispo_shedule_backend.Schedule.Errors.{Error, record_not_found}
use ispo_shedule_backend.Schedule.WeekCache.Range.{monday_of_week}

pub record AcademicCalendarWeek : Type 0 where
  pub week_number : ℤ
  pub week_start_date : Time
  pub activity_code : String
  pub activity_name : Option String
  pub is_teaching : Bool

pub record AcademicDayOverrideStateRow : Type 0 where
  pub target_date : Time
  pub activity_code : String
  pub activity_name : Option String
  pub is_teaching : Bool

pub record StudyWeekStateRow : Type 0 where
  pub week_number : ℤ
  pub week_start_date : Option Time
  pub activity_code : Option String
  pub activity_name : Option String
  pub allows_lessons : Bool

abbrev pub default_study_day_state : StudyDayState
default_study_day_state = record {
  activity_code = "TEACHING";
  activity_name = some "Учебные занятия";
  is_teaching = true;
  source = "default";
}

abbrev pub week_entry : AcademicCalendarWeek → ℕ × StudyDayState
week_entry w = (
  w.week_start_date.day,
  record {
    activity_code = w.activity_code;
    activity_name = w.activity_name;
    is_teaching = w.is_teaching;
    source = "academic_week";
  },
)

abbrev pub override_entry : AcademicDayOverrideStateRow → ℕ × StudyDayState
override_entry row = (
  row.target_date.day,
  record {
    activity_code = row.activity_code;
    activity_name = row.activity_name;
    is_teaching = row.is_teaching;
    source = "academic_day_override";
  },
)

-- academicWeekStartByNumber: the first row of a number stays
unfoldable pub week_starts : List AcademicCalendarWeek → List (ℤ × ℕ) → List (ℤ × ℕ)
week_starts [] m = m
week_starts (w ∷ weeks) m =
    week_starts weeks
      (if has_key w.week_number m then m else insert w.week_number w.week_start_date.day m)

unfoldable pub study_week_start : List (ℤ × ℕ) → StudyWeekStateRow → Option ℕ
study_week_start starts row = elim row.week_start_date [
  | some date ↦ some (monday_of_week date.day)
  | none ↦ lookup row.week_number starts
]

abbrev pub study_code : Option String → String
study_code none = "TEACHING"
study_code (some code) = if trim_space code == "" then "TEACHING" else to_upper (trim_space code)

abbrev pub study_state : StudyWeekStateRow → StudyDayState
study_state row = record {
  activity_code = study_code row.activity_code;
  activity_name = row.activity_name;
  is_teaching = row.allows_lessons;
  source = "study_week";
}

-- the last loop: its entries, without the rows that it skips
unfoldable pub study_entries :
    List (ℤ × ℕ) → ℕ → ℕ → List StudyWeekStateRow → List (ℕ × StudyDayState)
study_entries starts start_week end_week [] = []
study_entries starts start_week end_week (row ∷ rows) =
    let rest = study_entries starts start_week end_week rows in
    elim (study_week_start starts row) [
      | none ↦ rest
      | some week_start ↦
          if ltb week_start start_week || ltb end_week week_start
          then rest
          else (week_start, study_state row) ∷ rest
    ]

-- the rows of a calendar: its weeks, then its day overrides
abbrev pub calendar_states :
    List AcademicCalendarWeek → List AcademicDayOverrideStateRow → List (ℕ × StudyDayState)
calendar_states weeks day_rows =
    insert_all (map override_entry day_rows) (insert_all (map week_entry weeks) [])

-- the map that is returned, once the rows are read
unfoldable pub collected_states :
    ℕ
    → ℕ
    → List AcademicCalendarWeek
    → List AcademicDayOverrideStateRow
    → List StudyWeekStateRow
    → List (ℕ × StudyDayState)
unfolding insert_all
collected_states start_week end_week weeks day_rows study_rows =
    insert_all (study_entries (week_starts weeks []) start_week end_week study_rows)
      (calendar_states weeks day_rows)

-- the queries of ListStudyDayStatesForGroupBetween, in their order
pub record StateQueries : Type 0 where
  pub group_row : ℤ → Result Error Group
  pub calendar_of_year : ℤ → ℤ → Result Error ℤ
  pub calendar_until : ℤ → ℕ → Result Error ℤ
  pub calendar_weeks : ℤ → ℕ → ℕ → Result Error (List AcademicCalendarWeek)
  pub calendar_days : ℤ → ℕ → ℕ → Result Error (List AcademicDayOverrideStateRow)
  pub study_weeks : ℤ → ℕ → ℕ → Result Error (List StudyWeekStateRow)

-- `err == gorm.ErrRecordNotFound` as no calendar; other errors stay
abbrev pub if_found : Result Error ℤ → Result Error (Option ℤ)
if_found (ok id) = ok (some id)
if_found (err record_not_found) = ok none
if_found (err e) = err e

module _ (q : StateQueries) where
  unfoldable pub find_calendar : Group → ℕ → Result Error (Option ℤ)
  find_calendar group end_day = elim group.curriculum_id [
    | none ↦ ok none
    | some curriculum_id ↦ elim group.admission_year [
      | none ↦ if_found (q.calendar_until curriculum_id end_day)
      | some year ↦ if_found (q.calendar_of_year curriculum_id year) >>= λ found. elim found [
        | some id ↦ ok (some id)
        | none ↦ if_found (q.calendar_until curriculum_id end_day)
      ]
    ]
  ]

  abbrev pub calendar_rows :
      Option ℤ → ℕ → ℕ → Result Error (List AcademicCalendarWeek × List AcademicDayOverrideStateRow)
  calendar_rows none start_day end_day = ok ([], [])
  calendar_rows (some id) start_day end_day = do
    weeks ← q.calendar_weeks id (monday_of_week start_day) (monday_of_week end_day)
    day_rows ← q.calendar_days id start_day end_day
    ok (weeks, day_rows)

  -- ListStudyDayStatesForGroupBetween
  unfoldable pub list_study_day_states : ℤ → ℕ → ℕ → Result Error (List (ℕ × StudyDayState))
  unfolding find_calendar collected_states
  list_study_day_states group_id start_day end_day = do
    group ← q.group_row group_id
    calendar ← find_calendar group end_day
    rows ← calendar_rows calendar start_day end_day
    study_rows ← q.study_weeks group_id (monday_of_week start_day) (monday_of_week end_day)
    ok (
        collected_states (monday_of_week start_day) (monday_of_week end_day) rows.0 rows.1
          study_rows)

-- `if state, ok := …; ok`
abbrev pub state_or : StudyDayState → Option StudyDayState → StudyDayState
state_or state none = state
state_or state (some found) = found

abbrev pub own_state : StudyDayState → Option StudyDayState → StudyDayState
own_state state none = state
own_state state (some found) = if found.source == "academic_day_override" then found else state

-- buildDays: the state of the week, unless the day has one of its own
unfoldable pub study_state_on : ℕ → List (ℕ × StudyDayState) → StudyDayState
study_state_on day states =
    own_state (state_or default_study_day_state (lookup (monday_of_week day) states))
      (lookup day states)
