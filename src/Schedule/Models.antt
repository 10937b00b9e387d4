-- ===== src/Schedule/Models.antt =====
-- internal/schedule/models.go, types.go and the value types of service.go: the rows that the
-- services read and write. The columns created_at and updated_at, which the database fills, are
-- left out. An `int`, `int16` or `int64` is an integer, a nullable column an `Option`.
use ispo_shedule_backend.Prelude.{ℕ, ℤ, String, Bool, true, false, Option, List, string_eq, nat_eq}

-- A `time.Time` by its own wall clock: the day, counted from the zero time's 0001-01-01, and the
-- nanoseconds since midnight. 0001-01-01 is a Monday.
pub record Time : Type 0 where
  pub day : ℕ
  pub nanos : ℕ

pub data EntityStatus : Type 0 where
  draft published cancelled : EntityStatus
  other_status : String → EntityStatus

pub data OverrideAction : Type 0 where
  add replace cancel restore : OverrideAction

pub data WeekParity : Type 0 where
  numerator denominator both : WeekParity

pub record Group : Type 0 where
  pub id : ℤ
  pub name : String
  pub course : ℤ
  pub schedule_source_group_id : Option ℤ
  pub curriculum_id : Option ℤ
  pub admission_year : Option ℤ
  pub specialty_id : Option ℤ

pub record ScheduleLesson : Type 0 where
  pub id : ℤ
  pub group_id : ℤ
  pub lesson_date : Time
  pub pair_number : ℤ
  pub subgroup : Option ℤ
  pub subject_id : Option ℤ
  pub teacher_id : Option ℤ
  pub lesson_format : String
  pub status : EntityStatus
  pub source : String
  pub flow_key : Option String
  pub comment : Option String
  pub version : ℤ

pub record ScheduleOverride : Type 0 where
  pub id : ℤ
  pub schedule_lesson_id : Option ℤ
  pub lesson_date : Time
  pub group_id : ℤ
  pub pair_number : ℤ
  pub action_type : OverrideAction
  pub source_subject_id : Option ℤ
  pub source_teacher_id : Option ℤ
  pub source_location_id : Option ℤ
  pub source_lesson_format : Option String
  pub subgroup : Option ℤ
  pub replacement_subject_id : Option ℤ
  pub replacement_teacher_id : Option ℤ
  pub replacement_location_id : Option ℤ
  pub replacement_lesson_format : Option String
  pub reason : Option String
  pub status : String
  pub expected_lesson_version : Option ℤ
  pub applied_lesson_version : Option ℤ
  pub created_by : Option ℤ
  pub applied_at : Option Time

pub record CalendarDayConstraint : Type 0 where
  pub id : ℤ
  pub target_date : Time
  pub title : String
  pub reason : Option String
  pub constraint_type : String
  pub affects_lessons : Bool
  pub requires_confirmation : Bool
  pub style_preset : String

pub record TeacherDayConstraint : Type 0 where
  pub id : ℤ
  pub teacher_id : ℤ
  pub target_date : Time
  pub reason : String
  pub constraint_level : String
  pub requires_confirmation : Bool

pub record RoomAssignment : Type 0 where
  pub id : ℤ
  pub schedule_lesson_id : ℤ
  pub location_id : ℤ
  pub source : String
  pub status : EntityStatus

-- Lesson and its neighbours in service.go: what a schedule shows of a day.
pub record Lesson : Type 0 where
  pub pair_number : ℤ
  pub subject_id : Option ℤ
  pub subject_name : String
  pub location_id : Option ℤ
  pub location_name : String
  pub lesson_format : String
  pub teacher_name : String
  pub subgroup : Option ℤ
  pub flow_key : Option String
  pub is_changed : Bool
  pub is_added : Bool
  pub comment : Option String

pub record StudyDayState : Type 0 where
  pub activity_code : String
  pub activity_name : Option String
  pub is_teaching : Bool
  pub source : String

pub record CalendarDayConstraintView : Type 0 where
  pub id : ℤ
  pub title : String
  pub reason : Option String
  pub constraint_type : String
  pub style_preset : String

pub record DayEvent : Type 0 where
  pub id : ℤ
  pub event_type : String
  pub title : String
  pub details : Option String
  pub location_id : Option ℤ
  pub location_name : Option String

-- `date` is the day that the field's YYYY-MM-DD text names. A slice is its items and whether it is
-- nil, which JSON shows as null in place of [].
pub record DaySchedule : Type 0 where
  pub date : ℕ
  pub day_of_week : ℕ
  pub week_parity : WeekParity
  pub overlay_text : Option String
  pub study_day_state : Option StudyDayState
  pub global_day_constraint : Option CalendarDayConstraintView
  pub events : List DayEvent
  pub events_nil : Bool
  pub lessons : List Lesson
  pub lessons_nil : Bool

pub record WeekScheduleResponse : Type 0 where
  pub group_id : ℤ
  pub date_start : ℕ
  pub date_end : ℕ
  pub data_version : String
  pub days : List DaySchedule

-- `!=` on the statuses, whose constructors stand for pairwise different texts
abbrev pub is_cancelled : EntityStatus → Bool
is_cancelled cancelled = true
is_cancelled draft = false
is_cancelled published = false
is_cancelled (other_status s) = false

abbrev pub is_published : EntityStatus → Bool
is_published published = true
is_published draft = false
is_published cancelled = false
is_published (other_status s) = false
