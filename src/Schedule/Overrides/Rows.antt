-- ===== src/Schedule/Overrides/Rows.antt =====
-- internal/schedule/service_overrides.go: the request of ApplyScheduleOverride, the conditions of its
-- queries, and the rows that it fills in.
use ispo_shedule_backend.Prelude.{
  ℤ, pos, String, Bool, true, false, not, ◌&&◌, Option, none, some, ◌==◌, string_eq, nat_eq, int_eq,
  int_succ,
}
use ispo_shedule_backend.Schedule.Models.{
  Time, cancelled, published, is_cancelled, OverrideAction, add, ScheduleLesson, ScheduleOverride,
  RoomAssignment,
}
use ispo_shedule_backend.Schedule.Lessons.Normalize.{date_only, normalize_lesson_format}

pub record ApplyScheduleOverrideRequest : Type 0 where
  pub schedule_lesson_id : Option ℤ
  pub group_id : ℤ
  pub lesson_date : Time
  pub pair_number : ℤ
  pub subgroup : Option ℤ
  pub action_type : String
  pub replacement_subject_id : Option ℤ
  pub replacement_teacher_id : Option ℤ
  pub replacement_location_id : Option ℤ
  pub replacement_lesson_format : Option String
  pub reason : Option String
  pub expected_lesson_version : Option ℤ
  pub confirm_constraints : Bool
  pub confirm_global_day_constraint : Bool
  pub created_by : Option ℤ

-- `subgroup IS NULL`, or `subgroup = ?`
abbrev pub same_subgroup : Option ℤ → Option ℤ → Bool
same_subgroup none none = true
same_subgroup none (some b) = false
same_subgroup (some a) none = false
same_subgroup (some a) (some b) = b == a

-- the live lesson of a group's slot
abbrev pub in_slot : ApplyScheduleOverrideRequest → ScheduleLesson → Bool
in_slot req sl =
    sl.group_id == req.group_id
    && (sl.lesson_date.day == req.lesson_date.day
        && (sl.pair_number == req.pair_number
            && (not (is_cancelled sl.status) && same_subgroup req.subgroup sl.subgroup)))

-- the WHERE clause of lockScheduleLessonForOverride
abbrev pub is_target : ApplyScheduleOverrideRequest → Option ℤ → ScheduleLesson → Bool
is_target req (some id) sl = sl.id == id
is_target req none sl = in_slot req sl

-- `if new != nil { return new }; return old`
abbrev pub or_else {ℓ} : {A : Type ℓ} → Option A → Option A → Option A
or_else none old = old
or_else (some new) old = some new

-- `expected != nil && version != *expected`
unfoldable pub version_conflict : Option ℤ → ℤ → Bool
version_conflict none version = false
version_conflict (some expected) version = not (version == expected)

abbrev pub location_of : Option RoomAssignment → Option ℤ
location_of none = none
location_of (some room) = some room.location_id

-- the row that applyExistingLessonOverride fills in before it branches on the action
abbrev pub override_of :
    ApplyScheduleOverrideRequest → OverrideAction → ScheduleLesson → Option ℤ → ScheduleOverride
override_of req action lesson current_location = record {
  id = pos 0;
  schedule_lesson_id = some lesson.id;
  lesson_date = lesson.lesson_date;
  group_id = lesson.group_id;
  pair_number = lesson.pair_number;
  action_type = action;
  source_subject_id = lesson.subject_id;
  source_teacher_id = lesson.teacher_id;
  source_location_id = current_location;
  source_lesson_format = some lesson.lesson_format;
  subgroup = lesson.subgroup;
  replacement_subject_id = none;
  replacement_teacher_id = none;
  replacement_location_id = none;
  replacement_lesson_format = none;
  reason = req.reason;
  status = "applied";
  expected_lesson_version = req.expected_lesson_version;
  applied_lesson_version = none;
  created_by = req.created_by;
  applied_at = none;
}

abbrev pub cancelled_lesson : ScheduleLesson → ScheduleLesson
cancelled_lesson lesson = record lesson {
  status = cancelled;
  source = "replacement";
  version = int_succ lesson.version;
}

abbrev pub next_format : ApplyScheduleOverrideRequest → ScheduleLesson → String
next_format req lesson = elim req.replacement_lesson_format [
  | none ↦ lesson.lesson_format
  | some format ↦ normalize_lesson_format format
]

-- the lesson that a replacement or a restoration writes
abbrev pub replaced_lesson : ApplyScheduleOverrideRequest → ScheduleLesson → ScheduleLesson
replaced_lesson req lesson = record lesson {
  subject_id = or_else req.replacement_subject_id lesson.subject_id;
  teacher_id = or_else req.replacement_teacher_id lesson.teacher_id;
  lesson_format = next_format req lesson;
  status = published;
  source = "replacement";
  version = int_succ lesson.version;
}

-- the lesson that an addition creates, before normalizeScheduleLesson
abbrev pub added_lesson : ApplyScheduleOverrideRequest → String → ScheduleLesson
added_lesson req format = record {
  id = pos 0;
  group_id = req.group_id;
  lesson_date = req.lesson_date;
  pair_number = req.pair_number;
  subgroup = req.subgroup;
  subject_id = req.replacement_subject_id;
  teacher_id = req.replacement_teacher_id;
  lesson_format = format;
  status = published;
  source = "replacement";
  flow_key = none;
  comment = none;
  version = pos 1;
}

abbrev pub added_override :
    ApplyScheduleOverrideRequest → ScheduleLesson → String → Time → ScheduleOverride
added_override req lesson format now = record {
  id = pos 0;
  schedule_lesson_id = some lesson.id;
  lesson_date = req.lesson_date;
  group_id = req.group_id;
  pair_number = req.pair_number;
  action_type = add;
  source_subject_id = none;
  source_teacher_id = none;
  source_location_id = none;
  source_lesson_format = none;
  subgroup = req.subgroup;
  replacement_subject_id = req.replacement_subject_id;
  replacement_teacher_id = req.replacement_teacher_id;
  replacement_location_id = req.replacement_location_id;
  replacement_lesson_format = some format;
  reason = req.reason;
  status = "applied";
  expected_lesson_version = none;
  applied_lesson_version = some lesson.version;
  created_by = req.created_by;
  applied_at = some now;
}

abbrev pub added_format : Option String → String
added_format none = "offline"
added_format (some format) = normalize_lesson_format format

-- `req.LessonDate = dateOnly(req.LessonDate)`
abbrev pub dated : ApplyScheduleOverrideRequest → ApplyScheduleOverrideRequest
dated given = record given { lesson_date = date_only given.lesson_date }

abbrev pub is_none {ℓ} : {A : Type ℓ} → Option A → Bool
is_none none = true
is_none (some a) = false
