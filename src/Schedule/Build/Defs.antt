-- ===== src/Schedule/Build/Defs.antt =====
-- internal/schedule/service_build.go: buildDays with subgroupKey, slotKey and
-- lessonFromScheduleLessonView, and the rows that it reads (views.go, repository_events.go, models.go).
-- A map keyed by YYYY-MM-DD texts is keyed by the days that they name. The order in which `range`
-- goes through a map is an argument.
use ispo_shedule_backend.Prelude.{
  ℕ, zero, suc, ◌-◌, ℤ, pos, negsuc, String, Bool, true, false, not, ◌&&◌, ◌≡◌, ◌↔◌, Option, none,
  some, List, [], ◌∷◌, ◌++◌, map, HasEq, ◌==◌, string_eq, nat_eq, int_eq, int_beq_iff,
  if◌then◌else◌, ltb_ℤ, lookup, insert, insert_all, arith, filter,
}
use ispo_shedule_backend.Prelude.Results.{Result, ok, ◌>>=◌}
use ispo_shedule_backend.Prelude.Sorting.{stable_sort}
use ispo_shedule_backend.Schedule.Models.{
  Time, Group, EntityStatus, Lesson, StudyDayState, CalendarDayConstraint,
  CalendarDayConstraintView, DayEvent, DaySchedule,
}
use ispo_shedule_backend.Schedule.Errors.{Error}
use ispo_shedule_backend.Schedule.Lessons.Normalize.{normalize_lesson_format}
use ispo_shedule_backend.Schedule.Inheritance.{schedule_inheritance_chain_ids}
use ispo_shedule_backend.Schedule.Build.StudyStates.{study_state_on}
use ispo_shedule_backend.Schedule.Build.Parity.{day_of_week_for_date, week_parity_for_date}

pub record ScheduleLessonView : Type 0 where
  pub id : ℤ
  pub group_id : ℤ
  pub lesson_date : Time
  pub pair_number : ℤ
  pub subgroup : Option ℤ
  pub subject_id : Option ℤ
  pub subject_name : String
  pub teacher_id : Option ℤ
  pub teacher_name : String
  pub location_id : Option ℤ
  pub location_name : String
  pub lesson_format : String
  pub status : EntityStatus
  pub source : String
  pub flow_key : Option String
  pub comment : Option String
  pub version : ℤ
  pub room_assignment_id : Option ℤ

pub record ScheduleDayOverlay : Type 0 where
  pub id : ℤ
  pub target_date : Time
  pub group_id : ℤ
  pub text : String
  pub style_preset : String

pub record DayEventViewRow : Type 0 where
  pub id : ℤ
  pub target_date : Time
  pub event_type : String
  pub title : String
  pub details : Option String
  pub location_id : Option ℤ
  pub location_name : String

pub record SlotKey : Type 0 where
  pub pair_number : ℤ
  pub subgroup : ℤ

abbrev pub slot_beq : SlotKey → SlotKey → Bool
slot_beq a b = a.pair_number == b.pair_number && a.subgroup == b.subgroup

pub slot_beq_iff : (a b : SlotKey) → (slot_beq a b ≡ true) ↔ (a ≡ b)
slot_beq_iff a b =
    ground (arith, int_beq_iff a.pair_number b.pair_number, int_beq_iff a.subgroup b.subgroup)

instance abbrev pub slot_eq : HasEq SlotKey
slot_eq = record { equal = slot_beq; equal_iff = slot_beq_iff }

-- subgroupKey
unfoldable pub subgroup_key : Option ℤ → ℤ
subgroup_key none = pos 0
subgroup_key (some s) = s

abbrev pub slot_of : ScheduleLessonView → SlotKey
slot_of r = record { pair_number = r.pair_number; subgroup = subgroup_key r.subgroup }

-- lessonFromScheduleLessonView
unfoldable pub lesson_from_schedule_lesson_view : ScheduleLessonView → Lesson
lesson_from_schedule_lesson_view row = record {
  pair_number = row.pair_number;
  subject_id = row.subject_id;
  subject_name = row.subject_name;
  location_id = row.location_id;
  location_name = row.location_name;
  lesson_format = normalize_lesson_format row.lesson_format;
  teacher_name = row.teacher_name;
  subgroup = row.subgroup;
  flow_key = row.flow_key;
  is_changed = row.source == "replacement";
  is_added = false;
  comment = row.comment;
}

abbrev pub Slots : Type 0
Slots = List (SlotKey × ScheduleLessonView)

-- a missing map reads as an empty one
abbrev pub or_empty : Option Slots → Slots
or_empty none = []
or_empty (some slots) = slots

unfoldable pub slots_on : ℕ → List (ℕ × Slots) → Slots
slots_on day by_day = or_empty (lookup day by_day)

-- the body of the loop that fills lessonsByDay
unfoldable pub put_row : List (ℕ × Slots) → ScheduleLessonView → List (ℕ × Slots)
unfolding slots_on
put_row by_day r =
    insert r.lesson_date.day (insert (slot_of r) r (slots_on r.lesson_date.day by_day)) by_day

unfoldable pub put_rows : List (ℕ × Slots) → List ScheduleLessonView → List (ℕ × Slots)
put_rows by_day [] = by_day
put_rows by_day (r ∷ rows) = put_rows (put_row by_day r) rows

-- the `less` of the sort; without a subgroup comes first
abbrev pub order_key : Option ℤ → ℤ
order_key none = negsuc 0
order_key (some s) = s

abbrev pub lesson_before : Lesson → Lesson → Bool
lesson_before a b =
    if not (a.pair_number == b.pair_number)
    then ltb_ℤ a.pair_number b.pair_number
    else ltb_ℤ (order_key a.subgroup) (order_key b.subgroup)

abbrev pub lesson_of : SlotKey × ScheduleLessonView → Lesson
lesson_of (k, row) = lesson_from_schedule_lesson_view row

-- the lessons of a day, from the entries of its map in some order
unfoldable pub day_lessons : Slots → List Lesson
unfolding stable_sort
day_lessons slots = stable_sort lesson_before (map lesson_of slots)

abbrev pub constraint_entry : CalendarDayConstraint → ℕ × CalendarDayConstraintView
constraint_entry c = (
  c.target_date.day,
  record {
    id = c.id;
    title = c.title;
    reason = c.reason;
    constraint_type = c.constraint_type;
    style_preset = c.style_preset;
  },
)

abbrev pub overlay_entry : ScheduleDayOverlay → ℕ × String
overlay_entry o = (o.target_date.day, o.text)

abbrev pub event_of : DayEventViewRow → DayEvent
event_of e = record {
  id = e.id;
  event_type = e.event_type;
  title = e.title;
  details = e.details;
  location_id = e.location_id;
  location_name = if e.location_name == "" then none else some e.location_name;
}

-- eventsByDay, read at a day
abbrev pub events_on : ℕ → List DayEventViewRow → List DayEvent
events_on day rows = map event_of (filter (λ e. e.target_date.day == day) rows)

-- the repository's queries, over day numbers
pub record ScheduleReads : Type 0 where
  pub get_group : ℤ → Result Error Group
  pub list_overlays_between : ℤ → ℕ → ℕ → Result Error (List ScheduleDayOverlay)
  pub list_calendar_day_constraints_between : ℕ → ℕ → Result Error (List CalendarDayConstraint)
  pub list_day_events_between : ℤ → ℕ → ℕ → Result Error (List DayEventViewRow)
  pub list_study_day_states : ℤ → ℕ → ℕ → Result Error (List (ℕ × StudyDayState))
  pub list_schedule_lesson_views_between : ℤ → ℕ → ℕ → Result Error (List ScheduleLessonView)

-- `for _, gid := range chainIDs { rows, err := …; out = append(out, rows...) }`
unfoldable pub rows_of_chain :
    {A : Type 0} → (ℤ → Result Error (List A)) → List ℤ → Result Error (List A)
rows_of_chain read [] = ok []
rows_of_chain read (gid ∷ chain_ids) = do
  rows ← read gid
  rest ← rows_of_chain read chain_ids
  ok (rows ++ rest)

-- what the loop over the days reads
pub record DayInputs : Type 0 where
  pub overlay_text : List (ℕ × String)
  pub global_constraints_by_day : List (ℕ × CalendarDayConstraintView)
  pub events : List DayEventViewRow
  pub study_states : List (ℕ × StudyDayState)
  pub lessons_by_day : List (ℕ × Slots)

module _ (reads : ScheduleReads) where
  -- the queries, in their order
  unfoldable pub day_inputs : ℤ → ℕ → ℕ → Result Error DayInputs
  unfolding insert_all
  day_inputs group_id start_day end_day = do
    group ← reads.get_group group_id
    chain_ids ← schedule_inheritance_chain_ids reads.get_group group_id
    overlays ← reads.list_overlays_between group_id start_day end_day
    constraints ← reads.list_calendar_day_constraints_between start_day end_day
    events ← rows_of_chain (λ gid. reads.list_day_events_between gid start_day end_day) chain_ids
    states ← reads.list_study_day_states group_id start_day end_day
    rows ←
        rows_of_chain (λ gid. reads.list_schedule_lesson_views_between gid start_day end_day)
          chain_ids
    ok (record {
      overlay_text = insert_all (map overlay_entry overlays) [];
      global_constraints_by_day = insert_all (map constraint_entry constraints) [];
      events = events;
      study_states = states;
      lessons_by_day = put_rows [] rows;
    })

module _ (range : Slots → Slots) (semester_start : Option ℕ) where
  -- the body of the loop over the days
  unfoldable pub build_day : DayInputs → ℕ → DaySchedule
  unfolding slots_on
  build_day inputs day = record {
    date = day;
    day_of_week = day_of_week_for_date day [];
    week_parity = week_parity_for_date semester_start day;
    overlay_text = lookup day inputs.overlay_text;
    study_day_state = some (study_state_on day inputs.study_states);
    global_day_constraint = lookup day inputs.global_constraints_by_day;
    events = events_on day inputs.events;
    events_nil = false;
    lessons = day_lessons (range (slots_on day inputs.lessons_by_day));
    lessons_nil = false;
  }

  -- `n` days from `day` on
  unfoldable pub each_day : ℕ → ℕ → DayInputs → List DaySchedule
  unfolding build_day
  each_day zero day inputs = []
  each_day (suc n) day inputs = build_day inputs day ∷ each_day n (suc day) inputs

  -- buildDays
  unfoldable pub build_days : ScheduleReads → ℤ → ℕ → ℕ → Result Error (List DaySchedule)
  unfolding day_inputs each_day
  build_days reads group_id start_day end_day = do
    inputs ← day_inputs reads group_id start_day end_day
    ok (each_day (suc end_day - start_day) start_day inputs)
