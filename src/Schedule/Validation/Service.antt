-- ===== src/Schedule/Validation/Service.antt =====
-- internal/schedule/service_validate.go: ValidateScheduleRange, and the two checks that load the days of
-- all groups. Maps are gone through in the order of their entries; the rules sort what they report.
use ispo_shedule_backend.Prelude.{
  ℕ, zero, suc, ◌-◌, ℤ, String, Bool, true, false, not, Option, none, some, List, [], ◌∷◌, ◌++◌,
  map, ◌==◌, string_eq, nat_eq, pair_eq, int_eq, if◌then◌else◌, ltb_ℤ, lookup, insert, insert_all,
  length, filter, contains,
}
use ispo_shedule_backend.Prelude.Format.{◌⊕◌}
use ispo_shedule_backend.Prelude.Results.{Result, ok, ◌>>=◌}
use ispo_shedule_backend.Prelude.Sorting.{stable_sort}
use ispo_shedule_backend.Schedule.Models.{Time, Group, Lesson, DaySchedule, StudyDayState}
use ispo_shedule_backend.Schedule.Errors.{Error}
use ispo_shedule_backend.Schedule.Semester.{infer_semester_for_date}
use ispo_shedule_backend.Schedule.Locations.{LocationMeta}
use ispo_shedule_backend.Schedule.Validation.Defs.{
  ScheduleValidationWarning, warning_from_lesson, add_to_set,
}
use ispo_shedule_backend.Schedule.Validation.Rules.{validate_schedule_business_rules}
use ispo_shedule_backend.Schedule.Validation.Occupancy.{validate_location_occupancy_rules}
use ispo_shedule_backend.Schedule.Validation.Facility.{
  has_physical_education_lessons, has_location_lessons, collect_location_ids_from_days,
  validate_physical_education_facility_rules,
}

pub record TeacherDayConstraintView : Type 0 where
  pub id : ℤ
  pub teacher_id : ℤ
  pub teacher_name : String
  pub target_date : Time
  pub reason : String
  pub constraint_level : String
  pub requires_confirmation : Bool

pub record ScheduleValidationResponse : Type 0 where
  pub group_id : ℤ
  pub start_date : ℕ
  pub end_date : ℕ
  pub warnings : List ScheduleValidationWarning
  pub warn_count : ℕ
  pub validated : Bool
  pub no_curriculum : Bool

-- buildDays and the repository's queries
pub record ValidationReads : Type 0 where
  pub get_group : ℤ → Result Error Group
  pub list_groups : Result Error (List Group)
  pub build_days : ℤ → ℕ → ℕ → Result Error (List DaySchedule)
  pub list_location_meta_by_ids : List ℤ → Result Error (List (ℤ × LocationMeta))
  pub list_allocated_subjects_by_semester : ℤ → List ℤ → Result Error (List (ℤ × List ℤ))
  pub list_blocking_teacher_constraints_between :
      ℕ → ℕ → Result Error (List TeacherDayConstraintView)

-- the warnings on days without teaching
abbrev pub non_teaching_text : StudyDayState → String
non_teaching_text state =
    "lesson is scheduled on non-teaching study calendar day (" ⊕ state.source ⊕ ": "
    ⊕ state.activity_code ⊕ ")"

unfoldable pub non_teaching_warnings : Group → List DaySchedule → List ScheduleValidationWarning
non_teaching_warnings group [] = []
non_teaching_warnings group (day ∷ days) =
    let rest = non_teaching_warnings group days in
    elim day.study_day_state [
      | none ↦ rest
      | some state ↦
          if state.is_teaching
          then rest
          else map
              (λ l.
                warning_from_lesson "study_calendar_non_teaching_day" day.date l group
                  (non_teaching_text state))
              day.lessons
            ++ rest
    ]

-- semSet, for `n` days from `day` on
unfoldable pub semesters_from : ℤ → ℕ → ℕ → List ℤ → List ℤ
semesters_from course zero day set = set
semesters_from course (suc n) day set =
    semesters_from course n (suc day) (elim (infer_semester_for_date day course) [
      | none ↦ set
      | some semester ↦ add_to_set semester set
    ])

abbrev pub allowed_in : List (ℤ × List ℤ) → ℤ → ℤ → Bool
allowed_in allowed_by_sem semester subject_id = elim (lookup semester allowed_by_sem) [
  | none ↦ false
  | some allowed ↦ contains subject_id allowed
]

abbrev pub is_unallocated : List (ℤ × List ℤ) → ℤ → Lesson → Bool
is_unallocated allowed_by_sem semester lesson = elim lesson.subject_id [
  | none ↦ false
  | some subject_id ↦ not (allowed_in allowed_by_sem semester subject_id)
]

unfoldable pub curriculum_warnings :
    Group → List (ℤ × List ℤ) → List DaySchedule → List ScheduleValidationWarning
curriculum_warnings group allowed_by_sem [] = []
curriculum_warnings group allowed_by_sem (day ∷ days) =
    let rest = curriculum_warnings group allowed_by_sem days in
    elim (infer_semester_for_date day.date group.course) [
      | none ↦ rest
      | some semester ↦
          map
            (λ l.
              warning_from_lesson "subject_not_in_curriculum" day.date l group
                "subject is not allocated in curriculum for semester")
            (filter (is_unallocated allowed_by_sem semester) day.lessons)
          ++ rest
    ]

-- blockedByDateName: the last constraint of a day and a teacher
unfoldable pub blocked_by_date_name :
    List TeacherDayConstraintView → List ((ℕ × String) × TeacherDayConstraintView)
blocked_by_date_name blocked =
    insert_all (map (λ b. ((b.target_date.day, b.teacher_name), b)) blocked) []

unfoldable pub constraint_warning :
    Group → ℕ → Lesson → Option TeacherDayConstraintView → List ScheduleValidationWarning
constraint_warning group date lesson none = []
constraint_warning group date lesson (some b) =
    warning_from_lesson "teacher_day_constraint" date lesson group
      ("teacher day constraint (" ⊕ b.constraint_level ⊕ "): " ⊕ b.reason)
    ∷ []

unfoldable pub constraint_warnings_on :
    Group
    → List ((ℕ × String) × TeacherDayConstraintView)
    → ℕ
    → List Lesson
    → List ScheduleValidationWarning
unfolding constraint_warning
constraint_warnings_on group blocked date [] = []
constraint_warnings_on group blocked date (lesson ∷ lessons) =
    (if lesson.teacher_name == ""
      then []
      else constraint_warning group date lesson (lookup (date, lesson.teacher_name) blocked))
    ++ constraint_warnings_on group blocked date lessons

unfoldable pub constraint_warnings :
    Group
    → List ((ℕ × String) × TeacherDayConstraintView)
    → List DaySchedule
    → List ScheduleValidationWarning
unfolding constraint_warnings_on
constraint_warnings group blocked [] = []
constraint_warnings group blocked (day ∷ days) =
    constraint_warnings_on group blocked day.date day.lessons
    ++ constraint_warnings group blocked days

module _ (reads : ValidationReads) (group_id : ℤ) (start_day end_day : ℕ) where
  -- allDaysByGroup, from the days of the group that is validated
  unfoldable pub all_days_by_group :
      List Group → List (ℤ × List DaySchedule) → Result Error (List (ℤ × List DaySchedule))
  all_days_by_group [] m = ok m
  all_days_by_group (g ∷ groups) m = elim (g.id == group_id) [
    | true ↦ all_days_by_group groups m
    | false ↦ reads.build_days g.id start_day end_day >>= λ days.
        all_days_by_group groups (insert g.id days m)
  ]

  unfoldable pub location_ids_of_all : List (ℤ × List DaySchedule) → List ℤ → List ℤ
  location_ids_of_all [] ids = ids
  location_ids_of_all ((g, days) ∷ rest) ids =
      location_ids_of_all rest (collect_location_ids_from_days days ids)

  -- what both checks load: the groups, their days, and the rooms of these
  unfoldable pub with_all_days :
      Group
      → List DaySchedule
      → (List (ℤ × LocationMeta)
          → ℤ
          → List (ℤ × Group)
          → List (ℤ × List DaySchedule)
          → List ScheduleValidationWarning)
      → Result Error (List ScheduleValidationWarning)
  unfolding all_days_by_group location_ids_of_all stable_sort insert_all
  with_all_days group target_days rules = do
    groups ← reads.list_groups
    all_days ← all_days_by_group groups ((group_id, target_days) ∷ [])
    metas ← reads.list_location_meta_by_ids (stable_sort ltb_ℤ (location_ids_of_all all_days []))
    ok (
        rules metas group_id (insert_all (map (λ g. (g.id, g)) groups) ((group_id, group) ∷ []))
          all_days)

  -- validateLocationOccupancySchedule
  unfoldable pub validate_location_occupancy_schedule :
      Group → List DaySchedule → Result Error (List ScheduleValidationWarning)
  unfolding with_all_days
  validate_location_occupancy_schedule group target_days =
      if not (has_location_lessons target_days)
      then ok []
      else with_all_days group target_days validate_location_occupancy_rules

  -- validatePhysicalEducationFacilitySchedule
  unfoldable pub validate_physical_education_facility_schedule :
      Group → List DaySchedule → Result Error (List ScheduleValidationWarning)
  unfolding with_all_days
  validate_physical_education_facility_schedule group target_days =
      if not (has_physical_education_lessons target_days)
      then ok []
      else with_all_days group target_days validate_physical_education_facility_rules

  -- the branch on the group's curriculum
  unfoldable pub curriculum_check :
      Group → List DaySchedule → Result Error (List ScheduleValidationWarning)
  unfolding semesters_from curriculum_warnings
  curriculum_check group days = elim group.curriculum_id [
    | none ↦ ok []
    | some curriculum_id ↦
        reads.list_allocated_subjects_by_semester curriculum_id
          (semesters_from group.course (suc end_day - start_day) start_day [])
        >>= λ allowed_by_sem. ok (curriculum_warnings group allowed_by_sem days)
  ]

  abbrev pub has_no_curriculum : Group → Bool
  has_no_curriculum group = elim group.curriculum_id [ none ↦ true | some id ↦ false ]

  -- ValidateScheduleRange
  unfoldable pub validate_schedule_range : Result Error ScheduleValidationResponse
  unfolding validate_location_occupancy_schedule validate_physical_education_facility_schedule
      curriculum_check non_teaching_warnings blocked_by_date_name constraint_warnings
  validate_schedule_range = do
    group ← reads.get_group group_id
    days ← reads.build_days group_id start_day end_day
    metas ← reads.list_location_meta_by_ids (collect_location_ids_from_days days [])
    occupancy ← validate_location_occupancy_schedule group days
    facilities ← validate_physical_education_facility_schedule group days
    curriculum ← curriculum_check group days
    blocked ← reads.list_blocking_teacher_constraints_between start_day end_day
    let warnings =
        validate_schedule_business_rules metas days group
        ++ (non_teaching_warnings group days
            ++ (occupancy
                ++ (facilities
                    ++ (curriculum
                        ++ constraint_warnings group (blocked_by_date_name blocked) days))))
    ok (record {
      group_id = group_id;
      start_date = start_day;
      end_date = end_day;
      warnings = warnings;
      warn_count = length warnings;
      validated = true;
      no_curriculum = has_no_curriculum group;
    })
