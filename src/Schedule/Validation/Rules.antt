-- ===== src/Schedule/Validation/Rules.antt =====
-- internal/schedule/service_validate.go: validateMissingTeachers, validateFloatingDayOff,
-- validatePhysicalEducationFifthPair, validateThreePairsPracticeOnly, validateSingleCampusPerDay and
-- validateScheduleBusinessRules. The conventions are those of Defs.
use ispo_shedule_backend.Prelude.{
  ℕ, ℤ, pos, String, Bool, true, false, not, ◌&&◌, Option, none, some, List, [], ◌∷◌, ◌++◌, map,
  HasEq, ◌==◌, string_eq, nat_eq, pair_eq, int_eq, if◌then◌else◌, ltb, leb, is_positive, length,
  filter, find,
}
use ispo_shedule_backend.Prelude.Text.{trim_space}
use ispo_shedule_backend.Prelude.TextOrder.{string_ltb}
use ispo_shedule_backend.Prelude.Format.{decimal, join_comma, ◌⊕◌}
use ispo_shedule_backend.Prelude.Sorting.{stable_sort}
use ispo_shedule_backend.Schedule.Models.{Group, Lesson, DaySchedule}
use ispo_shedule_backend.Schedule.WeekCache.Range.{monday_of_week}
use ispo_shedule_backend.Schedule.Semester.{semester_for_date}
use ispo_shedule_backend.Schedule.Locations.{LocationMeta, meta_of}
use ispo_shedule_backend.Schedule.Validation.Defs.{
  ScheduleValidationWarning, warning_from_lesson, week_warning, is_physical_education_subject,
  is_practice_like_subject, add_to_set, set_at, put_in, sorted_map_keys, sorted_teacher_keys,
  is_taught, academic_hours_per_pair, validate_weekly_student_hours, validate_weekly_teacher_hours,
}

-- `for … { for … { if … { warnings = append(warnings, …) } } }`
unfoldable pub warn_each :
    (Lesson → Bool)
    → (ℕ → Lesson → ScheduleValidationWarning)
    → List DaySchedule
    → List ScheduleValidationWarning
warn_each bad warn [] = []
warn_each bad warn (day ∷ days) =
    map (warn day.date) (filter bad day.lessons) ++ warn_each bad warn days

abbrev pub lacks_teacher : Lesson → Bool
lacks_teacher lesson =
    not (is_taught lesson)
    && not (
        (elim lesson.subject_id [ none ↦ true | some id ↦ false ])
        && trim_space lesson.subject_name == "")

-- validateMissingTeachers
unfoldable pub validate_missing_teachers : List DaySchedule → Group → List ScheduleValidationWarning
unfolding warn_each
validate_missing_teachers days group =
    warn_each lacks_teacher
      (λ date lesson. warning_from_lesson "missing_teacher_placeholder" date lesson group (
        "lesson has no assigned teacher; pending load is "
        ⊕ decimal academic_hours_per_pair
        ⊕ " hours"))
      days

-- validatePhysicalEducationFifthPair
unfoldable pub validate_physical_education_fifth_pair :
    List DaySchedule → Group → List ScheduleValidationWarning
unfolding warn_each
validate_physical_education_fifth_pair days group =
    warn_each
      (λ lesson. lesson.pair_number == pos 5 && is_physical_education_subject lesson.subject_name)
      (λ date lesson.
        warning_from_lesson "physical_education_fifth_pair" date lesson group
          "physical education must not be scheduled as fifth pair")
      days

-- the three maps of validateFloatingDayOff
pub record DayOffMaps : Type 0 where
  pub covered_days : List (ℕ × List ℕ)
  pub group_lesson_days : List (ℕ × List ℕ)
  pub teacher_lesson_days : List ((ℕ × String) × List ℕ)

unfoldable pub teacher_days :
    ℕ → ℕ → List Lesson → List ((ℕ × String) × List ℕ) → List ((ℕ × String) × List ℕ)
teacher_days week date [] m = m
teacher_days week date (lesson ∷ lessons) m =
    teacher_days week date lessons
      (if is_taught lesson then put_in (week, trim_space lesson.teacher_name) date m else m)

abbrev pub is_empty_list {ℓ} : {A : Type ℓ} → List A → Bool
is_empty_list [] = true
is_empty_list (x ∷ xs) = false

unfoldable pub day_off_maps : List DaySchedule → DayOffMaps → DayOffMaps
unfolding teacher_days
day_off_maps [] m = m
day_off_maps (day ∷ days) m =
    let week = monday_of_week day.date in
    day_off_maps days (record {
      covered_days = put_in week day.date m.covered_days;
      group_lesson_days =
          if is_empty_list day.lessons
          then m.group_lesson_days
          else put_in week day.date m.group_lesson_days;
      teacher_lesson_days = teacher_days week day.date day.lessons m.teacher_lesson_days;
    })

abbrev pub six_days {ℓ} : {K : Type ℓ} ⦃k : HasEq K⦄ → K → List (K × List ℕ) → Bool
six_days key m = leb 6 (length (set_at key m))

unfoldable pub group_day_off : Group → DayOffMaps → List ℕ → List ScheduleValidationWarning
group_day_off group m [] = []
group_day_off group m (week ∷ weeks) =
    let others = group_day_off group m weeks in
    if six_days week m.covered_days && six_days week m.group_lesson_days
    then week_warning "group_floating_day_off" week (semester_for_date week group.course)
        "group has lessons on all six study days in the week"
      ∷ others
    else others

unfoldable pub teacher_day_off :
    Group → DayOffMaps → List (ℕ × String) → List ScheduleValidationWarning
teacher_day_off group m [] = []
teacher_day_off group m ((week, teacher) ∷ rest) =
    let others = teacher_day_off group m rest in
    if six_days week m.covered_days && six_days (week, teacher) m.teacher_lesson_days
    then week_warning "teacher_floating_day_off" week (semester_for_date week group.course)
        ("teacher " ⊕ teacher ⊕ " has lessons on all six study days in the week")
      ∷ others
    else others

-- validateFloatingDayOff
unfoldable pub validate_floating_day_off : List DaySchedule → Group → List ScheduleValidationWarning
unfolding day_off_maps group_day_off teacher_day_off
validate_floating_day_off days group =
    let m =
      day_off_maps days
        (record { covered_days = []; group_lesson_days = []; teacher_lesson_days = [] }) in
    group_day_off group m (sorted_map_keys m.covered_days)
    ++ teacher_day_off group m (sorted_teacher_keys m.teacher_lesson_days)

-- the pair numbers of a day's lessons, each once
unfoldable pub pairs_of : List Lesson → List ℤ → List ℤ
pairs_of [] set = set
pairs_of (lesson ∷ lessons) set =
    pairs_of lessons
      (if is_positive lesson.pair_number then add_to_set lesson.pair_number set else set)

unfoldable pub practice_warnings : ℕ → Group → Option Lesson → List ScheduleValidationWarning
practice_warnings date group none = []
practice_warnings date group (some lesson) =
    warning_from_lesson "three_pairs_requires_practice" date lesson group
      "three or more pairs in a day are allowed only for practice-like activities"
    ∷ []

-- validateThreePairsPracticeOnly; the inner loop stops at its first warning
unfoldable pub validate_three_pairs_practice_only :
    List DaySchedule → Group → List ScheduleValidationWarning
unfolding pairs_of practice_warnings
validate_three_pairs_practice_only [] group = []
validate_three_pairs_practice_only (day ∷ days) group =
    (if ltb (length (pairs_of day.lessons [])) 3
      then []
      else practice_warnings day.date group
          (find (λ lesson. not (is_practice_like_subject lesson.subject_name)) day.lessons))
    ++ validate_three_pairs_practice_only days group

module _ (metas : List (ℤ × LocationMeta)) where
  abbrev pub campus_of : Lesson → String
  campus_of lesson = elim lesson.location_id [
    | none ↦ ""
    | some id ↦ trim_space (meta_of metas id).campus_name
  ]

  -- the campuses of a day's lessons, each once
  unfoldable pub campuses_of : List Lesson → List String → List String
  campuses_of [] set = set
  campuses_of (lesson ∷ lessons) set =
      campuses_of lessons
        (if campus_of lesson == "" then set else add_to_set (campus_of lesson) set)

  unfoldable pub campus_warnings :
      ℕ → Group → List String → Option Lesson → List ScheduleValidationWarning
  campus_warnings date group campuses none = []
  campus_warnings date group campuses (some first) =
      warning_from_lesson "multiple_campuses_day" date first group (
        "group has lessons in multiple campuses in one day: "
        ⊕ join_comma (stable_sort string_ltb campuses))
      ∷ []

  -- validateSingleCampusPerDay; where two campuses are seen, there is a first lesson
  unfoldable pub validate_single_campus_per_day :
      List DaySchedule → Group → List ScheduleValidationWarning
  unfolding campuses_of campus_warnings
  validate_single_campus_per_day [] group = []
  validate_single_campus_per_day (day ∷ days) group =
      (if leb (length (campuses_of day.lessons [])) 1
        then []
        else campus_warnings day.date group (campuses_of day.lessons [])
            (find (λ lesson. not (campus_of lesson == "")) day.lessons))
      ++ validate_single_campus_per_day days group

  -- validateScheduleBusinessRules
  unfoldable pub validate_schedule_business_rules :
      List DaySchedule → Group → List ScheduleValidationWarning
  unfolding validate_single_campus_per_day
  validate_schedule_business_rules days group =
      validate_weekly_student_hours days
      ++ (validate_missing_teachers days group
          ++ (validate_weekly_teacher_hours days group
              ++ (validate_floating_day_off days group
                  ++ (validate_physical_education_fifth_pair days group
                      ++ (validate_three_pairs_practice_only days group
                          ++ validate_single_campus_per_day days group)))))
