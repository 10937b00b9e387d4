-- ===== src/Schedule/Validation/Defs.antt =====
-- internal/schedule/service_validate.go: the rules of a single group's days, collected by
-- validateScheduleBusinessRules. A date is the day that its YYYY-MM-DD text names, so a week is the day
-- of its Monday, and the order of such texts is the order of the days. A map whose keys are only
-- counted or tested is the list of its keys, each once.
use ispo_shedule_backend.Prelude.{
  ℕ, ◌*◌, ℤ, pos, String, Bool, not, ◌&&◌, ◌||◌, Option, none, some, List, [], ◌∷◌, ◌++◌, HasEq,
  ◌==◌, string_eq, nat_eq, pair_eq, int_eq, if◌then◌else◌, ltb, leb, is_positive, lookup, insert,
  has_key, keys, length, any, contains,
}
use ispo_shedule_backend.Prelude.Text.{trim_space, to_lower}
use ispo_shedule_backend.Prelude.TextOrder.{string_ltb}
use ispo_shedule_backend.Prelude.Format.{contains_text, decimal, ◌⊕◌}
use ispo_shedule_backend.Prelude.Sorting.{stable_sort}
use ispo_shedule_backend.Schedule.Models.{Group, Lesson, DaySchedule}
use ispo_shedule_backend.Schedule.WeekCache.Range.{monday_of_week}
use ispo_shedule_backend.Schedule.Build.Defs.{subgroup_key}
use ispo_shedule_backend.Schedule.Semester.{semester_for_date}

pub record ScheduleValidationWarning : Type 0 where
  pub code : String
  pub date : ℕ
  pub pair_number : ℤ
  pub subgroup : Option ℤ
  pub subject_id : ℤ
  pub subject_name : String
  pub semester : ℤ
  pub message : String

abbrev pub id_or_zero : Option ℤ → ℤ
id_or_zero none = pos 0
id_or_zero (some id) = id

-- warningFromLesson
unfoldable pub warning_from_lesson :
    String → ℕ → Lesson → Group → String → ScheduleValidationWarning
warning_from_lesson kind date lesson group text = record {
  code = kind;
  date = date;
  pair_number = lesson.pair_number;
  subgroup = lesson.subgroup;
  subject_id = id_or_zero lesson.subject_id;
  subject_name = lesson.subject_name;
  semester = semester_for_date date group.course;
  message = text;
}

-- a warning on a week, which names no lesson
abbrev pub week_warning : String → ℕ → ℤ → String → ScheduleValidationWarning
week_warning kind week semester text = record {
  code = kind;
  date = week;
  pair_number = pos 0;
  subgroup = none;
  subject_id = pos 0;
  subject_name = "";
  semester = semester;
  message = text;
}

-- isPhysicalEducationSubject
unfoldable pub is_physical_education_subject : String → Bool
is_physical_education_subject name =
    let normalized = to_lower (trim_space name) in
    any (contains_text normalized)
      ("физическая культура" ∷ "физкультура" ∷ "физ-ра" ∷ "физра" ∷ "physical education" ∷ [])
    || normalized == "pe"

-- isPracticeLikeSubject
unfoldable pub is_practice_like_subject : String → Bool
is_practice_like_subject name =
    any (contains_text (to_lower (trim_space name))) ("практик" ∷ "practice" ∷ "стажиров" ∷ [])

-- `m[key] = true`
unfoldable pub add_to_set {ℓ} : {A : Type ℓ} ⦃e : HasEq A⦄ → A → List A → List A
add_to_set a set = if contains a set then set else set ++ a ∷ []

-- `m[k]` is nil, which is empty, for a key that is not there
abbrev pub or_empty_set {κ} : {A : Type κ} → Option (List A) → List A
or_empty_set none = []
or_empty_set (some set) = set

-- a map of such sets
module _ {ℓ κ} {K : Type ℓ} {A : Type κ} ⦃k : HasEq K⦄ where
  unfoldable pub set_at : K → List (K × List A) → List A
  set_at key m = or_empty_set (lookup key m)

  -- ensureStringBoolMap and ensureSlotMap
  unfoldable pub ensure_set : K → List (K × List A) → List (K × List A)
  ensure_set key m = if has_key key m then m else insert key [] m

  -- the same, with an entry put into the set
  unfoldable pub put_in : ⦃a : HasEq A⦄ → K → A → List (K × List A) → List (K × List A)
  unfolding set_at add_to_set
  put_in key v m = insert key (add_to_set v (set_at key m)) m

-- sortedMapKeys
unfoldable pub sorted_map_keys {ℓ} : {V : Type ℓ} → List (ℕ × V) → List ℕ
unfolding stable_sort
sorted_map_keys m = stable_sort ltb (keys m)

abbrev pub student_weekly_hours_limit : ℕ
student_weekly_hours_limit = 36

abbrev pub teacher_weekly_hours_limit : ℕ
teacher_weekly_hours_limit = 40

abbrev pub academic_hours_per_pair : ℕ
academic_hours_per_pair = 2

-- the inner loop of validateWeeklyStudentHours: a pair is a day and a number
unfoldable pub student_pairs :
    ℕ → ℕ → List Lesson → List (ℕ × List (ℕ × ℤ)) → List (ℕ × List (ℕ × ℤ))
student_pairs week date [] m = m
student_pairs week date (lesson ∷ lessons) m =
    student_pairs week date lessons
      (if is_positive lesson.pair_number then put_in week (date, lesson.pair_number) m else m)

unfoldable pub pairs_by_week : List DaySchedule → List (ℕ × List (ℕ × ℤ)) → List (ℕ × List (ℕ × ℤ))
unfolding ensure_set student_pairs
pairs_by_week [] m = m
pairs_by_week (day ∷ days) m = pairs_by_week days (
    student_pairs (monday_of_week day.date) day.date day.lessons
      (ensure_set (monday_of_week day.date) m))

abbrev pub student_hours : ℕ → List (ℕ × List (ℕ × ℤ)) → ℕ
student_hours week m = length (set_at week m) * academic_hours_per_pair

unfoldable pub student_week_warnings :
    List (ℕ × List (ℕ × ℤ)) → List ℕ → List ScheduleValidationWarning
student_week_warnings m [] = []
student_week_warnings m (week ∷ weeks) =
    let others = student_week_warnings m weeks in
    if leb (student_hours week m) student_weekly_hours_limit
    then others
    else week_warning "student_week_hours_limit" week (pos 0) (
        "student weekly load is "
        ⊕ decimal (student_hours week m)
        ⊕ " hours, limit is "
        ⊕ decimal student_weekly_hours_limit)
      ∷ others

-- validateWeeklyStudentHours
unfoldable pub validate_weekly_student_hours : List DaySchedule → List ScheduleValidationWarning
unfolding pairs_by_week sorted_map_keys student_week_warnings
validate_weekly_student_hours days =
    let m = pairs_by_week days [] in student_week_warnings m (sorted_map_keys m)

-- weekTeacherKey, and the sets of validateWeeklyTeacherHours
abbrev pub TeacherSlots : Type 0
TeacherSlots = List ((ℕ × String) × List (ℕ × (ℤ × ℤ)))

abbrev pub is_taught : Lesson → Bool
is_taught lesson = not (trim_space lesson.teacher_name == "")

unfoldable pub teacher_pairs : ℕ → ℕ → List Lesson → TeacherSlots → TeacherSlots
teacher_pairs week date [] m = m
teacher_pairs week date (lesson ∷ lessons) m = teacher_pairs week date lessons (
    if is_taught lesson && is_positive lesson.pair_number
    then put_in (week, trim_space lesson.teacher_name)
        (date, (lesson.pair_number, subgroup_key lesson.subgroup)) m
    else m)

unfoldable pub slots_by_teacher_week : List DaySchedule → TeacherSlots → TeacherSlots
unfolding teacher_pairs
slots_by_teacher_week [] m = m
slots_by_teacher_week (day ∷ days) m =
    slots_by_teacher_week days (teacher_pairs (monday_of_week day.date) day.date day.lessons m)

-- the order of the keys, by week and then by teacher
abbrev pub week_teacher_before : ℕ × String → ℕ × String → Bool
week_teacher_before a b = if not (a.0 == b.0) then ltb a.0 b.0 else string_ltb a.1 b.1

unfoldable pub sorted_teacher_keys {ℓ} : {V : Type ℓ} → List ((ℕ × String) × V) → List (ℕ × String)
unfolding stable_sort
sorted_teacher_keys m = stable_sort week_teacher_before (keys m)

abbrev pub teacher_hours : ℕ × String → TeacherSlots → ℕ
teacher_hours key m = length (set_at key m) * academic_hours_per_pair

unfoldable pub teacher_warnings :
    Group → TeacherSlots → List (ℕ × String) → List ScheduleValidationWarning
teacher_warnings group m [] = []
teacher_warnings group m ((week, teacher) ∷ rest) =
    let others = teacher_warnings group m rest in
    if leb (teacher_hours (week, teacher) m) teacher_weekly_hours_limit
    then others
    else week_warning "teacher_week_hours_limit" week (semester_for_date week group.course) (
        "teacher "
        ⊕ teacher
        ⊕ " weekly load is "
        ⊕ decimal (teacher_hours (week, teacher) m)
        ⊕ " hours in validated schedule, limit is "
        ⊕ decimal teacher_weekly_hours_limit)
      ∷ others

-- validateWeeklyTeacherHours
unfoldable pub validate_weekly_teacher_hours :
    List DaySchedule → Group → List ScheduleValidationWarning
unfolding slots_by_teacher_week sorted_teacher_keys teacher_warnings
validate_weekly_teacher_hours days group =
    let m = slots_by_teacher_week days [] in teacher_warnings group m (sorted_teacher_keys m)
