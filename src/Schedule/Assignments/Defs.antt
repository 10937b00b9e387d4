-- ===== src/Schedule/Assignments/Defs.antt =====
-- internal/schedule/repository_teachers.go: which teacher gives which course (models.go,
-- CourseAssignment), with drafts that are published or discarded together. The two timestamps are
-- left to the database; a nil pointer is `none`.
use ispo_shedule_backend.Prelude.{
  ℕ, ℤ, pos, Bool, true, false, not, ◌&&◌, ◌≡◌, Option, none, some, List, [], ◌∷◌, ◌++◌, map,
  String, ◌==◌, int_eq, string_eq, if◌then◌else◌, is_positive, length, filter, find, any,
}
use ispo_shedule_backend.Prelude.Format.{decimal_ℤ, ◌⊕◌}
use ispo_shedule_backend.Prelude.Results.{Result, ok, err}
use ispo_shedule_backend.Prelude.Transaction.{Step, pure, fail, ◌>>=◌, ◌>>◌, lift, reject_if}
use ispo_shedule_backend.Schedule.Models.{
  EntityStatus, draft, published, cancelled, other_status, is_published,
}
use ispo_shedule_backend.Schedule.Errors.{Error, message, record_not_found}

pub record CourseAssignment : Type 0 where
  pub id : ℤ
  pub group_id : ℤ
  pub semester : ℤ
  pub subject_id : ℤ
  pub status : EntityStatus
  pub teacher_id : Option ℤ
  pub campus_id : Option ℤ
  pub is_flow : Bool
  pub curriculum_item_id : Option ℤ
  pub subgroup : Option ℤ
  pub notes : Option String

pub record TeacherSubject : Type 0 where
  pub teacher_id : ℤ
  pub subject_id : ℤ

-- a row but for its primary key
abbrev pub content : CourseAssignment → CourseAssignment
content r = record r { id = pos 0 }

abbrev pub replace_row : CourseAssignment → List CourseAssignment → List CourseAssignment
replace_row row [] = []
replace_row row (r ∷ rows) = (if r.id == row.id then row else r) ∷ replace_row row rows

-- The tables behind gorm. A condition of DELETE may read the table as it stands (USING).
pub record AssignmentDb : Type 1 where
  pub State : Type 0
  pub assignments : State → List CourseAssignment
  pub teacher_subjects : State → List TeacherSubject
  pub read_error : State → Option Error
  pub create : CourseAssignment → Step Error State CourseAssignment
  pub save : CourseAssignment → Step Error State (Unit {0})
  pub delete_where : (List CourseAssignment → CourseAssignment → Bool) → Step Error State ℕ
  pub insert_select :
      (CourseAssignment → CourseAssignment) → (CourseAssignment → Bool) → Step Error State ℕ
  pub commit : Step Error State (Unit {0})

-- The documented behaviour of DELETE and INSERT … SELECT, which answer with the number of rows.
pub record IsAssignmentDb (db : AssignmentDb) : Type 0 where
  pub delete_where_ok :
      (p : List CourseAssignment → CourseAssignment → Bool) (s t : db.State) (n : ℕ)
      → db.delete_where p s ≡ ok (n, t)
      → (db.assignments t ≡ filter (λ r. not (p (db.assignments s) r)) (db.assignments s))
        × (n ≡ length (filter (p (db.assignments s)) (db.assignments s)))
  pub insert_select_ok :
      (f : CourseAssignment → CourseAssignment) (p : CourseAssignment → Bool) (s t : db.State)
      (n : ℕ)
      → db.insert_select f p s ≡ ok (n, t)
      → (out : List CourseAssignment) × (map content out
          ≡ map (λ r. content (f r)) (filter p (db.assignments s)))
        × (db.assignments t ≡ db.assignments s ++ out)
        × (n ≡ length (filter p (db.assignments s)))
  pub commit_ok : (s t : db.State) → db.commit s ≡ ok (tt, t) → db.assignments t ≡ db.assignments s

abbrev pub is_draft : EntityStatus → Bool
is_draft draft = true
is_draft published = false
is_draft cancelled = false
is_draft (other_status s) = false

-- `if a.Status == "" { a.Status = … }`
unfoldable pub status_or : EntityStatus → EntityStatus → EntityStatus
status_or default draft = draft
status_or default published = published
status_or default cancelled = cancelled
status_or default (other_status s) = if s == "" then default else other_status s

-- `AND semester = ?`, if a semester is given
abbrev pub in_semester : Option ℤ → CourseAssignment → Bool
in_semester none row = true
in_semester (some semester) row = row.semester == semester

-- `group_id = ? AND status = 'draft'` with the semester
abbrev pub is_draft_of : ℤ → Option ℤ → CourseAssignment → Bool
is_draft_of group_id semester row =
    row.group_id == group_id && (is_draft row.status && in_semester semester row)

-- `COALESCE(subgroup, 0)`
abbrev pub coalesce : Option ℤ → ℤ
coalesce none = pos 0
coalesce (some subgroup) = subgroup

abbrev pub same_key : CourseAssignment → CourseAssignment → Bool
same_key p d =
    p.group_id == d.group_id
    && (p.semester == d.semester
        && (p.subject_id == d.subject_id && coalesce p.subgroup == coalesce d.subgroup))

-- the condition of the first DELETE of PublishDraftCourseAssignments
abbrev pub is_superseded : ℤ → Option ℤ → List CourseAssignment → CourseAssignment → Bool
is_superseded group_id semester rows p =
    any (λ d. is_draft_of group_id semester d && same_key p d) rows && is_published p.status

-- the row of its INSERT … SELECT
abbrev pub published_row : CourseAssignment → CourseAssignment
published_row row = record row { status = published }

-- the assignments of UpdateCourseAssignment
abbrev pub patched_row : CourseAssignment → CourseAssignment → EntityStatus → CourseAssignment
patched_row row patch status = record patch { id = row.id; status = status }

-- `if a.Status != StatusDraft && a.Status != StatusPublished`
unfoldable pub known_status : EntityStatus → Result Error EntityStatus
known_status draft = ok draft
known_status published = ok published
known_status cancelled = err (message "invalid status: cancelled")
known_status (other_status s) = err (message ("invalid status: " ⊕ s))

module _ (db : AssignmentDb) where
  -- a query
  unfoldable pub read : {A : Type 0} → (db.State → A) → Step Error db.State A
  read f s = elim (db.read_error s) [ none ↦ ok (f s, s) | some e ↦ err e ]

  unfoldable pub row_or_fail : Option CourseAssignment → Step Error db.State CourseAssignment
  row_or_fail none = fail record_not_found
  row_or_fail (some row) = pure row

  -- GetCourseAssignmentByID
  unfoldable pub get_course_assignment_by_id : ℤ → Step Error db.State CourseAssignment
  get_course_assignment_by_id id =
      read (λ s. find (λ r. r.id == id) (db.assignments s)) >>= row_or_fail

  -- CreateCourseAssignment
  unfoldable pub create_course_assignment :
      Option CourseAssignment → Step Error db.State CourseAssignment
  create_course_assignment none = fail (message "assignment is nil")
  create_course_assignment (some a) = do
    status ← lift (known_status (status_or published a.status))
    db.create (record a { status = status })

  -- UpdateCourseAssignment
  unfoldable pub update_course_assignment :
      ℤ → CourseAssignment → Step Error db.State CourseAssignment
  update_course_assignment id patch = do
    row ← get_course_assignment_by_id id
    status ← lift (known_status (status_or row.status patch.status))
    db.save (patched_row row patch status)
    pure (patched_row row patch status)

  -- DeleteCourseAssignment
  unfoldable pub delete_course_assignment : ℤ → Step Error db.State ℕ
  delete_course_assignment id = db.delete_where (λ rows r. r.id == id)

  -- EnsureTeacherSubjectAllowed
  unfoldable pub ensure_teacher_subject_allowed : ℤ → ℤ → Step Error db.State (Unit {0})
  ensure_teacher_subject_allowed teacher_id subject_id = do
    allowed ← read (λ s.
        any (λ r. r.teacher_id == teacher_id && r.subject_id == subject_id) (db.teacher_subjects s))
    reject_if (not allowed) (
        message (
          "teacher "
          ⊕ decimal_ℤ teacher_id
          ⊕ " is not allowed for subject "
          ⊕ decimal_ℤ subject_id))

  -- PublishDraftCourseAssignments
  unfoldable pub publish_draft_course_assignments : ℤ → Option ℤ → Step Error db.State ℕ
  publish_draft_course_assignments group_id semester = do
    reject_if (not (is_positive group_id)) (message "group_id required")
    _ ← db.delete_where (is_superseded group_id semester)
    moved ← db.insert_select published_row (is_draft_of group_id semester)
    _ ← db.delete_where (λ rows r. is_draft_of group_id semester r)
    db.commit
    pure moved

  -- DiscardDraftCourseAssignments
  unfoldable pub discard_draft_course_assignments : ℤ → Option ℤ → Step Error db.State ℕ
  discard_draft_course_assignments group_id semester = do
    reject_if (not (is_positive group_id)) (message "group_id required")
    db.delete_where (λ rows r. is_draft_of group_id semester r)
