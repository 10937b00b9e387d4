-- ===== src/Schedule/Assignments/Tests.antt =====
-- internal/schedule/repository_teachers.go: a draft that is published over an older assignment.
use ispo_shedule_backend.Prelude.{
  ℕ, suc, pos, false, not, ◌≡◌, refl, ap, none, some, List, [], ◌∷◌, ◌++◌, map, length, filter,
}
use ispo_shedule_backend.Prelude.Results.{ok}
use ispo_shedule_backend.Prelude.Transaction.{and_then, reject_if}
use ispo_shedule_backend.Schedule.Models.{draft, published}
use ispo_shedule_backend.Schedule.Assignments.Defs.{
  CourseAssignment, content, replace_row, AssignmentDb, IsAssignmentDb,
  publish_draft_course_assignments,
}
use ispo_shedule_backend.Schedule.Assignments.Published.{
  Published, publish_draft_course_assignments-Published,
}

-- rows with identifiers from `n` on
abbrev numbered : ℕ → List CourseAssignment → List CourseAssignment
numbered n [] = []
numbered n (r ∷ rows) = record r { id = pos n } ∷ numbered (suc n) rows

abbrev inserted :
    List CourseAssignment
    → (CourseAssignment → CourseAssignment)
    → List CourseAssignment
    → List CourseAssignment
inserted table f rows = numbered (suc (length table)) (map f rows)

content-numbered :
    (f : CourseAssignment → CourseAssignment) (n : ℕ) (rows : List CourseAssignment)
    → map content (numbered n (map f rows)) ≡ map (λ r. content (f r)) rows
content-numbered f n [] = refl
content-numbered f n (r ∷ rows) = ap (λ l. content (f r) ∷ l) (content-numbered f (suc n) rows)

abbrev table_memory : AssignmentDb
table_memory = record {
  State = List CourseAssignment;
  assignments = λ s. s;
  teacher_subjects = λ s. [];
  read_error = λ s. none;
  create = λ row s. let out = record row { id = pos (suc (length s)) } in ok (out, s ++ out ∷ []);
  save = λ row s. ok (tt, replace_row row s);
  delete_where = λ p s. ok (length (filter (p s) s), filter (λ r. not (p s r)) s);
  insert_select = λ f p s. ok (length (filter p s), s ++ inserted s f (filter p s));
  commit = λ s. ok (tt, s);
}

table_memory-IsAssignmentDb : IsAssignmentDb table_memory
table_memory-IsAssignmentDb = record {
  delete_where_ok = λ p s t n h. (cc, cc);
  insert_select_ok = λ f p s t n h.
      (inserted s f (filter p s), content-numbered f (suc (length s)) (filter p s), cc, cc);
  commit_ok = λ s t h. cc;
}

abbrev old_row : CourseAssignment
old_row = record {
  id = pos 3;
  group_id = pos 7;
  semester = pos 2;
  subject_id = pos 5;
  status = published;
  teacher_id = some (pos 9);
  campus_id = none;
  is_flow = false;
  curriculum_item_id = none;
  subgroup = none;
  notes = none;
}

-- The same course with another teacher, and a course of another semester.
abbrev draft_row : CourseAssignment
draft_row = record old_row { id = pos 1; status = draft; teacher_id = some (pos 4) }

abbrev other_draft : CourseAssignment
other_draft = record draft_row { id = pos 2; semester = pos 3 }

abbrev table_one : List CourseAssignment
table_one = old_row ∷ draft_row ∷ other_draft ∷ []

abbrev table_published : List CourseAssignment
table_published = other_draft ∷ record draft_row { id = pos 3; status = published } ∷ []

publishes :
    publish_draft_course_assignments table_memory (pos 7) (some (pos 2)) table_one
    ≡ ok (1, table_published)
unfolding publish_draft_course_assignments and_then reject_if
publishes = refl

publish_draft_course_assignments-Published_example :
    Published table_one table_published (pos 7) (some (pos 2)) 1
publish_draft_course_assignments-Published_example =
    publish_draft_course_assignments-Published table_memory table_memory-IsAssignmentDb (pos 7)
      (some (pos 2)) table_one table_published 1 publishes
