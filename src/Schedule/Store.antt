-- ===== src/Schedule/Store.antt =====
-- The database as internal/schedule sees it through gorm: what its queries read, and what a
-- successful write changes. The driver is not part of the program, so it is a parameter.
use ispo_shedule_backend.Prelude.{
  ℤ, String, Bool, ◌==◌, ◌≡◌, if◌then◌else◌, Option, some, List, [], ◌∷◌, ◌++◌, int_eq, contains,
  map, false,
}
use ispo_shedule_backend.Prelude.Results.{ok}
use ispo_shedule_backend.Prelude.Transaction.{Step}
use ispo_shedule_backend.Schedule.Models.{
  Time, ScheduleLesson, ScheduleOverride, RoomAssignment, TeacherDayConstraint,
  CalendarDayConstraint,
}
use ispo_shedule_backend.Schedule.Errors.{Error}

-- The columns of the query in locationIsVirtualTx.
pub record LocationKind : Type 0 where
  pub id : ℤ
  pub kind : String
  pub has_online : Bool

-- The rows that a query ranges over, each table in the order of its primary key.
pub record Tables : Type 0 where
  pub lessons : List ScheduleLesson
  pub room_assignments : List RoomAssignment
  pub overrides : List ScheduleOverride
  pub teacher_constraints : List TeacherDayConstraint
  pub day_constraints : List CalendarDayConstraint
  pub locations : List LocationKind
  pub schedule_version : Option Time

abbrev pub replace_lesson : ScheduleLesson → List ScheduleLesson → List ScheduleLesson
replace_lesson row [] = []
replace_lesson row (r ∷ rows) = (if r.id == row.id then row else r) ∷ replace_lesson row rows

abbrev pub replace_assignment : RoomAssignment → List RoomAssignment → List RoomAssignment
replace_assignment row [] = []
replace_assignment row (r ∷ rows) =
    (if r.id == row.id then row else r) ∷ replace_assignment row rows

pub record Database : Type 1 where
  pub State : Type 0
  pub tables : State → Tables
  -- the error of a query, if the connection fails
  pub read_error : State → Option Error
  pub create_lesson : ScheduleLesson → Step Error State ScheduleLesson
  pub save_lesson : ScheduleLesson → Step Error State (Unit {0})
  pub create_assignment : RoomAssignment → Step Error State RoomAssignment
  pub save_assignment : RoomAssignment → Step Error State (Unit {0})
  pub create_override : ScheduleOverride → Step Error State ScheduleOverride
  pub create_system_state : Time → Step Error State (Unit {0})
  pub bump_version : Step Error State (Unit {0})
  pub commit : Step Error State (Unit {0})

-- The documented behaviour of the driver: INSERT appends the row under an identifier of its own,
-- UPDATE replaces the row of that identifier, and neither touches another table. `now` is read back
-- as it was written.
pub record IsDatabase (db : Database) : Type 0 where
  pub create_lesson_ok :
      (row out : ScheduleLesson) (s t : db.State)
      → db.create_lesson row s ≡ ok (out, t)
      → (out ≡ record row { id = out.id })
        × (db.tables t ≡ record (db.tables s) { lessons = (db.tables s).lessons ++ out ∷ [] })
  pub save_lesson_ok :
      (row : ScheduleLesson) (s t : db.State)
      → db.save_lesson row s ≡ ok (tt, t)
      → db.tables t ≡ record (db.tables s) { lessons = replace_lesson row (db.tables s).lessons }
  pub create_assignment_ok :
      (row out : RoomAssignment) (s t : db.State)
      → db.create_assignment row s ≡ ok (out, t)
      → (out ≡ record row { id = out.id })
        × (db.tables t ≡ record (db.tables s) {
          room_assignments = (db.tables s).room_assignments ++ out ∷ [];
        })
  pub create_assignment_fresh :
      (row out : RoomAssignment) (s t : db.State)
      → db.create_assignment row s ≡ ok (out, t)
      → contains out.id (map (λ a. a.id) (db.tables s).room_assignments) ≡ false
  pub save_assignment_ok :
      (row : RoomAssignment) (s t : db.State)
      → db.save_assignment row s ≡ ok (tt, t)
      → db.tables t ≡ record (db.tables s) {
        room_assignments = replace_assignment row (db.tables s).room_assignments;
      }
  pub create_override_ok :
      (row out : ScheduleOverride) (s t : db.State)
      → db.create_override row s ≡ ok (out, t)
      → (out ≡ record row { id = out.id })
        × (db.tables t ≡ record (db.tables s) { overrides = (db.tables s).overrides ++ out ∷ [] })
  pub create_system_state_ok :
      (now : Time) (s t : db.State)
      → db.create_system_state now s ≡ ok (tt, t)
      → db.tables t ≡ record (db.tables s) { schedule_version = some now }
  pub bump_version_ok :
      (s t : db.State)
      → db.bump_version s ≡ ok (tt, t)
      → (v : Option Time) × (db.tables t ≡ record (db.tables s) { schedule_version = v })
  pub commit_ok : (s t : db.State) → db.commit s ≡ ok (tt, t) → db.tables t ≡ db.tables s
