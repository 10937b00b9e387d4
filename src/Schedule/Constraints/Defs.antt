-- ===== src/Schedule/Constraints/Defs.antt =====
-- internal/schedule/service_overrides.go: checkTeacherConstraintsTx and checkGlobalDayConstraintTx.
use ispo_shedule_backend.Prelude.{
  ℤ, Bool, not, ◌&&◌, Option, none, some, List, [], ◌∷◌, ◌++◌, ◌==◌, string_eq, nat_eq, int_eq,
  is_positive, if◌then◌else◌, find, filter,
}
use ispo_shedule_backend.Prelude.Text.{trim_space, to_lower}
use ispo_shedule_backend.Prelude.Results.{Result, ok, err}
use ispo_shedule_backend.Prelude.Transaction.{Step, pure, ◌>>=◌, lift}
use ispo_shedule_backend.Schedule.Models.{Time, TeacherDayConstraint, CalendarDayConstraint}
use ispo_shedule_backend.Schedule.Errors.{
  Error, teacher_confirmation_required, teacher_hard_block, global_confirmation_required,
  global_day_blocked,
}
use ispo_shedule_backend.Schedule.Store.{Tables, Database}
use ispo_shedule_backend.Schedule.Lessons.Normalize.{date_only}
use ispo_shedule_backend.Schedule.Rooms.Defs.{query}

abbrev pub is_hard : TeacherDayConstraint → Bool
is_hard row = row.constraint_level == "hard_block"

-- `ORDER BY CASE constraint_level WHEN 'hard_block' THEN 0 ELSE 1 END, id`, over rows in id order
abbrev pub hard_first : List TeacherDayConstraint → List TeacherDayConstraint
hard_first rows = filter is_hard rows ++ filter (λ row. not (is_hard row)) rows

abbrev pub constraints_of : Tables → ℤ → Time → List TeacherDayConstraint
constraints_of t teacher_id lesson_date =
    filter (λ row. row.teacher_id == teacher_id && row.target_date.day == lesson_date.day)
      t.teacher_constraints

-- the loop over the rows
unfoldable pub teacher_verdict : Bool → List TeacherDayConstraint → Result Error (Unit {0})
teacher_verdict confirmed [] = ok tt
teacher_verdict confirmed (row ∷ rows) =
    let rest = teacher_verdict confirmed rows in
    if is_hard row
    then err (teacher_hard_block row)
    else if row.constraint_level == "warning" && (row.requires_confirmation && not confirmed)
    then err (teacher_confirmation_required row)
    else rest

-- the `switch` on the constraint's type
unfoldable pub global_verdict : Bool → Option CalendarDayConstraint → Result Error (Unit {0})
global_verdict confirmed none = ok tt
global_verdict confirmed (some row) =
    let kind = to_lower (trim_space row.constraint_type) in
    if not row.affects_lessons
    then ok tt
    else if kind == "blocked"
    then (if row.requires_confirmation && confirmed then ok tt else err (global_day_blocked row))
    else if kind == "warning"
    then (if row.requires_confirmation && not confirmed
        then err (global_confirmation_required row)
        else ok tt)
    else ok tt

abbrev pub constraint_on : Tables → Time → Option CalendarDayConstraint
constraint_on t lesson_date =
    find (λ row. row.target_date.day == (date_only lesson_date).day) t.day_constraints

module _ (db : Database) where
  -- checkTeacherConstraintsTx
  unfoldable pub check_teacher_constraints : Option ℤ → Time → Bool → Step Error db.State (Unit {0})
  check_teacher_constraints none lesson_date confirmed = pure tt
  check_teacher_constraints (some teacher_id) lesson_date confirmed =
      if not (is_positive teacher_id) then pure tt else (do
        rows ← query db (λ t. hard_first (constraints_of t teacher_id (date_only lesson_date)))
        lift (teacher_verdict confirmed rows))

  -- checkGlobalDayConstraintTx
  unfoldable pub check_global_day_constraint : Time → Bool → Step Error db.State (Unit {0})
  check_global_day_constraint lesson_date confirmed = do
    row ← query db (λ t. constraint_on t lesson_date)
    lift (global_verdict confirmed row)
