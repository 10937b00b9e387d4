-- ===== src/Schedule/Constraints/Verdicts.antt =====
-- internal/schedule/service_overrides.go: which constraints let a lesson be written.
use ispo_shedule_backend.Prelude.{
  ℤ, Bool, true, not, ◌≡◌, ◌≢◌, ◌↔◌, refl, subst, ◌∙◌, Option, none, some, List, [], ◌∷◌, ◌++◌,
  string_eq, nat_eq, int_eq, is_positive, filter, All, arith, eq_iff, Bool-cases, inl, inr,
}
use ispo_shedule_backend.Prelude.Text.{trim_space, to_lower}
use ispo_shedule_backend.Prelude.Results.{ok}
use ispo_shedule_backend.Prelude.Transaction.{and_then-ok, lift-ok}
use ispo_shedule_backend.Schedule.Models.{Time, TeacherDayConstraint, CalendarDayConstraint}
use ispo_shedule_backend.Schedule.Store.{Database}
use ispo_shedule_backend.Schedule.Lessons.Normalize.{date_only}
use ispo_shedule_backend.Schedule.Rooms.Free.{query-ok}
use ispo_shedule_backend.Schedule.Constraints.Defs.{
  is_hard, hard_first, constraints_of, teacher_verdict, global_verdict, constraint_on,
  check_teacher_constraints, check_global_day_constraint,
}

-- A teacher's constraint stands in the way of no lesson: it is not a hard block, and a warning that
-- asks for a confirmation has one.
abbrev pub Permits : Bool → TeacherDayConstraint → Type 0
Permits confirmed row =
    (row.constraint_level ≢ "hard_block")
    × (row.constraint_level ≡ "warning" → row.requires_confirmation ≡ true → confirmed ≡ true)

-- The same of a constraint on the whole day.
abbrev pub PermitsDay : Bool → CalendarDayConstraint → Type 0
PermitsDay confirmed row =
    row.affects_lessons ≡ true
    → (to_lower (trim_space row.constraint_type) ≡ "blocked"
        → (row.requires_confirmation ≡ true) × (confirmed ≡ true))
      × (to_lower (trim_space row.constraint_type) ≡ "warning"
          → row.requires_confirmation ≡ true
          → confirmed ≡ true)

-- The loop over the rows accepts exactly the lists of constraints that all permit the lesson.
pub teacher_verdict_iff :
    (confirmed : Bool) (rows : List TeacherDayConstraint)
    → (teacher_verdict confirmed rows ≡ ok tt) ↔ All (Permits confirmed) rows
unfolding teacher_verdict
teacher_verdict_iff confirmed [] = (λ h. tt, λ h. refl)
teacher_verdict_iff confirmed (row ∷ rows) = ground (
  arith,
  eq_iff row.constraint_level "hard_block",
  eq_iff row.constraint_level "warning",
  teacher_verdict_iff confirmed rows,
)

All-split :
    (P : TeacherDayConstraint → Type 0) (p : TeacherDayConstraint → Bool)
    (rows : List TeacherDayConstraint)
    → All P (filter p rows)
    → All P (filter (λ r. not (p r)) rows)
    → All P rows
All-split P p [] h k = tt
All-split P p (row ∷ rows) h k = elim (Bool-cases (p row)) [
  | inl picked ↦
      let h₁ : All P (row ∷ filter p rows) = rw picked at h in
      let k₁ : All P (filter (λ r. not (p r)) rows) = rw picked at k in
      (h₁.0, All-split P p rows h₁.1 k₁)
  | inr other ↦
      let h₁ : All P (filter p rows) = rw other at h in
      let k₁ : All P (row ∷ filter (λ r. not (p r)) rows) = rw other at k in
      (k₁.0, All-split P p rows h₁ k₁.1)
]

All-append :
    (P : TeacherDayConstraint → Type 0) (xs ys : List TeacherDayConstraint)
    → All P (xs ++ ys)
    → All P xs × All P ys
All-append P [] ys h = (tt, h)
All-append P (x ∷ xs) ys h = let (a, b) = All-append P xs ys h.1 in ((h.0, a), b)

All-hard_first :
    (P : TeacherDayConstraint → Type 0) (rows : List TeacherDayConstraint)
    → All P (hard_first rows)
    → All P rows
All-hard_first P rows h =
    let (a, b) = All-append P (filter is_hard rows) _ h in All-split P is_hard rows a b

abbrev pub PermitsToday : Bool → Option CalendarDayConstraint → Type 0
PermitsToday confirmed none = Unit
PermitsToday confirmed (some row) = PermitsDay confirmed row

-- The constraint of a day lets a lesson pass exactly when it permits it.
pub global_verdict_iff :
    (confirmed : Bool) (row : Option CalendarDayConstraint)
    → (global_verdict confirmed row ≡ ok tt) ↔ PermitsToday confirmed row
unfolding global_verdict
global_verdict_iff confirmed none = (λ h. tt, λ h. refl)
global_verdict_iff confirmed (some row) = ground (
  arith,
  eq_iff (to_lower (trim_space row.constraint_type)) "blocked",
  eq_iff (to_lower (trim_space row.constraint_type)) "warning",
)

module _ (db : Database) where
  -- The check of a teacher's day passes only if every constraint of the teacher on that day
  -- permits the lesson, and changes nothing.
  pub check_teacher_constraints-ok :
      (teacher_id : ℤ) (lesson_date : Time) (confirmed : Bool) (s t : db.State)
      → check_teacher_constraints db (some teacher_id) lesson_date confirmed s ≡ ok (tt, t)
      → (is_positive teacher_id ≡ true
          → All
              (Permits confirmed)
              (constraints_of (db.tables s) teacher_id (date_only lesson_date)))
        × (t ≡ s)
  unfolding check_teacher_constraints
  check_teacher_constraints-ok teacher_id lesson_date confirmed s t h =
      elim (Bool-cases (is_positive teacher_id)) [
        | inr bad ↦
            let h₁ : ok (tt, s) ≡ ok (tt, t) = rw (bad, check_teacher_constraints) at h in
            (λ p. cc, cc)
        | inl good ↦
            let h₀ = rw (good, check_teacher_constraints) at h in
            let (rows, s₁, p, h₁) = and_then-ok _ _ h₀ in
            let (read, e₁) = query-ok db _ s s₁ rows p in
            let (fine, e₂) = lift-ok _ s₁ t h₁ in
            (
              λ _. All-hard_first _ _ (
                  subst (All (Permits confirmed)) read
                    ((teacher_verdict_iff confirmed rows).0 fine)),
              e₂ ∙ e₁,
            )
      ]

  -- The check of the day passes only if the day's constraint, if there is one, permits the lesson,
  -- and changes nothing.
  pub check_global_day_constraint-ok :
      (lesson_date : Time) (confirmed : Bool) (s t : db.State)
      → check_global_day_constraint db lesson_date confirmed s ≡ ok (tt, t)
      → PermitsToday confirmed (constraint_on (db.tables s) lesson_date) × (t ≡ s)
  unfolding check_global_day_constraint
  check_global_day_constraint-ok lesson_date confirmed s t h =
      let (row, s₁, p, h₁) = and_then-ok _ _ h in
      let (read, e₁) = query-ok db _ s s₁ row p in
      let (fine, e₂) = lift-ok _ s₁ t h₁ in
      (subst (PermitsToday confirmed) read ((global_verdict_iff confirmed row).0 fine), e₂ ∙ e₁)
