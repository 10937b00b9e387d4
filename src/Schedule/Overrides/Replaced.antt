-- ===== src/Schedule/Overrides/Replaced.antt =====
-- internal/schedule/service_overrides.go: what a successful replacement or restoration of a lesson
-- has checked and written.
use ispo_shedule_backend.Prelude.{
  ℤ, Bool, true, ◌≡◌, sym, ap, subst, ◌∙◌, Option, none, some, [], ◌∷◌, ◌++◌, int_eq, is_positive,
  All, some_inj, int_succ,
}
use ispo_shedule_backend.Prelude.Results.{ok}
use ispo_shedule_backend.Prelude.Transaction.{and_then-ok}
use ispo_shedule_backend.Schedule.Models.{Time, ScheduleLesson, ScheduleOverride, OverrideAction}
use ispo_shedule_backend.Schedule.Store.{Tables, Database, IsDatabase, replace_lesson}
use ispo_shedule_backend.Schedule.Lessons.Normalize.{date_only}
use ispo_shedule_backend.Schedule.Rooms.Free.{IsFree}
use ispo_shedule_backend.Schedule.Rooms.Defs.{sits_in}
use ispo_shedule_backend.Schedule.Rooms.Assigned.{OnlyMoves}
use ispo_shedule_backend.Schedule.Constraints.Defs.{
  constraints_of, constraint_on, check_teacher_constraints,
}
use ispo_shedule_backend.Schedule.Constraints.Verdicts.{
  Permits, PermitsToday, check_teacher_constraints-ok, check_global_day_constraint-ok,
}
use ispo_shedule_backend.Schedule.Overrides.Defs.{replace_existing}
use ispo_shedule_backend.Schedule.Overrides.Rows.{
  ApplyScheduleOverrideRequest, or_else, override_of, replaced_lesson,
}
use ispo_shedule_backend.Schedule.Overrides.Steps.{IsRoom, ensure_location-ok, assign_location-ok}

-- The constraints of the teacher, if the lesson has one, permit it.
abbrev pub PermitsTeacher : Tables → Option ℤ → Time → Bool → Type 0
PermitsTeacher t teacher_id lesson_date confirmed =
    (id : ℤ)
    → teacher_id ≡ some id
    → is_positive id ≡ true
    → All (Permits confirmed) (constraints_of t id (date_only lesson_date))

pub record Replaced (before after : Tables) (req : ApplyScheduleOverrideRequest)
    (lesson : ScheduleLesson) (location : Option ℤ) (out : ScheduleOverride) : Type 0 where
  pub day : PermitsToday req.confirm_global_day_constraint (constraint_on before lesson.lesson_date)
  pub teacher :
      PermitsTeacher before
        (replaced_lesson req lesson).teacher_id
        lesson.lesson_date
        req.confirm_constraints
  pub free :
      (id : ℤ)
      → location ≡ some id
      → IsFree before id lesson.lesson_date lesson.pair_number lesson.flow_key (some lesson.id)
  pub lessons : after.lessons ≡ replace_lesson (replaced_lesson req lesson) before.lessons
  pub moves : OnlyMoves lesson.id before.room_assignments after.room_assignments
  pub placed : (id : ℤ) → location ≡ some id → IsRoom lesson.id id after.room_assignments
  pub locations : after.locations ≡ before.locations
  pub overrides : after.overrides ≡ before.overrides ++ out ∷ []
  pub audited :
      (out.schedule_lesson_id ≡ some lesson.id)
      × (out.applied_lesson_version ≡ some (int_succ lesson.version))

pub check_teacher-ok :
    (db : Database) (teacher_id : Option ℤ) (lesson_date : Time) (confirmed : Bool) (s t : db.State)
    → check_teacher_constraints db teacher_id lesson_date confirmed s ≡ ok (tt, t)
    → PermitsTeacher (db.tables s) teacher_id lesson_date confirmed × (t ≡ s)
unfolding check_teacher_constraints
check_teacher-ok db none lesson_date confirmed s t h = (λ id e. cc, cc)
check_teacher-ok db (some id) lesson_date confirmed s t h =
    let (permits, e) = check_teacher_constraints-ok db id lesson_date confirmed s t h in
    (
      λ j p good.
          subst
            (λ i. All (Permits confirmed) (constraints_of (db.tables s) i (date_only lesson_date)))
            (some_inj p) (permits (subst (λ i. is_positive i ≡ true) (sym (some_inj p)) good)),
      e,
    )

module _ (db : Database) (now : Time) (law : IsDatabase db) where
  pub replace_existing-Replaced :
      (req : ApplyScheduleOverrideRequest) (lesson : ScheduleLesson) (current_location : Option ℤ)
      (action : OverrideAction) (out : ScheduleOverride) (s t : db.State)
      → replace_existing db now req lesson current_location
          (override_of req action lesson current_location)
          s
        ≡ ok (out, t)
      → Replaced
          (db.tables s)
          (db.tables t)
          req
          lesson
          (or_else req.replacement_location_id current_location)
          out
  unfolding replace_existing
  replace_existing-Replaced req lesson current_location action out s t h =
      let location = or_else req.replacement_location_id current_location in
      let (_, s₁, p₁, h₁) = and_then-ok _ _ h in
      let (day, e₁) = check_global_day_constraint-ok db lesson.lesson_date _ s s₁ p₁ in
      let (_, s₂, p₂, h₂) = and_then-ok _ _ h₁ in
      let (teacher, e₂) = check_teacher-ok db _ lesson.lesson_date _ s₁ s₂ p₂ in
      let (_, s₃, p₃, h₃) = and_then-ok _ _ h₂ in
      let (free, e₃) =
        ensure_location-ok db now location lesson.lesson_date lesson.pair_number lesson.flow_key
          (some lesson.id) s₂ s₃ p₃ in
      let (_, s₄, p₄, h₄) = and_then-ok _ _ h₃ in
      let saved = law.save_lesson_ok _ s₃ s₄ p₄ in
      let (_, s₅, p₅, h₅) = and_then-ok _ _ h₄ in
      let assigned = assign_location-ok db now law location _ s₄ s₅ p₅ in
      let (row, after) = law.create_override_ok _ out s₅ t h₅ in
      let e₁₂ : s₂ ≡ s = e₂ ∙ e₁ in
      let e : s₃ ≡ s = e₃ ∙ e₁₂ in
      let base : db.tables s₃ ≡ db.tables s = ap (λ u. db.tables u) e in
      let last : (db.tables t).room_assignments ≡ (db.tables s₅).room_assignments =
        ap (λ u. u.room_assignments) after in
      let kept : (db.tables s₄).room_assignments ≡ (db.tables s).room_assignments =
        ap (λ u. u.room_assignments) saved ∙ ap (λ u. u.room_assignments) base in
      record {
        day = day;
        teacher =
            subst
              (λ u.
                PermitsTeacher (db.tables u) (replaced_lesson req lesson).teacher_id
                  lesson.lesson_date req.confirm_constraints)
              e₁ teacher;
        free = λ id p.
            subst
              (λ u.
                IsFree (db.tables u) id lesson.lesson_date lesson.pair_number lesson.flow_key
                  (some lesson.id))
              e₁₂ (free id p);
        lessons =
            ap (λ u. u.lessons) after
            ∙ assigned.lessons
            ∙ ap (λ u. u.lessons) saved
            ∙ ap (λ u. replace_lesson (replaced_lesson req lesson) u.lessons) base;
        moves = λ l sl n k.
            subst (λ rs. sits_in l rs sl ≡ true) kept
              (assigned.moves l sl n (subst (λ rs. sits_in l rs sl ≡ true) last k));
        placed = λ id p. subst (IsRoom lesson.id id) (sym last) (assigned.placed id p);
        locations =
            ap (λ u. u.locations) after
            ∙ assigned.locations
            ∙ ap (λ u. u.locations) saved
            ∙ ap (λ u. u.locations) base;
        overrides =
            ap (λ u. u.overrides) after
            ∙ ap (λ o. o ++ out ∷ [])
                (assigned.overrides ∙ ap (λ u. u.overrides) saved ∙ ap (λ u. u.overrides) base);
        audited = (ap (λ r. r.schedule_lesson_id) row, ap (λ r. r.applied_lesson_version) row);
      }
