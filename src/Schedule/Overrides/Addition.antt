-- ===== src/Schedule/Overrides/Addition.antt =====
-- internal/schedule/service_overrides.go: what a successful applyAddOverride has checked and written.
use ispo_shedule_backend.Prelude.{
  ℤ, String, Bool, true, false, ◌≡◌, ◌≢◌, refl, sym, ap, subst, ◌∙◌, Option, none, some, List, [],
  ◌∷◌, ◌++◌, int_eq, nat_eq, int_beq_iff, nat_beq_iff, filter, ltb, arith, some_inj,
}
use ispo_shedule_backend.Prelude.Results.{ok}
use ispo_shedule_backend.Prelude.Transaction.{and_then-ok, lift-ok, reject_if-ok}
use ispo_shedule_backend.Schedule.Models.{
  Time, ScheduleLesson, ScheduleOverride, OverrideAction, add,
}
use ispo_shedule_backend.Schedule.Store.{Tables, Database, IsDatabase}
use ispo_shedule_backend.Schedule.Lessons.Normalize.{
  date_only, normalize_override_action, normalize_status, normalize_schedule_lesson,
}
use ispo_shedule_backend.Schedule.Rooms.Free.{IsFree, query-ok, length-zero}
use ispo_shedule_backend.Schedule.Constraints.Defs.{constraint_on}
use ispo_shedule_backend.Schedule.Constraints.Verdicts.{
  PermitsToday, check_global_day_constraint-ok,
}
use ispo_shedule_backend.Schedule.Overrides.Defs.{
  apply_action, check_addition, create_addition, apply_add_override, apply_schedule_override,
}
use ispo_shedule_backend.Schedule.Overrides.Rows.{
  ApplyScheduleOverrideRequest, in_slot, same_subgroup, dated, added_lesson, added_format, is_none,
}
use ispo_shedule_backend.Schedule.Overrides.Steps.{IsRoom, assign_location-ok, ensure_location-ok}
use ispo_shedule_backend.Schedule.Overrides.Replaced.{PermitsTeacher, check_teacher-ok}
use ispo_shedule_backend.Schedule.Overrides.Outcome.{SameRows, apply_schedule_override-Dispatched}

pub record Checked (before : Tables) (req : ApplyScheduleOverrideRequest) : Type 0 where
  pub subject : req.replacement_subject_id ≢ none
  pub day : PermitsToday req.confirm_global_day_constraint (constraint_on before req.lesson_date)
  pub teacher :
      PermitsTeacher before req.replacement_teacher_id req.lesson_date req.confirm_constraints
  pub vacant : filter (in_slot req) before.lessons ≡ []

pub record Created (before after : Tables) (req : ApplyScheduleOverrideRequest)
    (lesson created : ScheduleLesson) (out : ScheduleOverride) : Type 0 where
  pub row : created ≡ record lesson { id = created.id }
  pub lessons : after.lessons ≡ before.lessons ++ created ∷ []
  pub free :
      (id : ℤ)
      → req.replacement_location_id ≡ some id
      → IsFree before id req.lesson_date req.pair_number lesson.flow_key none
  pub placed :
      (id : ℤ) → req.replacement_location_id ≡ some id → IsRoom created.id id after.room_assignments
  pub overrides : after.overrides ≡ before.overrides ++ out ∷ []
  pub audited :
      (out.schedule_lesson_id ≡ some created.id)
      × (out.applied_lesson_version ≡ some created.version)

pub record Added (before after : Tables) (req : ApplyScheduleOverrideRequest)
    (out : ScheduleOverride) : Type 0 where
  pub lesson : ScheduleLesson
  pub created : ScheduleLesson
  pub checked : Checked before req
  pub fits : in_slot req created ≡ true
  pub written : Created before after req lesson created out

same_subgroup_refl : (s : Option ℤ) → same_subgroup s s ≡ true
same_subgroup_refl none = refl
same_subgroup_refl (some n) = (int_beq_iff n n).1 refl

-- Normalization keeps the slot of the lesson that is added.
added-in_slot :
    (req : ApplyScheduleOverrideRequest) (format : String) (row : ScheduleLesson) (id : ℤ)
    → normalize_schedule_lesson (added_lesson req format) ≡ ok row
    → in_slot req (record row { id = id }) ≡ true
unfolding normalize_schedule_lesson normalize_status date_only
added-in_slot req format row id h = ground (
  arith,
  same_subgroup_refl req.subgroup,
  int_beq_iff req.group_id req.group_id,
  int_beq_iff req.pair_number req.pair_number,
  nat_beq_iff req.lesson_date.day req.lesson_date.day,
)

added_subject : (o : Option ℤ) → is_none o ≡ false → o ≢ none
added_subject none h e = cc
added_subject (some n) h e = cc

filter-append :
    (p : ScheduleLesson → Bool) (row : ScheduleLesson) (rows : List ScheduleLesson)
    → filter p rows ≡ []
    → p row ≡ true
    → filter p (rows ++ row ∷ []) ≡ row ∷ []
filter-append p row [] h k = rw k
filter-append p row (r ∷ rows) h k = ground (arith, filter-append p row rows)

module _ (db : Database) (now : Time) (law : IsDatabase db) where
  check_addition-Checked :
      (req : ApplyScheduleOverrideRequest) (s t : db.State)
      → check_addition db now req s ≡ ok (tt, t)
      → Checked (db.tables s) req × (t ≡ s)
  unfolding check_addition
  check_addition-Checked req s t h =
      let (count, s₁, p₁, h₁) = and_then-ok _ _ h in
      let (read, e₁) = query-ok db _ s s₁ count p₁ in
      let (_, s₂, p₂, h₂) = and_then-ok _ _ h₁ in
      let (vacant, e₂) = reject_if-ok _ _ s₁ s₂ p₂ in
      let (_, s₃, p₃, h₃) = and_then-ok _ _ h₂ in
      let (subject, e₃) = reject_if-ok _ _ s₂ s₃ p₃ in
      let (_, s₄, p₄, h₄) = and_then-ok _ _ h₃ in
      let (day, e₄) = check_global_day_constraint-ok db req.lesson_date _ s₃ s₄ p₄ in
      let (teacher, e₅) = check_teacher-ok db _ req.lesson_date _ s₄ t h₄ in
      let c₃ : s₃ ≡ s = e₃ ∙ e₂ ∙ e₁ in
      let c₄ : s₄ ≡ s = e₄ ∙ c₃ in
      (
        record {
          subject = added_subject _ subject;
          day =
              subst
                (λ u.
                  PermitsToday req.confirm_global_day_constraint
                    (constraint_on (db.tables u) req.lesson_date))
                c₃ day;
          teacher =
              subst
                (λ u.
                  PermitsTeacher (db.tables u) req.replacement_teacher_id req.lesson_date
                    req.confirm_constraints)
                c₄ teacher;
          vacant = length-zero _ (subst (λ n. ltb 0 n ≡ false) read vacant);
        },
        e₅ ∙ c₄,
      )

  create_addition-Created :
      (req : ApplyScheduleOverrideRequest) (format : String) (lesson : ScheduleLesson)
      (out : ScheduleOverride) (s t : db.State)
      → create_addition db now req format lesson s ≡ ok (out, t)
      → (created : ScheduleLesson) × Created (db.tables s) (db.tables t) req lesson created out
  unfolding create_addition
  create_addition-Created req format lesson out s t h =
      let (_, s₁, p₁, h₁) = and_then-ok _ _ h in
      let (free, e₁) =
        ensure_location-ok db now _ req.lesson_date req.pair_number lesson.flow_key none s s₁ p₁ in
      let (created, s₂, p₂, h₂) = and_then-ok _ _ h₁ in
      let (row, inserted) = law.create_lesson_ok lesson created s₁ s₂ p₂ in
      let (_, s₃, p₃, h₃) = and_then-ok _ _ h₂ in
      let assigned = assign_location-ok db now law _ created s₂ s₃ p₃ in
      let (audit, after) = law.create_override_ok _ out s₃ t h₃ in
      let base : db.tables s₁ ≡ db.tables s = ap (λ u. db.tables u) e₁ in
      let rooms : (db.tables t).room_assignments ≡ (db.tables s₃).room_assignments =
        ap (λ u. u.room_assignments) after in
      let kept : (db.tables s₃).overrides ≡ (db.tables s).overrides =
        assigned.overrides ∙ ap (λ u. u.overrides) inserted ∙ ap (λ u. u.overrides) base in
      (
        created,
        record {
          row = row;
          lessons =
              ap (λ u. u.lessons) after
              ∙ assigned.lessons
              ∙ ap (λ u. u.lessons) inserted
              ∙ ap (λ u. u.lessons ++ created ∷ []) base;
          free = free;
          placed = λ id p. subst (IsRoom created.id id) (sym rooms) (assigned.placed id p);
          overrides = ap (λ u. u.overrides) after ∙ ap (λ o. o ++ out ∷ []) kept;
          audited =
              (ap (λ r. r.schedule_lesson_id) audit, ap (λ r. r.applied_lesson_version) audit);
        },
      )

  pub apply_add_override-Added :
      (req : ApplyScheduleOverrideRequest) (out : ScheduleOverride) (s t : db.State)
      → apply_add_override db now req s ≡ ok (out, t)
      → Added (db.tables s) (db.tables t) req out
  unfolding apply_add_override
  apply_add_override-Added req out s t h =
      let (_, s₁, p₁, h₁) = and_then-ok _ _ h in
      let (checked, e₁) = check_addition-Checked req s s₁ p₁ in
      let (lesson, s₂, p₂, h₂) = and_then-ok _ _ h₁ in
      let (normal, e₂) = lift-ok _ s₁ s₂ p₂ in
      let format = added_format req.replacement_lesson_format in
      let (created, w) =
        create_addition-Created req format lesson out s t
          (subst (λ u. create_addition db now req format lesson u ≡ ok (out, t)) (e₂ ∙ e₁) h₂) in
      record {
        lesson = lesson;
        created = created;
        checked = checked;
        fits =
            subst (λ r. in_slot req r ≡ true) (sym w.row)
              (added-in_slot req format lesson created.id normal);
        written = w;
      }

  add_call :
      (req : ApplyScheduleOverrideRequest) (action : OverrideAction) (s : db.State)
      → action ≡ add
      → apply_action db now req action s ≡ apply_add_override db now req s
  unfolding apply_action
  add_call req action s e = rw e

  -- An addition succeeds only on a slot that no live lesson of the group and subgroup holds, with a
  -- subject, under constraints of the day and the teacher that permit it, in a room that is
  -- virtual or free; afterwards exactly one live lesson holds the slot, the one the audit row
  -- names, in the requested room.
  pub apply_schedule_override-Added :
      (given : ApplyScheduleOverrideRequest) (out : ScheduleOverride) (s t : db.State)
      → normalize_override_action given.action_type ≡ some add
      → apply_schedule_override db now given s ≡ ok (out, t)
      → (last : Tables) × (a : Added (db.tables s) last (dated given) out) × SameRows last
          (db.tables t)
        × (filter (in_slot (dated given)) (db.tables t).lessons ≡ a.created ∷ [])
  apply_schedule_override-Added given out s t adds h =
      let d = apply_schedule_override-Dispatched db now law given out s t h in
      let a =
        apply_add_override-Added (dated given) out s d.last
          (sym (add_call (dated given) d.action s (some_inj (sym d.named ∙ adds))) ∙ d.run) in
      (
        db.tables d.last,
        a,
        d.rows,
        ap (filter (in_slot (dated given))) (d.rows.lessons ∙ a.written.lessons)
            ∙ filter-append (in_slot (dated given)) a.created (db.tables s).lessons a.checked.vacant
                a.fits,
      )
