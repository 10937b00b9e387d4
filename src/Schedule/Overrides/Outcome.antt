-- ===== src/Schedule/Overrides/Outcome.antt =====
-- internal/schedule/service_overrides.go: a successful ApplyScheduleOverride, taken apart.
use ispo_shedule_backend.Prelude.{
  ℤ, true, false, ◌≡◌, sym, ap, subst, ◌∙◌, Option, none, some, [], ◌∷◌, ◌++◌, int_eq, is_positive,
  find, arith, int_succ,
}
use ispo_shedule_backend.Prelude.Results.{ok}
use ispo_shedule_backend.Prelude.Transaction.{and_then-ok, reject_if-ok, pure-ok}
use ispo_shedule_backend.Schedule.Models.{
  Time, ScheduleLesson, ScheduleOverride, OverrideAction, add, replace, cancel, restore,
}
use ispo_shedule_backend.Schedule.Store.{Tables, Database, IsDatabase, replace_lesson}
use ispo_shedule_backend.Schedule.Lessons.Normalize.{
  normalize_override_action, bad_pair, bad_subgroup,
}
use ispo_shedule_backend.Schedule.Rooms.Free.{query-ok}
use ispo_shedule_backend.Schedule.Rooms.Assigned.{room_of}
use ispo_shedule_backend.Schedule.Overrides.Defs.{
  cancel_lesson, override_lesson, apply_existing_lesson_override, known, apply_action,
  apply_schedule_override,
}
use ispo_shedule_backend.Schedule.Overrides.Rows.{
  ApplyScheduleOverrideRequest, is_target, or_else, cancelled_lesson, location_of, override_of,
  version_conflict, dated,
}
use ispo_shedule_backend.Schedule.Overrides.Steps.{lock-ok}
use ispo_shedule_backend.Schedule.Overrides.Replaced.{Replaced, replace_existing-Replaced}

pub record Cancelled (before after : Tables) (lesson : ScheduleLesson) (out : ScheduleOverride)
    : Type 0 where
  pub lessons : after.lessons ≡ replace_lesson (cancelled_lesson lesson) before.lessons
  pub rooms : after.room_assignments ≡ before.room_assignments
  pub overrides : after.overrides ≡ before.overrides ++ out ∷ []
  pub audited :
      (out.schedule_lesson_id ≡ some lesson.id)
      × (out.applied_lesson_version ≡ some (int_succ lesson.version))

-- The room that a replacement leaves a lesson in: the requested one, or else its present one.
abbrev pub target_location : ApplyScheduleOverrideRequest → ScheduleLesson → Tables → Option ℤ
target_location req lesson before =
    or_else req.replacement_location_id (location_of (room_of lesson.id before.room_assignments))

-- What each action does to an existing lesson.
abbrev pub Overridden :
    Tables
    → Tables
    → ApplyScheduleOverrideRequest
    → OverrideAction
    → ScheduleLesson
    → ScheduleOverride
    → Type 0
Overridden before after req cancel lesson out = Cancelled before after lesson out
Overridden before after req add lesson out =
    Replaced before after req lesson (target_location req lesson before) out
Overridden before after req replace lesson out =
    Replaced before after req lesson (target_location req lesson before) out
Overridden before after req restore lesson out =
    Replaced before after req lesson (target_location req lesson before) out

pub record Existing (before after : Tables) (req : ApplyScheduleOverrideRequest)
    (action : OverrideAction) (out : ScheduleOverride) : Type 0 where
  pub lesson : ScheduleLesson
  pub found : find (is_target req req.schedule_lesson_id) before.lessons ≡ some lesson
  pub expected : version_conflict req.expected_lesson_version lesson.version ≡ false
  pub effect : Overridden before after req action lesson out

-- The tables differ in the version stamp only.
pub record SameRows (before after : Tables) : Type 0 where
  pub lessons : after.lessons ≡ before.lessons
  pub rooms : after.room_assignments ≡ before.room_assignments
  pub overrides : after.overrides ≡ before.overrides
  pub locations : after.locations ≡ before.locations

module _ (db : Database) (now : Time) (law : IsDatabase db) where
  cancel_lesson-Cancelled :
      (lesson : ScheduleLesson) (req : ApplyScheduleOverrideRequest) (room : Option ℤ)
      (out : ScheduleOverride) (s t : db.State)
      → cancel_lesson db now lesson (override_of req cancel lesson room) s ≡ ok (out, t)
      → Cancelled (db.tables s) (db.tables t) lesson out
  unfolding cancel_lesson
  cancel_lesson-Cancelled lesson req room out s t h =
      let (_, s₁, p, h₁) = and_then-ok _ _ h in
      let saved = law.save_lesson_ok _ s s₁ p in
      let (row, after) = law.create_override_ok _ out s₁ t h₁ in
      record {
        lessons = ap (λ u. u.lessons) after ∙ ap (λ u. u.lessons) saved;
        rooms = ap (λ u. u.room_assignments) after ∙ ap (λ u. u.room_assignments) saved;
        overrides = ap (λ u. u.overrides) after ∙ ap (λ u. u.overrides ++ out ∷ []) saved;
        audited = (ap (λ r. r.schedule_lesson_id) row, ap (λ r. r.applied_lesson_version) row);
      }

  override_lesson-Overridden :
      (req : ApplyScheduleOverrideRequest) (action : OverrideAction) (lesson : ScheduleLesson)
      (out : ScheduleOverride) (s t : db.State)
      → override_lesson db now req action lesson
          (location_of (room_of lesson.id (db.tables s).room_assignments))
          s
        ≡ ok (out, t)
      → Overridden (db.tables s) (db.tables t) req action lesson out
  unfolding override_lesson
  override_lesson-Overridden req cancel lesson out s t h =
      cancel_lesson-Cancelled lesson req _ out s t h
  override_lesson-Overridden req add lesson out s t h =
      replace_existing-Replaced db now law req lesson _ add out s t h
  override_lesson-Overridden req replace lesson out s t h =
      replace_existing-Replaced db now law req lesson _ replace out s t h
  override_lesson-Overridden req restore lesson out s t h =
      replace_existing-Replaced db now law req lesson _ restore out s t h

  -- A successful override of an existing lesson found it, with the expected version.
  pub apply_existing_lesson_override-Existing :
      (req : ApplyScheduleOverrideRequest) (action : OverrideAction) (out : ScheduleOverride)
      (s t : db.State)
      → apply_existing_lesson_override db now req action s ≡ ok (out, t)
      → Existing (db.tables s) (db.tables t) req action out
  unfolding apply_existing_lesson_override room_of
  apply_existing_lesson_override-Existing req action out s t h =
      let (lesson, s₁, p₁, h₁) = and_then-ok _ _ h in
      let (found, e₁) = lock-ok db now req lesson s s₁ p₁ in
      let (_, s₂, p₂, h₂) = and_then-ok _ _ h₁ in
      let (fits, e₂) = reject_if-ok _ _ s₁ s₂ p₂ in
      let (room, s₃, p₃, h₃) = and_then-ok _ _ h₂ in
      let (read, e₃) = query-ok db _ s₂ s₃ room p₃ in
      let e₁₂ : s₂ ≡ s = e₂ ∙ e₁ in
      let here : room ≡ room_of lesson.id (db.tables s).room_assignments =
        subst (λ u. room ≡ room_of lesson.id (db.tables u).room_assignments) e₁₂ read in
      let run : override_lesson db now req action lesson (location_of room) s ≡ ok (out, t) =
        subst (λ u. override_lesson db now req action lesson (location_of room) u ≡ ok (out, t))
          (e₃ ∙ e₁₂) h₃ in
      record {
        lesson = lesson;
        found = found;
        expected = fits;
        effect = override_lesson-Overridden req action lesson out s t (
            subst (λ r. override_lesson db now req action lesson (location_of r) s ≡ ok (out, t))
              here run);
      }

  -- Each guard of ApplyScheduleOverride, read off from a success, and the dispatched call.
  pub record Dispatched (given : ApplyScheduleOverrideRequest) (out : ScheduleOverride)
      (s t : db.State) : Type 0 where
    pub action : OverrideAction
    pub named : normalize_override_action given.action_type ≡ some action
    pub group : is_positive given.group_id ≡ true
    pub pair : bad_pair given.pair_number ≡ false
    pub subgroup : bad_subgroup given.subgroup ≡ false
    pub last : db.State
    pub run : apply_action db now (dated given) action s ≡ ok (out, last)
    pub rows : SameRows (db.tables last) (db.tables t)

  known-ok :
      (o : Option OverrideAction) (action : OverrideAction) (s t : db.State)
      → known db now o s ≡ ok (action, t)
      → (o ≡ some action) × (t ≡ s)
  unfolding known
  known-ok none action s t h = cc
  known-ok (some a) action s t h = (cc, cc)

  pub apply_schedule_override-Dispatched :
      (given : ApplyScheduleOverrideRequest) (out : ScheduleOverride) (s t : db.State)
      → apply_schedule_override db now given s ≡ ok (out, t)
      → Dispatched given out s t
  unfolding apply_schedule_override
  apply_schedule_override-Dispatched given out s t h =
      let req = dated given in
      let (action, s₁, p₁, h₁) = and_then-ok _ _ h in
      let (named, e₁) = known-ok _ action s s₁ p₁ in
      let (_, s₂, p₂, h₂) = and_then-ok _ _ h₁ in
      let (group, e₂) = reject_if-ok _ _ s₁ s₂ p₂ in
      let (_, s₃, p₃, h₃) = and_then-ok _ _ h₂ in
      let (pair, e₃) = reject_if-ok _ _ s₂ s₃ p₃ in
      let (_, s₄, p₄, h₄) = and_then-ok _ _ h₃ in
      let (subgroup, e₄) = reject_if-ok _ _ s₃ s₄ p₄ in
      let (result, s₅, p₅, h₅) = and_then-ok _ _ h₄ in
      let (_, s₆, p₆, h₆) = and_then-ok _ _ h₅ in
      let (v, stamped) = law.bump_version_ok s₅ s₆ p₆ in
      let (_, s₇, p₇, h₇) = and_then-ok _ _ h₆ in
      let kept = law.commit_ok s₆ s₇ p₇ in
      let (same, end) = pure-ok result out s₇ t h₇ in
      let final : db.tables t ≡ record (db.tables s₅) { schedule_version = v } =
        ap (λ u. db.tables u) (sym end) ∙ kept ∙ stamped in
      record {
        action = action;
        named = named;
        group = ground (arith, group);
        pair = pair;
        subgroup = subgroup;
        last = s₅;
        run =
            subst (λ r. apply_action db now req action s ≡ ok (r, s₅)) same
              (subst (λ u. apply_action db now req action u ≡ ok (result, s₅)) (e₄ ∙ e₃ ∙ e₂ ∙ e₁)
                p₅);
        rows = record {
          lessons = ap (λ u. u.lessons) final;
          rooms = ap (λ u. u.room_assignments) final;
          overrides = ap (λ u. u.overrides) final;
          locations = ap (λ u. u.locations) final;
        };
      }
