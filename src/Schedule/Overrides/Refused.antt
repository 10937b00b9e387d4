-- ===== src/Schedule/Overrides/Refused.antt =====
-- internal/schedule/service_overrides.go: what ApplyScheduleOverride answers to a stale request.
use ispo_shedule_backend.Prelude.{
  ℤ, Bool, true, false, ◌≡◌, ◌≢◌, Option, none, some, string_eq, nat_eq, pair_eq, int_eq,
  int_beq_iff, is_positive, arith, refl, sym, subst, ◌∙◌, some_inj, find,
}
use ispo_shedule_backend.Prelude.Results.{Result, ok, err}
use ispo_shedule_backend.Prelude.Transaction.{and_then, reject_if}
use ispo_shedule_backend.Schedule.Models.{
  ScheduleLesson, OverrideAction, add, replace, cancel, restore, Time,
}
use ispo_shedule_backend.Schedule.Errors.{lesson_version_conflict}
use ispo_shedule_backend.Schedule.Store.{Tables, Database}
use ispo_shedule_backend.Schedule.Lessons.Normalize.{
  normalize_override_action, bad_pair, bad_subgroup,
}
use ispo_shedule_backend.Schedule.Rooms.Defs.{query}
use ispo_shedule_backend.Schedule.Overrides.Rows.{
  ApplyScheduleOverrideRequest, is_target, version_conflict, dated,
}
use ispo_shedule_backend.Schedule.Overrides.Defs.{
  known, lock_schedule_lesson_for_override, apply_existing_lesson_override, apply_action,
  apply_schedule_override,
}

stale_version :
    (expected : Option ℤ) (version v : ℤ)
    → expected ≡ some v
    → version ≢ v
    → version_conflict expected version ≡ true
unfolding version_conflict
stale_version none version v h n = cc
stale_version (some w) version v h n =
    ground (arith, int_beq_iff version w, subst (λ u. version ≢ u) (sym (some_inj h)) n)

-- a chain whose first part answers, and one whose first part fails
and_then_by :
    {E S A B : Type 0} (r : Result E (A × S)) (f : A → S → Result E (B × S)) {a : A} {t : S}
    → r ≡ ok (a, t)
    → and_then r f ≡ f a t
unfolding and_then
and_then_by r f h = rw h refl

and_then_fails :
    {E S A B : Type 0} (r : Result E (A × S)) (f : A → S → Result E (B × S)) {e : E}
    → r ≡ err e
    → and_then r f ≡ err e
unfolding and_then
and_then_fails r f h = rw h refl

accepted :
    {E S : Type 0} (bad : Bool) (e : E) (s : S) → bad ≡ false → reject_if bad e s ≡ ok (tt, s)
unfolding reject_if
accepted bad e s h = rw h refl

rejected : {E S : Type 0} (bad : Bool) (e : E) (s : S) → bad ≡ true → reject_if bad e s ≡ err e
unfolding reject_if
rejected bad e s h = rw h refl

module _ (db : Database) (now : Time) where
  answered :
      {A : Type 0} (f : Tables → A) (s : db.State)
      → db.read_error s ≡ none
      → query db f s ≡ ok (f (db.tables s), s)
  unfolding query
  answered f s fine = rw (fine, query) refl

  locked :
      (req : ApplyScheduleOverrideRequest) (s : db.State) (lesson : ScheduleLesson)
      → db.read_error s ≡ none
      → find (is_target req req.schedule_lesson_id) (db.tables s).lessons ≡ some lesson
      → lock_schedule_lesson_for_override db now req s ≡ ok (lesson, s)
  unfolding lock_schedule_lesson_for_override
  locked req s lesson fine found =
      and_then_by (query db (λ t. find (is_target req req.schedule_lesson_id) t.lessons) s) _
        (answered _ s fine)
      ∙ rw found refl

  existing_refused :
      (req : ApplyScheduleOverrideRequest) (action : OverrideAction) (s : db.State)
      (lesson : ScheduleLesson) (v : ℤ)
      → db.read_error s ≡ none
      → find (is_target req req.schedule_lesson_id) (db.tables s).lessons ≡ some lesson
      → req.expected_lesson_version ≡ some v
      → lesson.version ≢ v
      → apply_existing_lesson_override db now req action s ≡ err lesson_version_conflict
  unfolding apply_existing_lesson_override
  existing_refused req action s lesson v fine found expected stale =
      and_then_by (lock_schedule_lesson_for_override db now req s) _
        (locked req s lesson fine found)
      ∙ and_then_fails _ _ (
          rejected _ _ s
            (stale_version req.expected_lesson_version lesson.version v expected stale))

  action_refused :
      (req : ApplyScheduleOverrideRequest) (action : OverrideAction) (s : db.State)
      (lesson : ScheduleLesson) (v : ℤ)
      → action ≢ add
      → db.read_error s ≡ none
      → find (is_target req req.schedule_lesson_id) (db.tables s).lessons ≡ some lesson
      → req.expected_lesson_version ≡ some v
      → lesson.version ≢ v
      → apply_action db now req action s ≡ err lesson_version_conflict
  unfolding apply_action
  action_refused req add s lesson v n fine found expected stale = absurd (n refl)
  action_refused req replace s lesson v n fine found expected stale =
      existing_refused req replace s lesson v fine found expected stale
  action_refused req cancel s lesson v n fine found expected stale =
      existing_refused req cancel s lesson v fine found expected stale
  action_refused req restore s lesson v n fine found expected stale =
      existing_refused req restore s lesson v fine found expected stale

  -- A replacement, a cancellation or a restoration that is well formed and names a lesson whose
  -- stored version is not the expected one is answered by the version conflict, whatever else it
  -- asks for, if the lesson can be read.
  pub apply_schedule_override-refused :
      (given : ApplyScheduleOverrideRequest) (action : OverrideAction) (s : db.State)
      (lesson : ScheduleLesson) (v : ℤ)
      → normalize_override_action given.action_type ≡ some action
      → action ≢ add
      → is_positive given.group_id ≡ true
      → bad_pair given.pair_number ≡ false
      → bad_subgroup given.subgroup ≡ false
      → db.read_error s ≡ none
      → find (is_target (dated given) given.schedule_lesson_id) (db.tables s).lessons ≡ some lesson
      → given.expected_lesson_version ≡ some v
      → lesson.version ≢ v
      → apply_schedule_override db now given s ≡ err lesson_version_conflict
  unfolding apply_schedule_override known
  apply_schedule_override-refused given action s lesson v acts n group pair sub fine found expected
        stale =
      and_then_by (known db now (normalize_override_action given.action_type) s) _ (rw acts refl)
      ∙ and_then_by _ _ (accepted _ _ s (ground (arith, group)))
      ∙ and_then_by _ _ (accepted _ _ s pair)
      ∙ and_then_by _ _ (accepted _ _ s sub)
      ∙ and_then_fails _ _
          (action_refused (dated given) action s lesson v n fine found expected stale)
