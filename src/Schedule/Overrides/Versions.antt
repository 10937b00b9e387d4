-- ===== src/Schedule/Overrides/Versions.antt =====
-- internal/schedule/service_overrides.go: optimistic locking by the version of a lesson.
use ispo_shedule_backend.Prelude.{
  ℤ, Bool, false, ◌≡◌, ◌≢◌, refl, ap, subst, ◌∙◌, Option, none, some, List, [], ◌∷◌, ◌++◌, ◌==◌,
  int_eq, int_beq_iff, find, arith, int_succ,
}
use ispo_shedule_backend.Prelude.Results.{ok}
use ispo_shedule_backend.Schedule.Models.{
  Time, ScheduleLesson, ScheduleOverride, OverrideAction, add, replace, cancel, restore,
}
use ispo_shedule_backend.Schedule.Store.{Tables, Database, IsDatabase, replace_lesson}
use ispo_shedule_backend.Schedule.Lessons.Normalize.{normalize_override_action}
use ispo_shedule_backend.Schedule.Overrides.Defs.{
  apply_action, apply_existing_lesson_override, apply_schedule_override,
}
use ispo_shedule_backend.Schedule.Overrides.Rows.{
  ApplyScheduleOverrideRequest, is_target, cancelled_lesson, replaced_lesson, version_conflict,
  dated,
}
use ispo_shedule_backend.Schedule.Overrides.Steps.{find-replace_lesson}
use ispo_shedule_backend.Schedule.Overrides.Replaced.{Replaced}
use ispo_shedule_backend.Schedule.Overrides.Outcome.{
  Existing, apply_existing_lesson_override-Existing, apply_schedule_override-Dispatched,
}

-- The row of an identifier, as a query by the primary key reads it.
unfoldable pub lesson_by_id : ℤ → Tables → Option ScheduleLesson
lesson_by_id id t = find (λ r. r.id == id) t.lessons

-- What a change of an existing lesson promises: the lesson it found has the expected version, the
-- row of that lesson has the next version afterwards, and the audit row records both.
pub record Advanced (before after : Tables) (req : ApplyScheduleOverrideRequest)
    (out : ScheduleOverride) : Type 0 where
  pub lesson : ScheduleLesson
  pub written : ScheduleLesson
  pub found : find (is_target req req.schedule_lesson_id) before.lessons ≡ some lesson
  pub expected : (v : ℤ) → req.expected_lesson_version ≡ some v → lesson.version ≡ v
  pub stored : lesson_by_id lesson.id after ≡ some written
  pub next : written.version ≡ int_succ lesson.version
  pub slot :
      (written.lesson_date ≡ lesson.lesson_date)
      × (written.pair_number ≡ lesson.pair_number)
      × (written.group_id ≡ lesson.group_id)
  pub audited :
      (out.schedule_lesson_id ≡ some lesson.id)
      × (out.applied_lesson_version ≡ some written.version)
  pub appended : after.overrides ≡ before.overrides ++ out ∷ []

pub expected_version :
    (expected : Option ℤ) (version v : ℤ)
    → version_conflict expected version ≡ false
    → expected ≡ some v
    → version ≡ v
unfolding version_conflict
expected_version none version v h e = cc
expected_version (some w) version v h e = ground (arith, int_beq_iff version w, e)

pub stored_after :
    (before after : Tables) (p : ScheduleLesson → Bool) (row l : ScheduleLesson)
    → find p before.lessons ≡ some l
    → row.id ≡ l.id
    → after.lessons ≡ replace_lesson row before.lessons
    → lesson_by_id l.id after ≡ some row
unfolding lesson_by_id
stored_after before after p row l found own written =
    subst (λ i. find (λ r. r.id == i) after.lessons ≡ some row) own
      (ap (find (λ r. r.id == row.id)) written
        ∙ find-replace_lesson p row l before.lessons found own)

Replaced-Advanced :
    (before after : Tables) (req : ApplyScheduleOverrideRequest) (lesson : ScheduleLesson)
    → find (is_target req req.schedule_lesson_id) before.lessons ≡ some lesson
    → version_conflict req.expected_lesson_version lesson.version ≡ false
    → (location : Option ℤ) (out : ScheduleOverride) → Replaced before after req lesson location out
    → Advanced before after req out
Replaced-Advanced before after req lesson found fits location out e = record {
  lesson = lesson;
  written = replaced_lesson req lesson;
  found = found;
  expected = λ v. expected_version _ lesson.version v fits;
  stored = stored_after before after _ (replaced_lesson req lesson) lesson found refl e.lessons;
  next = refl;
  slot = (refl, refl, refl);
  audited = e.audited;
  appended = e.overrides;
}

Existing-Advanced :
    (before after : Tables) (req : ApplyScheduleOverrideRequest) (action : OverrideAction)
    (out : ScheduleOverride)
    → Existing before after req action out
    → Advanced before after req out
Existing-Advanced before after req cancel out e = record {
  lesson = e.lesson;
  written = cancelled_lesson e.lesson;
  found = e.found;
  expected = λ v. expected_version _ e.lesson.version v e.expected;
  stored =
      stored_after before after _ (cancelled_lesson e.lesson) e.lesson e.found refl
        e.effect.lessons;
  next = refl;
  slot = (refl, refl, refl);
  audited = e.effect.audited;
  appended = e.effect.overrides;
}
Existing-Advanced before after req add out e =
    Replaced-Advanced before after req e.lesson e.found e.expected _ out e.effect
Existing-Advanced before after req replace out e =
    Replaced-Advanced before after req e.lesson e.found e.expected _ out e.effect
Existing-Advanced before after req restore out e =
    Replaced-Advanced before after req e.lesson e.found e.expected _ out e.effect

pub named_id :
    (id : ℤ) (lesson : ScheduleLesson) (rows : List ScheduleLesson)
    → find (λ r. r.id == id) rows ≡ some lesson
    → lesson.id ≡ id
named_id id lesson [] h = cc
named_id id lesson (r ∷ rows) h = ground (arith, int_beq_iff r.id id, named_id id lesson rows)

same_lookup :
    (id : ℤ) (before after : Tables)
    → after.lessons ≡ before.lessons
    → lesson_by_id id after ≡ lesson_by_id id before
unfolding lesson_by_id
same_lookup id before after e = ap (find (λ r. r.id == id)) e

-- Every action but `add` goes to applyExistingLessonOverride.
pub existing_call :
    (db : Database) (now : Time) (req : ApplyScheduleOverrideRequest) (action : OverrideAction)
    (s : db.State)
    → action ≢ add
    → apply_existing_lesson_override db now req action s ≡ apply_action db now req action s
unfolding apply_action
existing_call db now req add s other = absurd (other refl)
existing_call db now req replace s other = refl
existing_call db now req cancel s other = refl
existing_call db now req restore s other = refl

module _ (db : Database) (now : Time) (law : IsDatabase db) where
  -- A successful cancellation, replacement or restoration finds its lesson with the version that
  -- the request expects, if it expects one; the row of that lesson then has the next version and
  -- its old slot, and one audit row that names the lesson and the new version is appended.
  pub apply_schedule_override-Advanced :
      (given : ApplyScheduleOverrideRequest) (out : ScheduleOverride) (s t : db.State)
      → normalize_override_action given.action_type ≢ some add
      → apply_schedule_override db now given s ≡ ok (out, t)
      → Advanced (db.tables s) (db.tables t) (dated given) out
  apply_schedule_override-Advanced given out s t other h =
      let d = apply_schedule_override-Dispatched db now law given out s t h in
      let req = dated given in
      let a = Existing-Advanced _ _ req d.action out (
        apply_existing_lesson_override-Existing db now law req d.action out s d.last
          (existing_call db now req d.action s (λ e. other (d.named ∙ ap some e)) ∙ d.run)) in
      record {
        lesson = a.lesson;
        written = a.written;
        found = a.found;
        expected = a.expected;
        stored = same_lookup a.lesson.id (db.tables d.last) (db.tables t) d.rows.lessons ∙ a.stored;
        next = a.next;
        slot = a.slot;
        audited = a.audited;
        appended = d.rows.overrides ∙ a.appended;
      }
