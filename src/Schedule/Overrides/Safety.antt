-- ===== src/Schedule/Overrides/Safety.antt =====
-- internal/schedule/service_overrides.go: rooms and constraints after a replacement or restoration.
use ispo_shedule_backend.Prelude.{true, ℤ, ◌≡◌, ◌≢◌, refl, sym, ap, subst, ◌∙◌, Option, some, find}
use ispo_shedule_backend.Prelude.Results.{ok}
use ispo_shedule_backend.Schedule.Models.{
  Time, ScheduleLesson, ScheduleOverride, OverrideAction, add, replace, cancel, restore,
}
use ispo_shedule_backend.Schedule.Store.{Tables, Database, IsDatabase}
use ispo_shedule_backend.Schedule.Lessons.Normalize.{normalize_override_action}
use ispo_shedule_backend.Schedule.Rooms.Free.{IsFree}
use ispo_shedule_backend.Schedule.Rooms.Defs.{sits_in}
use ispo_shedule_backend.Schedule.Constraints.Defs.{constraint_on}
use ispo_shedule_backend.Schedule.Constraints.Verdicts.{PermitsToday}
use ispo_shedule_backend.Schedule.Overrides.Defs.{apply_schedule_override}
use ispo_shedule_backend.Schedule.Overrides.Rows.{
  ApplyScheduleOverrideRequest, is_target, dated, replaced_lesson,
}
use ispo_shedule_backend.Schedule.Overrides.Steps.{IsFree-replace_lesson, IsRoom}
use ispo_shedule_backend.Schedule.Overrides.Replaced.{Replaced, PermitsTeacher}
use ispo_shedule_backend.Schedule.Overrides.Outcome.{
  Overridden, SameRows, target_location, apply_existing_lesson_override-Existing,
  apply_schedule_override-Dispatched,
}
use ispo_shedule_backend.Schedule.Overrides.Versions.{existing_call}

-- A request that replaces or restores a lesson.
abbrev pub Rewrites : ApplyScheduleOverrideRequest → Type 0
Rewrites given =
    (normalize_override_action given.action_type ≢ some add)
    × (normalize_override_action given.action_type ≢ some cancel)

-- The lesson of the request, the tables before the call and those after it.
abbrev pub Found : ApplyScheduleOverrideRequest → Tables → ScheduleLesson → Type 0
Found req before lesson = find (is_target req req.schedule_lesson_id) before.lessons ≡ some lesson

rewritten :
    (before after : Tables) (req : ApplyScheduleOverrideRequest) (action : OverrideAction)
    (lesson : ScheduleLesson) (out : ScheduleOverride)
    → action ≢ add
    → action ≢ cancel
    → Overridden before after req action lesson out
    → Replaced before after req lesson (target_location req lesson before) out
rewritten before after req add lesson out a c e = e
rewritten before after req replace lesson out a c e = e
rewritten before after req cancel lesson out a c e = absurd (c refl)
rewritten before after req restore lesson out a c e = e

-- The room that a rewritten lesson ends in is free for it, and is its published assignment.
abbrev pub HoldsRoom : Tables → ScheduleLesson → Option ℤ → Type 0
HoldsRoom after lesson location =
    (id : ℤ)
    → location ≡ some id
    → IsFree after id lesson.lesson_date lesson.pair_number lesson.flow_key (some lesson.id)
      × IsRoom lesson.id id after.room_assignments

holds_room :
    (before last after : Tables) (req : ApplyScheduleOverrideRequest) (lesson : ScheduleLesson)
    (location : Option ℤ) (out : ScheduleOverride)
    → Replaced before last req lesson location out
    → SameRows last after
    → HoldsRoom after lesson location
holds_room before last after req lesson location out e rows id p = (
  IsFree-replace_lesson before after (replaced_lesson req lesson) lesson.id id lesson.lesson_date
      lesson.pair_number lesson.flow_key refl (rows.lessons ∙ e.lessons)
      (rows.locations ∙ e.locations)
      (λ l sl n k. e.moves l sl n (subst (λ rs. sits_in l rs sl ≡ true) rows.rooms k))
      (e.free id p),
  subst (IsRoom lesson.id id) (sym rows.rooms) (e.placed id p),
)

module _ (db : Database) (now : Time) (law : IsDatabase db) where
  rewrite-Replaced :
      (given : ApplyScheduleOverrideRequest) (out : ScheduleOverride) (s t : db.State)
      → Rewrites given
      → apply_schedule_override db now given s ≡ ok (out, t)
      → (lesson : ScheduleLesson) × (last : Tables) × Found (dated given) (db.tables s) lesson
        × Replaced
            (db.tables s)
            last
            (dated given)
            lesson
            (target_location (dated given) lesson (db.tables s))
            out
        × SameRows last (db.tables t)
  rewrite-Replaced given out s t (a, c) h =
      let d = apply_schedule_override-Dispatched db now law given out s t h in
      let x : d.action ≢ add = λ e. a (d.named ∙ ap some e) in
      let y : d.action ≢ cancel = λ e. c (d.named ∙ ap some e) in
      let e =
        apply_existing_lesson_override-Existing db now law (dated given) d.action out s d.last
          (existing_call db now (dated given) d.action s x ∙ d.run) in
      (
        e.lesson,
        db.tables d.last,
        e.found,
        rewritten _ _ (dated given) d.action e.lesson out x y e.effect,
        d.rows,
      )

  -- After a successful replacement or restoration the lesson holds the requested room, or else the
  -- one it had: the room is virtual, or no other live lesson of the slot sits in it outside the
  -- lesson's flow.
  pub apply_schedule_override-HoldsRoom :
      (given : ApplyScheduleOverrideRequest) (out : ScheduleOverride) (s t : db.State)
      → Rewrites given
      → apply_schedule_override db now given s ≡ ok (out, t)
      → (lesson : ScheduleLesson) × Found (dated given) (db.tables s) lesson
        × HoldsRoom (db.tables t) lesson (target_location (dated given) lesson (db.tables s))
  apply_schedule_override-HoldsRoom given out s t w h =
      let (lesson, last, found, e, rows) = rewrite-Replaced given out s t w h in
      (lesson, found, holds_room (db.tables s) last (db.tables t) (dated given) lesson _ out e rows)

  -- A replacement or restoration succeeds only if the constraint of the lesson's day and every
  -- constraint of the teacher that the lesson gets permit it.
  pub apply_schedule_override-Permits :
      (given : ApplyScheduleOverrideRequest) (out : ScheduleOverride) (s t : db.State)
      → Rewrites given
      → apply_schedule_override db now given s ≡ ok (out, t)
      → (lesson : ScheduleLesson) × Found (dated given) (db.tables s) lesson
        × PermitsToday given.confirm_global_day_constraint
            (constraint_on (db.tables s) lesson.lesson_date)
        × PermitsTeacher
            (db.tables s)
            (replaced_lesson (dated given) lesson).teacher_id
            lesson.lesson_date
            given.confirm_constraints
  apply_schedule_override-Permits given out s t w h =
      let (lesson, last, found, e, rows) = rewrite-Replaced given out s t w h in
      (lesson, found, e.day, e.teacher)
