-- ===== src/Schedule/Overrides/Steps.antt =====
-- internal/schedule: what the steps of applyExistingLessonOverride read and write.
use ispo_shedule_backend.Prelude.{
  ℤ, String, Bool, true, false, ◌≡◌, refl, sym, subst, ◌∙◌, Option, none, some, List, [], ◌∷◌, ◌==◌,
  string_eq, nat_eq, int_eq, find, filter, arith, int_beq_iff, Option-cases, inl, inr, some_inj,
}
use ispo_shedule_backend.Prelude.Results.{ok, err}
use ispo_shedule_backend.Prelude.Transaction.{and_then-ok}
use ispo_shedule_backend.Schedule.Models.{Time, published, ScheduleLesson, RoomAssignment}
use ispo_shedule_backend.Schedule.Errors.{record_not_found}
use ispo_shedule_backend.Schedule.Store.{Tables, Database, IsDatabase, replace_lesson}
use ispo_shedule_backend.Schedule.Lessons.Normalize.{date_only}
use ispo_shedule_backend.Schedule.Rooms.Defs.{location_is_virtual, is_conflict, conflicts, flow_of}
use ispo_shedule_backend.Schedule.Rooms.Free.{query-ok, IsFree, ensure_room_available-IsFree}
use ispo_shedule_backend.Schedule.Rooms.Assigned.{
  OnlyMoves, upsert_room_assignment_for_lesson-Assigned, room_of,
}
use ispo_shedule_backend.Schedule.Overrides.Defs.{
  lock_schedule_lesson_for_override, ensure_location, assign_location,
}
use ispo_shedule_backend.Schedule.Overrides.Rows.{ApplyScheduleOverrideRequest, is_target}

-- A saved row is what a lookup by its identifier finds, once the row existed.
pub find-replace_lesson :
    (p : ScheduleLesson → Bool) (row l : ScheduleLesson) (rows : List ScheduleLesson)
    → find p rows ≡ some l
    → row.id ≡ l.id
    → find (λ r. r.id == row.id) (replace_lesson row rows) ≡ some row
find-replace_lesson p row l [] h same = cc
find-replace_lesson p row l (r ∷ rows) h same =
    ground
      (arith, int_beq_iff r.id row.id, int_beq_iff row.id row.id, find-replace_lesson p row l rows)

filter-none :
    (p q : ScheduleLesson → Bool) (row : ScheduleLesson) (rows : List ScheduleLesson)
    → q row ≡ false
    → ((r : ScheduleLesson) → q r ≡ true → p r ≡ true)
    → filter p rows ≡ []
    → filter q (replace_lesson row rows) ≡ []
filter-none p q row [] gone weaker h = refl
filter-none p q row (r ∷ rows) gone weaker h =
    ground (arith, weaker r, filter-none p q row rows gone weaker)

weaker_conflict :
    (before after : List RoomAssignment) (id location_id : ℤ) (lesson_date : Time) (pair_number : ℤ)
    (flow : String) (sl : ScheduleLesson)
    → OnlyMoves id before after
    → is_conflict after location_id (date_only lesson_date) pair_number flow (some id) sl ≡ true
    → is_conflict before location_id (date_only lesson_date) pair_number flow (some id) sl ≡ true
weaker_conflict before after id location_id lesson_date pair_number flow sl moves h =
    ground (arith, int_beq_iff sl.id id, moves location_id sl)

conflicts_after :
    (before after : Tables) (row : ScheduleLesson) (id location_id : ℤ) (lesson_date : Time)
    (pair_number : ℤ) (flow : String)
    → row.id ≡ id
    → after.lessons ≡ replace_lesson row before.lessons
    → OnlyMoves id before.room_assignments after.room_assignments
    → conflicts before location_id (date_only lesson_date) pair_number flow (some id) ≡ []
    → conflicts after location_id (date_only lesson_date) pair_number flow (some id) ≡ []
unfolding conflicts
conflicts_after before after row id location_id lesson_date pair_number flow own lessons moves h =
    let q : ScheduleLesson → Bool =
      is_conflict after.room_assignments location_id (date_only lesson_date) pair_number flow
        (some id) in
    subst (λ ls. filter q ls ≡ []) (sym lessons)
      (filter-none _ q row before.lessons (ground (arith, int_beq_iff row.id id))
        (λ r.
          weaker_conflict before.room_assignments after.room_assignments id location_id lesson_date
            pair_number flow r moves)
        h)

-- A room stays free for a lesson when that lesson is rewritten and given a room.
pub IsFree-replace_lesson :
    (before after : Tables) (row : ScheduleLesson) (id location_id : ℤ) (lesson_date : Time)
    (pair_number : ℤ) (flow_key : Option String)
    → row.id ≡ id
    → after.lessons ≡ replace_lesson row before.lessons
    → after.locations ≡ before.locations
    → OnlyMoves id before.room_assignments after.room_assignments
    → IsFree before location_id lesson_date pair_number flow_key (some id)
    → IsFree after location_id lesson_date pair_number flow_key (some id)
IsFree-replace_lesson before after row id location_id lesson_date pair_number flow_key own lessons
      places moves (inl virtual) =
    inl (subst (λ l. location_is_virtual l location_id ≡ true) (sym places) virtual)
IsFree-replace_lesson before after row id location_id lesson_date pair_number flow_key own lessons
      places moves (inr free) =
    inr (
      conflicts_after before after row id location_id lesson_date pair_number (flow_of flow_key) own
        lessons moves free)

-- The lesson has this room, and no draft of it.
abbrev pub IsRoom : ℤ → ℤ → List RoomAssignment → Type 0
IsRoom lesson_id location_id rows =
    (a : RoomAssignment) × (room_of lesson_id rows ≡ some a)
    × (a.location_id ≡ location_id)
    × (a.status ≡ published)

pub record AssignedAny (before after : Tables) (lesson_id : ℤ) (location : Option ℤ) : Type 0 where
  pub lessons : after.lessons ≡ before.lessons
  pub overrides : after.overrides ≡ before.overrides
  pub locations : after.locations ≡ before.locations
  pub moves : OnlyMoves lesson_id before.room_assignments after.room_assignments
  pub placed : (id : ℤ) → location ≡ some id → IsRoom lesson_id id after.room_assignments

module _ (db : Database) (now : Time) where
  pub lock-ok :
      (req : ApplyScheduleOverrideRequest) (lesson : ScheduleLesson) (s t : db.State)
      → lock_schedule_lesson_for_override db now req s ≡ ok (lesson, t)
      → (find (is_target req req.schedule_lesson_id) (db.tables s).lessons ≡ some lesson) × (t ≡ s)
  unfolding lock_schedule_lesson_for_override
  lock-ok req lesson s t h =
      let (row, s₁, p, h₁) = and_then-ok _ _ h in
      let (read, e₁) = query-ok db _ s s₁ row p in
      elim (Option-cases row) [
        | inl missing ↦
            let h₂ : err record_not_found ≡ ok (lesson, t) = rw missing at h₁ in absurd (cc)
        | inr (l, found) ↦
            let h₂ : ok (l, s₁) ≡ ok (lesson, t) = rw found at h₁ in (sym read ∙ found ∙ cc, cc)
      ]

  pub ensure_location-ok :
      (location : Option ℤ) (lesson_date : Time) (pair_number : ℤ) (flow_key : Option String)
      (exclude : Option ℤ) (s t : db.State)
      → ensure_location db now location lesson_date pair_number flow_key exclude s ≡ ok (tt, t)
      → ((id : ℤ)
          → location ≡ some id
          → IsFree (db.tables s) id lesson_date pair_number flow_key exclude)
        × (t ≡ s)
  unfolding ensure_location
  ensure_location-ok none lesson_date pair_number flow_key exclude s t h = (λ id e. cc, cc)
  ensure_location-ok (some location_id) lesson_date pair_number flow_key exclude s t h =
      let (free, e) =
        ensure_room_available-IsFree db location_id lesson_date pair_number flow_key exclude s t
          h in
      (
        λ id p.
            subst (λ l. IsFree (db.tables s) l lesson_date pair_number flow_key exclude)
              (some_inj p) free,
        e,
      )

  -- What giving a lesson an optional room leaves: nothing changes without one.
  pub assign_location-ok :
      (law : IsDatabase db) (location : Option ℤ) (lesson : ScheduleLesson) (s t : db.State)
      → assign_location db now location lesson s ≡ ok (tt, t)
      → AssignedAny (db.tables s) (db.tables t) lesson.id location
  unfolding assign_location
  assign_location-ok law none lesson s t h =
      let same : s ≡ t = cc in
      subst (λ u. AssignedAny (db.tables s) (db.tables u) lesson.id none) same
        (record {
          lessons = refl;
          overrides = refl;
          locations = refl;
          moves = λ l sl n k. k;
          placed = λ id e. cc;
        })
  assign_location-ok law (some location_id) lesson s t h =
      let (out, u, p, h₁) = and_then-ok _ _ h in
      let end : u ≡ t = cc in
      let a =
        upsert_room_assignment_for_lesson-Assigned db law lesson.id location_id "replacement" out s
          u p in
      subst (λ v. AssignedAny (db.tables s) (db.tables v) lesson.id (some location_id)) end
        (record {
          lessons = a.lessons;
          overrides = a.overrides;
          locations = a.locations;
          moves = a.moves;
          placed = λ id e.
              subst (λ i. IsRoom lesson.id i (db.tables u).room_assignments) (some_inj e) a.placed;
        })
