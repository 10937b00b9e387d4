-- ===== src/Schedule/Rooms/Assigned.antt =====
-- internal/schedule/repository_rooms.go: what upsertRoomAssignmentForLesson leaves in the tables.
use ispo_shedule_backend.Prelude.{
  ℤ, String, true, ◌≡◌, ◌≢◌, refl, sym, ap, subst, ◌∙◌, Option, none, some, List, [], ◌∷◌, ◌++◌,
  ◌==◌, int_eq, find, arith, int_beq_iff, map, contains, ◌⊎◌, inl, inr, false,
}
use ispo_shedule_backend.Prelude.Results.{ok}
use ispo_shedule_backend.Prelude.Transaction.{and_then-ok, lift-ok}
use ispo_shedule_backend.Schedule.Models.{published, ScheduleLesson, RoomAssignment}
use ispo_shedule_backend.Schedule.Store.{Tables, Database, IsDatabase, replace_assignment}
use ispo_shedule_backend.Schedule.Rooms.Defs.{
  assignment_status, normalize_room_assignment, sits_in, write_assignment,
  upsert_room_assignment_for_lesson,
}
use ispo_shedule_backend.Schedule.Rooms.Free.{query-ok}

-- No lesson but `id` sits in a room that it did not sit in before.
abbrev pub OnlyMoves : ℤ → List RoomAssignment → List RoomAssignment → Type 0
OnlyMoves id before after =
    (location_id : ℤ) (sl : ScheduleLesson)
    → sl.id ≢ id
    → sits_in location_id after sl ≡ true
    → sits_in location_id before sl ≡ true

sits-append :
    (location_id : ℤ) (sl : ScheduleLesson) (row : RoomAssignment) (rows : List RoomAssignment)
    → sl.id ≢ row.schedule_lesson_id
    → sits_in location_id (rows ++ row ∷ []) sl ≡ true
    → sits_in location_id rows sl ≡ true
unfolding sits_in
sits-append location_id sl row [] n h =
    absurd (ground (arith, int_beq_iff row.schedule_lesson_id sl.id))
sits-append location_id sl row (r ∷ rows) n h = ground (arith, sits-append location_id sl row rows)

sits-replace :
    (location_id : ℤ) (sl : ScheduleLesson) (row : RoomAssignment) (rows : List RoomAssignment)
    → sl.id ≢ row.schedule_lesson_id
    → sits_in location_id (replace_assignment row rows) sl ≡ true
    → sits_in location_id rows sl ≡ true
unfolding sits_in
sits-replace location_id sl row [] n h = h
sits-replace location_id sl row (r ∷ rows) n h =
    ground (arith, int_beq_iff row.schedule_lesson_id sl.id, sits-replace location_id sl row rows)

-- the assignment of a lesson, as getRoomAssignmentForLesson selects it
unfoldable pub room_of : ℤ → List RoomAssignment → Option RoomAssignment
room_of lesson_id rows = find (λ a. a.schedule_lesson_id == lesson_id) rows

room_of-append :
    (lesson_id : ℤ) (row : RoomAssignment) (rows : List RoomAssignment)
    → room_of lesson_id rows ≡ none
    → row.schedule_lesson_id ≡ lesson_id
    → room_of lesson_id (rows ++ row ∷ []) ≡ some row
unfolding room_of
room_of-append lesson_id row [] h own = ground (arith, int_beq_iff row.schedule_lesson_id lesson_id)
room_of-append lesson_id row (r ∷ rows) h own = ground (arith, room_of-append lesson_id row rows)

room_of-replace :
    (lesson_id : ℤ) (row existing : RoomAssignment) (rows : List RoomAssignment)
    → room_of lesson_id rows ≡ some existing
    → row.id ≡ existing.id
    → row.schedule_lesson_id ≡ lesson_id
    → room_of lesson_id (replace_assignment row rows) ≡ some row
unfolding room_of
room_of-replace lesson_id row existing [] h same own = cc
room_of-replace lesson_id row existing (r ∷ rows) h same own = ground (
  arith,
  int_beq_iff r.id row.id,
  int_beq_iff row.schedule_lesson_id lesson_id,
  room_of-replace lesson_id row existing rows,
)

room_of-own :
    (lesson_id : ℤ) (existing : RoomAssignment) (rows : List RoomAssignment)
    → room_of lesson_id rows ≡ some existing
    → existing.schedule_lesson_id ≡ lesson_id
unfolding room_of
room_of-own lesson_id existing [] h = cc
room_of-own lesson_id existing (r ∷ rows) h =
    ground (arith, int_beq_iff r.schedule_lesson_id lesson_id, room_of-own lesson_id existing rows)

-- The two ways to write the row of a lesson: a new row of a fresh identifier, or its row replaced.
abbrev pub IsWritten : ℤ → List RoomAssignment → List RoomAssignment → Type 0
IsWritten lesson_id before after =
    ((row : RoomAssignment) × (row.schedule_lesson_id ≡ lesson_id)
      × (after ≡ before ++ row ∷ [])
      × (contains row.id (map (λ a. a.id) before) ≡ false))
    ⊎ ((row : RoomAssignment) × (existing : RoomAssignment) × (room_of lesson_id before
          ≡ some existing)
        × (row.id ≡ existing.id)
        × (row.schedule_lesson_id ≡ lesson_id)
        × (after ≡ replace_assignment row before))

-- What a successful write of a lesson's room has done.
pub record Assigned (before after : Tables) (lesson_id location_id : ℤ) : Type 0 where
  pub lessons : after.lessons ≡ before.lessons
  pub overrides : after.overrides ≡ before.overrides
  pub locations : after.locations ≡ before.locations
  pub moves : OnlyMoves lesson_id before.room_assignments after.room_assignments
  pub written : IsWritten lesson_id before.room_assignments after.room_assignments
  pub placed :
      (a : RoomAssignment) × (room_of lesson_id after.room_assignments ≡ some a)
      × (a.location_id ≡ location_id)
      × (a.status ≡ published)

abbrev assignment_row : ℤ → ℤ → String → RoomAssignment
assignment_row lesson_id location_id source = record {
  id = ℤ.pos 0;
  schedule_lesson_id = lesson_id;
  location_id = location_id;
  source = source;
  status = published;
}

normalize-kept :
    (lesson_id location_id : ℤ) (source : String) (out : RoomAssignment)
    → normalize_room_assignment (assignment_row lesson_id location_id source) ≡ ok out
    → (out.schedule_lesson_id ≡ lesson_id)
      × (out.location_id ≡ location_id)
      × (out.status ≡ published)
unfolding normalize_room_assignment assignment_status
normalize-kept lesson_id location_id source out h = ground arith

module _ (db : Database) (law : IsDatabase db) where
  created :
      (row out : RoomAssignment) (s t : db.State)
      → db.create_assignment row s ≡ ok (out, t)
      → room_of row.schedule_lesson_id (db.tables s).room_assignments ≡ none
      → row.status ≡ published
      → Assigned (db.tables s) (db.tables t) row.schedule_lesson_id row.location_id
  created row out s t h absent live =
      let (e, after) = law.create_assignment_ok row out s t h in
      let rows = (db.tables s).room_assignments in
      let own : out.schedule_lesson_id ≡ row.schedule_lesson_id =
        ap (λ r. r.schedule_lesson_id) e in
      let grown : (db.tables t).room_assignments ≡ rows ++ out ∷ [] =
        ap (λ u. u.room_assignments) after in
      record {
        lessons = ap (λ u. u.lessons) after;
        overrides = ap (λ u. u.overrides) after;
        locations = ap (λ u. u.locations) after;
        written = inl (out, own, grown, law.create_assignment_fresh row out s t h);
        moves = λ l sl n k.
            sits-append l sl out rows (subst (λ i. sl.id ≢ i) (sym own) n)
              (subst (λ rs. sits_in l rs sl ≡ true) grown k);
        placed = (
          out,
          ap (room_of row.schedule_lesson_id) grown
              ∙ room_of-append row.schedule_lesson_id out rows absent own,
          ap (λ r. r.location_id) e,
          ap (λ r. r.status) e ∙ live,
        );
      }

  saved :
      (row existing : RoomAssignment) (lesson_id : ℤ) (s t : db.State)
      → db.save_assignment row s ≡ ok (tt, t)
      → room_of lesson_id (db.tables s).room_assignments ≡ some existing
      → row.id ≡ existing.id
      → row.schedule_lesson_id ≡ lesson_id
      → row.status ≡ published
      → Assigned (db.tables s) (db.tables t) lesson_id row.location_id
  saved row existing lesson_id s t h found same own live =
      let after = law.save_assignment_ok row s t h in
      let rows = (db.tables s).room_assignments in
      let written : (db.tables t).room_assignments ≡ replace_assignment row rows =
        ap (λ u. u.room_assignments) after in
      record {
        lessons = ap (λ u. u.lessons) after;
        overrides = ap (λ u. u.overrides) after;
        locations = ap (λ u. u.locations) after;
        written = inr (row, existing, found, same, own, written);
        moves = λ l sl n k.
            sits-replace l sl row rows (subst (λ i. sl.id ≢ i) (sym own) n)
              (subst (λ rs. sits_in l rs sl ≡ true) written k);
        placed = (
          row,
          ap (room_of lesson_id) written
              ∙ room_of-replace lesson_id row existing rows found same own,
          refl,
          live,
        );
      }

  write_assignment-Assigned :
      (row : RoomAssignment) (existing : Option RoomAssignment) (lesson_id location_id : ℤ)
      (out : RoomAssignment) (s t : db.State)
      → write_assignment db row existing s ≡ ok (out, t)
      → room_of lesson_id (db.tables s).room_assignments ≡ existing
      → row.schedule_lesson_id ≡ lesson_id
      → row.location_id ≡ location_id
      → row.status ≡ published
      → Assigned (db.tables s) (db.tables t) lesson_id location_id
  unfolding write_assignment
  write_assignment-Assigned row none lesson_id location_id out s t h absent own place live =
      subst (λ i. Assigned (db.tables s) (db.tables t) i location_id) own
        (subst (Assigned (db.tables s) (db.tables t) row.schedule_lesson_id) place (
          created row out s t h
            (subst (λ i. room_of i (db.tables s).room_assignments ≡ none) (sym own) absent) live))
  write_assignment-Assigned row (some existing) lesson_id location_id out s t h found own place
        live =
      let next : RoomAssignment = record existing {
        location_id = row.location_id;
        source = row.source;
        status = published;
      } in
      let (_, u, p, h₁) = and_then-ok _ _ h in
      let end : u ≡ t = cc in
      let owner = room_of-own lesson_id existing (db.tables s).room_assignments found in
      subst (Assigned (db.tables s) (db.tables t) lesson_id) place (
        saved next existing lesson_id s t
          (subst (λ v. db.save_assignment next s ≡ ok (tt, v)) end p) found refl owner refl)

  -- what upsertRoomAssignmentForLesson leaves, if it succeeds
  pub upsert_room_assignment_for_lesson-Assigned :
      (lesson_id location_id : ℤ) (source : String) (out : RoomAssignment) (s t : db.State)
      → upsert_room_assignment_for_lesson db lesson_id location_id source s ≡ ok (out, t)
      → Assigned (db.tables s) (db.tables t) lesson_id location_id
  unfolding upsert_room_assignment_for_lesson room_of
  upsert_room_assignment_for_lesson-Assigned lesson_id location_id source out s t h =
      let (row, s₁, p, h₁) = and_then-ok _ _ h in
      let (fine, e₁) = lift-ok _ s s₁ p in
      let (own, place, live) = normalize-kept lesson_id location_id source row fine in
      let (existing, s₂, q, h₂) = and_then-ok _ _ h₁ in
      let (read, e₂) = query-ok db _ s₁ s₂ existing q in
      let e : s₂ ≡ s = e₂ ∙ e₁ in
      let h₃ : write_assignment db row existing s ≡ ok (out, t) =
        subst (λ u. write_assignment db row existing u ≡ ok (out, t)) e h₂ in
      let found : room_of lesson_id (db.tables s).room_assignments ≡ existing =
        sym (subst (λ u. existing ≡ room_of lesson_id (db.tables u).room_assignments) e₁ read) in
      write_assignment-Assigned row existing lesson_id location_id out s t h₃ found own place live
