-- ===== src/Schedule/Rooms/Reassigned.antt =====
-- internal/schedule/repository_rooms.go: the write of a lesson's room leaves the rows of all other
-- lessons as they were, since identifiers are primary keys.
use ispo_shedule_backend.Prelude.{
  ℤ, String, true, false, not, ◌≡◌, ◌≢◌, some, List, [], ◌∷◌, ◌++◌, map, ◌==◌, string_eq, nat_eq,
  pair_eq, int_eq, int_beq_iff, keys, arith, refl, sym, subst, ◌∙◌, ap, inl, inr, some_inj,
  Bool-cases, filter, contains,
}
use ispo_shedule_backend.Prelude.{AllDistinct, AllDistinct-snoc}
use ispo_shedule_backend.Prelude.Results.{ok}
use ispo_shedule_backend.Schedule.Models.{RoomAssignment}
use ispo_shedule_backend.Schedule.Store.{Tables, Database, IsDatabase, replace_assignment}
use ispo_shedule_backend.Schedule.Rooms.Defs.{upsert_room_assignment_for_lesson}
use ispo_shedule_backend.Schedule.Rooms.Assigned.{
  room_of, Assigned, upsert_room_assignment_for_lesson-Assigned,
}

-- the rows of the other lessons
abbrev pub others : ℤ → List RoomAssignment → List RoomAssignment
others lesson_id = filter (λ a. not (a.schedule_lesson_id == lesson_id))

abbrev pub row_ids : List RoomAssignment → List ℤ
row_ids = map (λ a. a.id)

-- The identifiers are a primary key.
abbrev pub HasKeys : List RoomAssignment → Type 0
HasKeys rows = AllDistinct (row_ids rows)

others-append :
    (lesson_id : ℤ) (row : RoomAssignment) (rows : List RoomAssignment)
    → row.schedule_lesson_id ≡ lesson_id
    → others lesson_id (rows ++ row ∷ []) ≡ others lesson_id rows
others-append lesson_id row [] own = ground (arith, int_beq_iff row.schedule_lesson_id lesson_id)
others-append lesson_id row (r ∷ rows) own = ground (arith, others-append lesson_id row rows own)

row_ids-append :
    (row : RoomAssignment) (rows : List RoomAssignment)
    → row_ids (rows ++ row ∷ []) ≡ row_ids rows ++ row.id ∷ []
row_ids-append row [] = refl
row_ids-append row (r ∷ rows) = ap (λ ids. r.id ∷ ids) (row_ids-append row rows)

replace_absent :
    (row : RoomAssignment) (rows : List RoomAssignment)
    → contains row.id (row_ids rows) ≡ false
    → replace_assignment row rows ≡ rows
replace_absent row [] h = refl
replace_absent row (r ∷ rows) h =
    ground (arith, h, replace_absent row rows, int_beq_iff row.id r.id, int_beq_iff r.id row.id)

row_ids-replace :
    (row : RoomAssignment) (rows : List RoomAssignment)
    → row_ids (replace_assignment row rows) ≡ row_ids rows
row_ids-replace row [] = refl
row_ids-replace row (r ∷ rows) = ground (arith, row_ids-replace row rows, int_beq_iff r.id row.id)

room_of-contains :
    (lesson_id : ℤ) (existing : RoomAssignment) (rows : List RoomAssignment)
    → room_of lesson_id rows ≡ some existing
    → contains existing.id (row_ids rows) ≡ true
unfolding room_of
room_of-contains lesson_id existing [] h = cc
room_of-contains lesson_id existing (r ∷ rows) h =
    ground (arith, h, room_of-contains lesson_id existing rows, int_beq_iff existing.id r.id)

others-replace :
    (lesson_id : ℤ) (row existing : RoomAssignment) (rows : List RoomAssignment)
    → HasKeys rows
    → room_of lesson_id rows ≡ some existing
    → row.id ≡ existing.id
    → row.schedule_lesson_id ≡ lesson_id
    → others lesson_id (replace_assignment row rows) ≡ others lesson_id rows
unfolding room_of
others-replace lesson_id row existing [] keys h same own = cc
others-replace lesson_id row existing (r ∷ rows) keys h same own =
    elim (Bool-cases (r.schedule_lesson_id == lesson_id)) [
      | inl mine ↦
          let e : r ≡ existing = some_inj (rw mine at h) in
          let p : r.id ≡ row.id = ap (λ a. a.id) e ∙ sym same in
          let absent : contains row.id (row_ids rows) ≡ false =
            subst (λ i. contains i (row_ids rows) ≡ false) p keys.0 in
          ground (
            arith,
            mine,
            own,
            p,
            int_beq_iff r.id row.id,
            int_beq_iff row.schedule_lesson_id lesson_id,
            replace_absent row rows absent,
          )
      | inr other ↦
          let found : room_of lesson_id rows ≡ some existing = rw other at h in
          let there = room_of-contains lesson_id existing rows found in
          let rest = others-replace lesson_id row existing rows keys.1 found same own in
          let n : r.id ≢ row.id =
            λ p. cc (subst (λ i. contains i (row_ids rows) ≡ false) (p ∙ same) keys.0) in
          ground (arith, other, n, int_beq_iff r.id row.id, rest)
    ]

-- What the write leaves of the assignments of rooms.
pub record Reassigned (before after : Tables) (lesson_id location_id : ℤ) : Type 0 where
  pub assigned : Assigned before after lesson_id location_id
  pub others_kept :
      others lesson_id after.room_assignments ≡ others lesson_id before.room_assignments
  pub keys : HasKeys after.room_assignments

written-Reassigned :
    (before after : Tables) (lesson_id location_id : ℤ)
    → HasKeys before.room_assignments
    → Assigned before after lesson_id location_id
    → Reassigned before after lesson_id location_id
written-Reassigned before after lesson_id location_id keys a = elim a.written [
  | inl (row, own, grown, fresh) ↦ record {
    assigned = a;
    others_kept =
        ap (others lesson_id) grown ∙ others-append lesson_id row before.room_assignments own;
    keys =
        subst AllDistinct (sym (ap row_ids grown ∙ row_ids-append row before.room_assignments))
          (AllDistinct-snoc (row_ids before.room_assignments) row.id keys fresh);
  }
  | inr (row, existing, found, same, own, replaced) ↦ record {
    assigned = a;
    others_kept =
        ap (others lesson_id) replaced
        ∙ others-replace lesson_id row existing before.room_assignments keys found same own;
    keys =
        subst AllDistinct (sym (ap row_ids replaced ∙ row_ids-replace row before.room_assignments))
          keys;
  }
]

module _ (db : Database) (law : IsDatabase db) where
  -- If the identifiers of the assignments are distinct, a lesson that is given a room has that room
  -- afterwards, published; the assignments of all other lessons are the same rows as before, no
  -- lesson is changed, and the identifiers stay distinct.
  pub upsert_room_assignment_for_lesson-Reassigned :
      (lesson_id location_id : ℤ) (source : String) (out : RoomAssignment) (s t : db.State)
      → HasKeys (db.tables s).room_assignments
      → upsert_room_assignment_for_lesson db lesson_id location_id source s ≡ ok (out, t)
      → Reassigned (db.tables s) (db.tables t) lesson_id location_id
  upsert_room_assignment_for_lesson-Reassigned lesson_id location_id source out s t keys h =
      written-Reassigned (db.tables s) (db.tables t) lesson_id location_id keys
        (upsert_room_assignment_for_lesson-Assigned db law lesson_id location_id source out s t h)
