-- ===== src/Schedule/Autofill/Written.antt =====
-- What AutofillLocations writes (Service).
use ispo_shedule_backend.Prelude.{
  ◌+◌, ℤ, not, ◌≡◌, Option, none, some, List, [], ◌∷◌, ◌++◌, map, ◌==◌, string_eq, nat_eq, pair_eq,
  int_eq, keys, arith, refl, sym, subst, ◌∙◌, ap, inl, inr, Bool-cases, length, length-append,
  filter, contains,
}
use ispo_shedule_backend.Prelude.{filter-filter, filter-cong}
use mathlib.Core.List.{append_assoc, append-nil, map-append}
use ispo_shedule_backend.Prelude.{contains-append}
use ispo_shedule_backend.Prelude.Results.{Result, ok}
use ispo_shedule_backend.Prelude.Transaction.{and_then-ok, pure-ok}
use ispo_shedule_backend.Schedule.Models.{RoomAssignment}
use ispo_shedule_backend.Schedule.Errors.{Error}
use ispo_shedule_backend.Schedule.Store.{Tables, Database, IsDatabase}
use ispo_shedule_backend.Schedule.Rooms.Defs.{upsert_room_assignment_for_lesson}
use ispo_shedule_backend.Schedule.Rooms.Free.{query-ok}
use ispo_shedule_backend.Schedule.Rooms.Reassigned.{
  others, HasKeys, Reassigned, upsert_room_assignment_for_lesson-Reassigned,
}
use ispo_shedule_backend.Schedule.Autofill.Defs.{
  LocationAutofillAssignment, LocationAutofillResponse, AutofillQueries,
}
use ispo_shedule_backend.Schedule.Autofill.Service.{count_write, write_at, write_all}
use ispo_shedule_backend.Schedule.Autofill.Planned.{slots_of}

-- The lessons that were given a room.
abbrev pub ids_at : LocationAutofillAssignment → Option ℤ → List ℤ
ids_at a none = []
ids_at a (some location_id) = a.schedule_lesson_id ∷ []

unfoldable pub placed_ids : List LocationAutofillAssignment → List ℤ
placed_ids [] = []
placed_ids (a ∷ assignments) = ids_at a a.location_id ++ placed_ids assignments

-- the rows of the lessons other than `ids`
abbrev pub rows_besides : List ℤ → List RoomAssignment → List RoomAssignment
rows_besides ids = filter (λ a. not (contains a.schedule_lesson_id ids))

-- Only the lessons `ids` are moved: no lesson is changed, and the assignments of all others are the
-- same rows, under distinct identifiers.
pub record OnlyPlaces (ids : List ℤ) (before after : Tables) : Type 0 where
  pub lessons : after.lessons ≡ before.lessons
  pub others_kept :
      rows_besides ids after.room_assignments ≡ rows_besides ids before.room_assignments
  pub keys : HasKeys after.room_assignments

abbrev pub nothing_placed :
    (ids : List ℤ) (t : Tables) → HasKeys t.room_assignments → OnlyPlaces ids t t
nothing_placed ids t keys = record { lessons = refl; others_kept = refl; keys = keys }

-- The assignments keep what they say of rooms, and their number.
pub record Rewrites (assignments : List LocationAutofillAssignment)
    (resp out : LocationAutofillResponse) : Type 0 where
  pub lesson_ids :
      map (λ a. a.schedule_lesson_id) out.assignments
      ≡ map (λ a. a.schedule_lesson_id) resp.assignments
        ++ map (λ a. a.schedule_lesson_id) assignments
  pub slots : slots_of out.assignments ≡ slots_of resp.assignments ++ slots_of assignments
  pub size : length out.assignments ≡ length resp.assignments + length assignments
  pub placed : placed_ids out.assignments ≡ placed_ids resp.assignments ++ placed_ids assignments
  pub assigned : out.assigned ≡ resp.assigned
  pub skipped : out.skipped ≡ resp.skipped

slots_of-append :
    (xs ys : List LocationAutofillAssignment) → slots_of (xs ++ ys) ≡ slots_of xs ++ slots_of ys
unfolding slots_of
slots_of-append [] ys = refl
slots_of-append (x ∷ xs) ys = ground (arith, slots_of-append xs ys)

placed_ids-append :
    (xs ys : List LocationAutofillAssignment)
    → placed_ids (xs ++ ys) ≡ placed_ids xs ++ placed_ids ys
unfolding placed_ids
placed_ids-append [] ys = refl
placed_ids-append (x ∷ xs) ys =
    ap (λ l. ids_at x x.location_id ++ l) (placed_ids-append xs ys)
    ∙ sym (append_assoc (ids_at x x.location_id) (placed_ids xs) (placed_ids ys))

appended :
    (a b : LocationAutofillAssignment) (resp out : LocationAutofillResponse)
    → slots_of (b ∷ []) ≡ slots_of (a ∷ [])
    → placed_ids (b ∷ []) ≡ placed_ids (a ∷ [])
    → b.schedule_lesson_id ≡ a.schedule_lesson_id
    → out.assignments ≡ resp.assignments ++ b ∷ []
    → out.assigned ≡ resp.assigned
    → out.skipped ≡ resp.skipped
    → Rewrites (a ∷ []) resp out
appended a b resp out same ids own e assigned skipped = record {
  lesson_ids =
      ap (map (λ r. r.schedule_lesson_id)) e
      ∙ map-append (λ r. r.schedule_lesson_id) resp.assignments (b ∷ [])
      ∙ ap (λ i. map (λ r. r.schedule_lesson_id) resp.assignments ++ i ∷ []) own;
  slots =
      ap slots_of e
      ∙ slots_of-append resp.assignments (b ∷ [])
      ∙ ap (λ l. slots_of resp.assignments ++ l) same;
  size = ap length e ∙ length-append resp.assignments (b ∷ []);
  placed =
      ap placed_ids e
      ∙ placed_ids-append resp.assignments (b ∷ [])
      ∙ ap (λ l. placed_ids resp.assignments ++ l) ids;
  assigned = assigned;
  skipped = skipped;
}

counted-Rewrites :
    (existing : Option RoomAssignment) (a : LocationAutofillAssignment)
    (resp : LocationAutofillResponse)
    → Rewrites (a ∷ []) resp (count_write existing a resp)
unfolding count_write slots_of placed_ids
counted-Rewrites none a resp =
    appended a (record a { assignment_action = "created" }) resp _ refl refl refl refl refl refl
counted-Rewrites (some existing) a resp =
    appended a (record a { assignment_action = "updated" }) resp _ refl refl refl refl refl refl

rows_besides-append :
    (first rest : List ℤ) (rows : List RoomAssignment)
    → (rows_besides rest (rows_besides first rows) ≡ rows_besides (first ++ rest) rows)
      × (rows_besides first (rows_besides rest rows) ≡ rows_besides (first ++ rest) rows)
rows_besides-append first rest rows = (
  filter-filter _ _ _ rows (λ a. ground (arith, contains-append a.schedule_lesson_id first rest)),
  filter-filter _ _ _ rows (λ a. ground (arith, contains-append a.schedule_lesson_id first rest)),
)

both_places :
    (first rest : List ℤ) (a b c : Tables)
    → OnlyPlaces first a b
    → OnlyPlaces rest b c
    → OnlyPlaces (first ++ rest) a c
both_places first rest a b c h k =
    let (_, c₂) = rows_besides-append first rest c.room_assignments in
    let (b₁, b₂) = rows_besides-append first rest b.room_assignments in
    let (a₁, _) = rows_besides-append first rest a.room_assignments in
    record {
      lessons = k.lessons ∙ h.lessons;
      others_kept =
          sym c₂
          ∙ ap (rows_besides first) k.others_kept
          ∙ b₂
          ∙ sym b₁
          ∙ ap (rows_besides rest) h.others_kept
          ∙ a₁;
      keys = k.keys;
    }

one_placed :
    (lesson_id location_id : ℤ) (before after : Tables)
    → Reassigned before after lesson_id location_id
    → OnlyPlaces (lesson_id ∷ []) before after
one_placed lesson_id location_id before after r =
    let same : (rows : List RoomAssignment)
        → rows_besides (lesson_id ∷ []) rows ≡ others lesson_id rows =
      λ rows. filter-cong _ _ rows (λ a. ground arith) in
    record {
      lessons = r.assigned.lessons;
      others_kept =
          same after.room_assignments ∙ r.others_kept ∙ sym (same before.room_assignments);
      keys = r.keys;
    }

rewritten :
    (a : LocationAutofillAssignment) (assignments : List LocationAutofillAssignment)
    (resp next out : LocationAutofillResponse)
    → Rewrites (a ∷ []) resp next
    → Rewrites assignments next out
    → Rewrites (a ∷ assignments) resp out
rewritten a assignments resp next out h k = record {
  lesson_ids =
      k.lesson_ids
      ∙ ap (λ l. l ++ map (λ r. r.schedule_lesson_id) assignments) h.lesson_ids
      ∙ append_assoc (map (λ r. r.schedule_lesson_id) resp.assignments) (a.schedule_lesson_id ∷ [])
          (map (λ r. r.schedule_lesson_id) assignments);
  slots =
      k.slots
      ∙ ap (λ l. l ++ slots_of assignments) h.slots
      ∙ append_assoc (slots_of resp.assignments) (slots_of (a ∷ [])) (slots_of assignments)
      ∙ ap (λ l. slots_of resp.assignments ++ l) (sym (slots_of-append (a ∷ []) assignments));
  size =
      let p : length next.assignments ≡ length resp.assignments + 1 = h.size in
      let r : length out.assignments ≡ length next.assignments + length assignments = k.size in
      omega arith;
  placed =
      k.placed
      ∙ ap (λ l. l ++ placed_ids assignments) h.placed
      ∙ append_assoc (placed_ids resp.assignments) (placed_ids (a ∷ [])) (placed_ids assignments)
      ∙ ap (λ l. placed_ids resp.assignments ++ l) (sym (placed_ids-append (a ∷ []) assignments));
  assigned = k.assigned ∙ h.assigned;
  skipped = k.skipped ∙ h.skipped;
}

module _ (db : Database) (law : IsDatabase db) (q : AutofillQueries) where
  -- one assignment that is passed over, or one that is written
  passed :
      (a : LocationAutofillAssignment) (ids : List ℤ) (resp out : LocationAutofillResponse)
      (s t : db.State)
      → HasKeys (db.tables s).room_assignments
      → ◌≡◌ {A = Result Error (LocationAutofillResponse × db.State)}
          (ok (record resp { assignments = resp.assignments ++ a ∷ [] }, s))
          (ok (out, t))
      → OnlyPlaces ids (db.tables s) (db.tables t) × Rewrites (a ∷ []) resp out
  passed a ids resp out s t keys h =
      let (e, f) = pure-ok _ _ _ _ h in
      (
        subst (λ u. OnlyPlaces ids (db.tables s) (db.tables u)) f
            (nothing_placed ids (db.tables s) keys),
        subst (Rewrites (a ∷ []) resp) e (appended a a resp _ refl refl refl refl refl refl),
      )

  write_at-OnlyPlaces :
      (a : LocationAutofillAssignment) (place : Option ℤ) (resp out : LocationAutofillResponse)
      (s t : db.State)
      → HasKeys (db.tables s).room_assignments
      → write_at db q a resp place s ≡ ok (out, t)
      → OnlyPlaces (ids_at a place) (db.tables s) (db.tables t) × Rewrites (a ∷ []) resp out
  unfolding write_at
  write_at-OnlyPlaces a none resp out s t keys h = passed a [] resp out s t keys h
  write_at-OnlyPlaces a (some location_id) resp out s t keys h =
      elim (Bool-cases (a.status == "assigned")) [
        | inr other ↦ passed a (a.schedule_lesson_id ∷ []) resp out s t keys (rw other at h)
        | inl live ↦
            let (existing, u, read, h₁) = and_then-ok _ _ (rw live at h) in
            let (_, same) = query-ok db _ s u existing read in
            let (written, v, wrote, h₂) = and_then-ok _ _ h₁ in
            let (e, f) = pure-ok _ _ _ _ h₂ in
            let wrote₁ =
              subst
                (λ k.
                  upsert_room_assignment_for_lesson db a.schedule_lesson_id location_id "auto" k
                  ≡ ok (written, v))
                same wrote in
            let w =
              upsert_room_assignment_for_lesson-Reassigned db law a.schedule_lesson_id location_id
                "auto" written s v keys wrote₁ in
            (
              subst (λ k. OnlyPlaces (a.schedule_lesson_id ∷ []) (db.tables s) (db.tables k)) f
                  (one_placed a.schedule_lesson_id location_id _ _ w),
              subst (Rewrites (a ∷ []) resp) e (counted-Rewrites existing a resp),
            )
      ]

  pub write_all-OnlyPlaces :
      (assignments : List LocationAutofillAssignment) (resp out : LocationAutofillResponse)
      (s t : db.State)
      → HasKeys (db.tables s).room_assignments
      → write_all db q assignments resp s ≡ ok (out, t)
      → OnlyPlaces (placed_ids assignments) (db.tables s) (db.tables t)
        × Rewrites assignments resp out
  unfolding write_all placed_ids slots_of
  write_all-OnlyPlaces [] resp out s t keys h =
      let (e, f) = pure-ok _ _ _ _ h in
      (
        subst (λ u. OnlyPlaces [] (db.tables s) (db.tables u)) f
            (nothing_placed [] (db.tables s) keys),
        subst (Rewrites [] resp) e (record {
          lesson_ids = sym (append-nil (map (λ r. r.schedule_lesson_id) resp.assignments));
          slots = sym (append-nil (slots_of resp.assignments));
          placed = sym (append-nil (placed_ids resp.assignments));
          size = omega arith;
          assigned = refl;
          skipped = refl;
        }),
      )
  write_all-OnlyPlaces (a ∷ assignments) resp out s t keys h =
      let (next, u, step, rest) = and_then-ok _ _ h in
      let (p₁, r₁) = write_at-OnlyPlaces a a.location_id resp next s u keys step in
      let (p₂, r₂) = write_all-OnlyPlaces assignments next out u t p₁.keys rest in
      (
        both_places (ids_at a a.location_id) (placed_ids assignments) _ _ _ p₁ p₂,
        rewritten a assignments resp next out r₁ r₂,
      )
