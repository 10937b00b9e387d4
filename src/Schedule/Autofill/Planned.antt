-- ===== src/Schedule/Autofill/Planned.antt =====
-- The rooms that AutofillLocations chooses (Service): free, and no room twice at one time.
use ispo_shedule_backend.Prelude.{
  ℕ, ◌+◌, ℤ, false, ◌||◌, ◌≡◌, Option, none, some, List, [], ◌∷◌, ◌++◌, string_eq, nat_eq, int_eq,
  arith, refl, sym, subst, ◌∙◌, ap, Option-cases, inl, inr, All, some_inj, Bool-cases, length,
  length-append, contains,
}
use ispo_shedule_backend.Prelude.{AllDistinct, AllDistinct-snoc, contains-append}
use ispo_shedule_backend.Prelude.Results.{ok}
use ispo_shedule_backend.Prelude.Transaction.{and_then-ok, pure-ok}
use ispo_shedule_backend.Schedule.Store.{Database}
use ispo_shedule_backend.Schedule.Rooms.Free.{query-ok}
use ispo_shedule_backend.Schedule.Dictionaries.{Location}
use ispo_shedule_backend.Schedule.Build.Defs.{ScheduleLessonView}
use ispo_shedule_backend.Schedule.Locations.{LocationMeta}
use ispo_shedule_backend.Schedule.Autofill.Defs.{
  LocationAutofillRequest, LocationAutofillAssignment, LocationAutofillResponse,
  LocationAutofillSlot, autofill_slot_eq, Occupied, AutofillQueries, lesson_view_needs_autofill,
  choose_free_location, slot_for, place_lesson, add_skipped, add_assigned,
}
use ispo_shedule_backend.Schedule.Autofill.Service.{autofill_lesson, autofill_lessons}

-- The room, day and pair of each lesson that was given a room.
unfoldable pub slots_of : List LocationAutofillAssignment → Occupied
slots_of [] = []
slots_of (a ∷ assignments) = elim a.location_id [
  | none ↦ slots_of assignments
  | some id ↦
      record { date = a.date; pair_number = a.pair_number; location_id = id } ∷ slots_of assignments
]

slots_of-skip :
    (assignments : List LocationAutofillAssignment) (a : LocationAutofillAssignment)
    → a.location_id ≡ none
    → slots_of (assignments ++ a ∷ []) ≡ slots_of assignments
unfolding slots_of
slots_of-skip [] a h = rw h refl
slots_of-skip (b ∷ assignments) a h = ground (arith, slots_of-skip assignments a h)

slots_of-assign :
    (assignments : List LocationAutofillAssignment) (a : LocationAutofillAssignment) (id : ℤ)
    → a.location_id ≡ some id
    → slots_of (assignments ++ a ∷ [])
      ≡ slots_of assignments
        ++ record { date = a.date; pair_number = a.pair_number; location_id = id } ∷ []
unfolding slots_of
slots_of-assign [] a id h = rw h refl
slots_of-assign (b ∷ assignments) a id h = ground (arith, slots_of-assign assignments a id h)

-- What the loop keeps to: the rooms given are free before, and pairwise different at one time.
pub record IsPlan (before : Occupied) (resp : LocationAutofillResponse) : Type 0 where
  pub free : All (λ slot. contains slot before ≡ false) (slots_of resp.assignments)
  pub distinct : AllDistinct (slots_of resp.assignments)
  pub counted : length (slots_of resp.assignments) ≡ resp.assigned
  pub total : length resp.assignments ≡ resp.assigned + resp.skipped

-- the occupied slots are those before, and those given
abbrev pub Tracks : Occupied → LocationAutofillResponse × Occupied → Type 0
Tracks before acc =
    (slot : LocationAutofillSlot)
    → contains slot acc.1 ≡ (contains slot before || contains slot (slots_of acc.0.assignments))

abbrev pub IsPlanned : Occupied → LocationAutofillResponse × Occupied → Type 0
IsPlanned before acc = IsPlan before acc.0 × Tracks before acc

skipped-IsPlanned :
    (before occupied : Occupied) (resp : LocationAutofillResponse) (a : LocationAutofillAssignment)
    → a.location_id ≡ none
    → IsPlanned before (resp, occupied)
    → IsPlanned before (add_skipped a resp, occupied)
skipped-IsPlanned before occupied resp a h (p, t) =
    let e = slots_of-skip resp.assignments a h in
    let total : length resp.assignments ≡ resp.assigned + resp.skipped = p.total in
    (
      record {
        free = subst (All (λ slot. contains slot before ≡ false)) (sym e) p.free;
        distinct = subst AllDistinct (sym e) p.distinct;
        counted = ap length e ∙ p.counted;
        total = omega (arith, length-append {0} resp.assignments (a ∷ []));
      },
      λ slot. t slot ∙ ap (λ l. contains slot before || contains slot l) (sym e),
    )

All-snoc {ℓ κ} :
    {A : Type ℓ} (P : A → Type κ) (xs : List A) (a : A) → All P xs → P a → All P (xs ++ a ∷ [])
All-snoc P [] a h p = (p, tt)
All-snoc P (x ∷ xs) a h p = (h.0, All-snoc P xs a h.1 p)

assigned-IsPlanned :
    (before occupied : Occupied) (resp : LocationAutofillResponse) (a : LocationAutofillAssignment)
    (slot : LocationAutofillSlot) (id : ℤ)
    → a.location_id ≡ some id
    → slot ≡ record { date = a.date; pair_number = a.pair_number; location_id = id }
    → contains slot occupied ≡ false
    → IsPlanned before (resp, occupied)
    → IsPlanned before (add_assigned a resp, slot ∷ occupied)
assigned-IsPlanned before occupied resp a slot id h own new (p, t) =
    let e : slots_of (resp.assignments ++ a ∷ []) ≡ slots_of resp.assignments ++ slot ∷ [] =
      slots_of-assign resp.assignments a id h
      ∙ ap (λ s. slots_of resp.assignments ++ s ∷ []) (sym own) in
    let total : length resp.assignments ≡ resp.assigned + resp.skipped = p.total in
    let counted : length (slots_of resp.assignments) ≡ resp.assigned = p.counted in
    let seen = t slot in
    (
      record {
        free = subst (All (λ s. contains s before ≡ false)) (sym e) (
            All-snoc (λ s. contains s before ≡ false) (slots_of resp.assignments) slot p.free
              (ground (arith, seen, new)));
        distinct = subst AllDistinct (sym e) (
            AllDistinct-snoc (slots_of resp.assignments) slot p.distinct
              (ground (arith, seen, new)));
        counted =
            ap length e ∙ omega (arith, length-append {0} (slots_of resp.assignments) (slot ∷ []));
        total = omega (arith, length-append {0} resp.assignments (a ∷ []));
      },
      λ s. ground (
        arith,
        t s,
        contains-append s (slots_of resp.assignments) (slot ∷ []),
        ap (contains s) e,
      ),
    )

chosen-free :
    (date : ℕ) (pair_number : ℤ) (candidates : List Location) (occupied : Occupied) (l : Location)
    → choose_free_location date pair_number candidates occupied ≡ some l
    → contains (record { date = date; pair_number = pair_number; location_id = l.id }) occupied
      ≡ false
unfolding choose_free_location
chosen-free date pair_number [] occupied l h = cc
chosen-free date pair_number (c ∷ candidates) occupied l h =
    elim (Bool-cases
      (contains (record { date = date; pair_number = pair_number; location_id = c.id }) occupied)) [
        | inl taken ↦ chosen-free date pair_number candidates occupied l (rw taken at h)
        | inr free ↦
            let e : c ≡ l = some_inj (rw free at h) in
            subst
              (λ k.
                contains (record { date = date; pair_number = pair_number; location_id = k.id })
                  occupied
                ≡ false)
              e free
      ]

place_lesson-IsPlanned :
    (before : Occupied) (lesson : ScheduleLessonView) (chosen : Option Location)
    (acc : LocationAutofillResponse × Occupied)
    → ((l : Location) → chosen ≡ some l → contains (slot_for lesson l) acc.1 ≡ false)
    → IsPlanned before acc
    → IsPlanned before (place_lesson lesson chosen acc)
unfolding place_lesson
place_lesson-IsPlanned before lesson none (resp, occupied) h p =
    skipped-IsPlanned before occupied resp _ refl p
place_lesson-IsPlanned before lesson (some l) (resp, occupied) h p =
    assigned-IsPlanned before occupied resp _ (slot_for lesson l) l.id refl refl (h l refl) p

module _ (db : Database) (q : AutofillQueries) where
  autofill_lesson-IsPlanned :
      (req : LocationAutofillRequest) (metas : List (ℤ × LocationMeta))
      (lesson : ScheduleLessonView) (before : Occupied)
      (acc out : LocationAutofillResponse × Occupied) (s t : db.State)
      → autofill_lesson db q req metas lesson acc s ≡ ok (out, t)
      → IsPlanned before acc
      → IsPlanned before out × (t ≡ s)
  unfolding autofill_lesson
  autofill_lesson-IsPlanned req metas lesson before (resp, occupied) out s t h p =
      elim (Bool-cases (lesson_view_needs_autofill lesson metas req.replace_virtual)) [
        | inr settled ↦
            let (e, f) = pure-ok _ _ _ _ (rw settled at h) in (subst (IsPlanned before) e p, sym f)
        | inl needed ↦ elim (Option-cases lesson.subject_id) [
          | inl nothing ↦
              let (e, f) = pure-ok _ _ _ _ (rw (needed, nothing) at h) in
              (subst (IsPlanned before) e (skipped-IsPlanned before occupied resp _ refl p), sym f)
          | inr (subject_id, taught) ↦
              let (candidates, u, read, h₁) = and_then-ok _ _ (rw (needed, taught) at h) in
              let (_, same) = query-ok db _ s u candidates read in
              let (e, f) = pure-ok _ _ _ _ h₁ in
              (
                subst (IsPlanned before) e (
                    place_lesson-IsPlanned before lesson _ (resp, occupied)
                      (chosen-free lesson.lesson_date.day lesson.pair_number candidates occupied)
                      p),
                sym f ∙ same,
              )
        ]
      ]

  pub autofill_lessons-IsPlanned :
      (req : LocationAutofillRequest) (metas : List (ℤ × LocationMeta))
      (rows : List ScheduleLessonView) (before : Occupied)
      (acc out : LocationAutofillResponse × Occupied) (s t : db.State)
      → autofill_lessons db q req metas rows acc s ≡ ok (out, t)
      → IsPlanned before acc
      → IsPlanned before out × (t ≡ s)
  unfolding autofill_lessons
  autofill_lessons-IsPlanned req metas [] before acc out s t h p =
      let (e, f) = pure-ok _ _ _ _ h in (subst (IsPlanned before) e p, sym f)
  autofill_lessons-IsPlanned req metas (lesson ∷ rows) before acc out s t h p =
      let (next, u, step, rest) = and_then-ok _ _ h in
      let (p₁, e₁) = autofill_lesson-IsPlanned req metas lesson before acc next s u step p in
      let (p₂, e₂) = autofill_lessons-IsPlanned req metas rows before next out u t rest p₁ in
      (p₂, e₂ ∙ e₁)
