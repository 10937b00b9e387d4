-- ===== src/Schedule/Autofill/Considered.antt =====
-- Which lessons AutofillLocations answers for (Service): each that wants a room, once and in order.
use ispo_shedule_backend.Prelude.{
  ℤ, Bool, ◌≡◌, Option, none, some, List, [], ◌∷◌, ◌++◌, map, string_eq, nat_eq, pair_eq, int_eq,
  refl, sym, ◌∙◌, ap, Option-cases, inl, inr, Bool-cases, filter,
}
use mathlib.Core.List.{append_assoc, append-nil, map-append}
use ispo_shedule_backend.Prelude.Results.{ok}
use ispo_shedule_backend.Prelude.Transaction.{and_then-ok, pure-ok}
use ispo_shedule_backend.Schedule.Store.{Database}
use ispo_shedule_backend.Schedule.Dictionaries.{Location}
use ispo_shedule_backend.Schedule.Build.Defs.{ScheduleLessonView}
use ispo_shedule_backend.Schedule.Locations.{LocationMeta}
use ispo_shedule_backend.Schedule.Autofill.Defs.{
  LocationAutofillRequest, LocationAutofillAssignment, LocationAutofillResponse, Occupied,
  AutofillQueries, lesson_view_needs_autofill, place_lesson,
}
use ispo_shedule_backend.Schedule.Autofill.Service.{autofill_lesson, autofill_lessons}

-- the lessons that the assignments of a response are for
abbrev pub answered_ids : List LocationAutofillAssignment → List ℤ
answered_ids = map (λ a. a.schedule_lesson_id)

-- the lessons without a room, and those in a virtual room if it is to be replaced
unfoldable pub wanting_ids : List ScheduleLessonView → List (ℤ × LocationMeta) → Bool → List ℤ
wanting_ids rows metas replace_virtual =
    map (λ l. l.id) (filter (λ l. lesson_view_needs_autofill l metas replace_virtual) rows)

place_lesson-answered_ids :
    (lesson : ScheduleLessonView) (chosen : Option Location) (resp : LocationAutofillResponse)
    (occupied : Occupied)
    → answered_ids (place_lesson lesson chosen (resp, occupied)).0.assignments
      ≡ answered_ids resp.assignments ++ lesson.id ∷ []
unfolding place_lesson
place_lesson-answered_ids lesson none resp occupied =
    map-append (λ a. a.schedule_lesson_id) resp.assignments _
place_lesson-answered_ids lesson (some l) resp occupied =
    map-append (λ a. a.schedule_lesson_id) resp.assignments _

module _ (db : Database) (q : AutofillQueries) where
  autofill_lesson-answered_ids :
      (req : LocationAutofillRequest) (metas : List (ℤ × LocationMeta))
      (lesson : ScheduleLessonView) (acc out : LocationAutofillResponse × Occupied) (s t : db.State)
      → autofill_lesson db q req metas lesson acc s ≡ ok (out, t)
      → answered_ids out.0.assignments
        ≡ answered_ids acc.0.assignments ++ wanting_ids (lesson ∷ []) metas req.replace_virtual
  unfolding autofill_lesson wanting_ids
  autofill_lesson-answered_ids req metas lesson (resp, occupied) out s t h =
      elim (Bool-cases (lesson_view_needs_autofill lesson metas req.replace_virtual)) [
        | inr settled ↦
            let (e, f) = pure-ok _ _ _ _ (rw settled at h) in
            rw settled (
              ap (λ o. answered_ids o.0.assignments) (sym e)
              ∙ sym (append-nil (answered_ids resp.assignments)))
        | inl needed ↦ elim (Option-cases lesson.subject_id) [
          | inl nothing ↦
              let (e, f) = pure-ok _ _ _ _ (rw (needed, nothing) at h) in
              rw needed (
                ap (λ o. answered_ids o.0.assignments) (sym e)
                ∙ map-append (λ a. a.schedule_lesson_id) resp.assignments _)
          | inr (subject_id, taught) ↦
              let (candidates, u, read, h₁) = and_then-ok _ _ (rw (needed, taught) at h) in
              let (e, f) = pure-ok _ _ _ _ h₁ in
              rw needed (
                ap (λ o. answered_ids o.0.assignments) (sym e)
                ∙ place_lesson-answered_ids lesson _ resp occupied)
        ]
      ]

  wanting_ids-cons :
      (lesson : ScheduleLessonView) (rows : List ScheduleLessonView)
      (metas : List (ℤ × LocationMeta)) (replace_virtual : Bool)
      → wanting_ids (lesson ∷ []) metas replace_virtual ++ wanting_ids rows metas replace_virtual
        ≡ wanting_ids (lesson ∷ rows) metas replace_virtual
  unfolding wanting_ids
  wanting_ids-cons lesson rows metas replace_virtual =
      elim (Bool-cases (lesson_view_needs_autofill lesson metas replace_virtual)) [
        | inr settled ↦ rw settled refl
        | inl needed ↦ rw needed refl
      ]

  pub autofill_lessons-answered_ids :
      (req : LocationAutofillRequest) (metas : List (ℤ × LocationMeta))
      (rows : List ScheduleLessonView) (acc out : LocationAutofillResponse × Occupied)
      (s t : db.State)
      → autofill_lessons db q req metas rows acc s ≡ ok (out, t)
      → answered_ids out.0.assignments
        ≡ answered_ids acc.0.assignments ++ wanting_ids rows metas req.replace_virtual
  unfolding autofill_lessons wanting_ids
  autofill_lessons-answered_ids req metas [] acc out s t h =
      let (e, f) = pure-ok _ _ _ _ h in
      ap (λ o. answered_ids o.0.assignments) (sym e)
      ∙ sym (append-nil (answered_ids acc.0.assignments))
  autofill_lessons-answered_ids req metas (lesson ∷ rows) acc out s t h =
      let (next, u, step, rest) = and_then-ok _ _ h in
      autofill_lessons-answered_ids req metas rows next out u t rest
      ∙ ap (λ l. l ++ wanting_ids rows metas req.replace_virtual)
          (autofill_lesson-answered_ids req metas lesson acc next s u step)
      ∙ append_assoc (answered_ids acc.0.assignments)
          (wanting_ids (lesson ∷ []) metas req.replace_virtual) _
      ∙ ap (λ l. answered_ids acc.0.assignments ++ l)
          (wanting_ids-cons lesson rows metas req.replace_virtual)
