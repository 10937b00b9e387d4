-- ===== src/Schedule/Rooms/Free.antt =====
-- internal/schedule: what the queries, the room check and the room write do to the tables.
use ispo_shedule_backend.Prelude.{
  ℤ, String, Bool, true, false, ◌≡◌, refl, sym, ap, subst, ◌∙◌, Option, List, [], ◌∷◌, string_eq,
  nat_eq, int_eq, length, ltb, arith, inl, inr, ◌⊎◌, Option-cases,
}
use ispo_shedule_backend.Prelude.Results.{ok, err}
use ispo_shedule_backend.Prelude.Transaction.{and_then-ok, reject_if-ok}
use ispo_shedule_backend.Schedule.Models.{Time}
use ispo_shedule_backend.Schedule.Store.{Tables, Database}
use ispo_shedule_backend.Schedule.Lessons.Normalize.{date_only}
use ispo_shedule_backend.Schedule.Rooms.Defs.{
  location_is_virtual, conflicts, flow_of, query, room_verdict, ensure_room_available,
}

pub length-zero {ℓ} : {A : Type ℓ} (xs : List A) → ltb 0 (length xs) ≡ false → xs ≡ []
length-zero [] h = refl
length-zero (x ∷ xs) h = absurd (ground arith)

-- No live lesson of the slot sits in the room under another flow, unless the room is virtual.
abbrev pub IsFree : Tables → ℤ → Time → ℤ → Option String → Option ℤ → Type 0
IsFree t location_id lesson_date pair_number flow_key exclude =
    (location_is_virtual t.locations location_id ≡ true)
    ⊎ (conflicts t location_id (date_only lesson_date) pair_number (flow_of flow_key) exclude ≡ [])

module _ (db : Database) where
  pub query-ok :
      {A : Type 0} (f : Tables → A) (s t : db.State) (a : A)
      → query db f s ≡ ok (a, t)
      → (a ≡ f (db.tables s)) × (t ≡ s)
  unfolding query
  query-ok f s t a h = elim (Option-cases (db.read_error s)) [
    | inl fine ↦ let same : ok (f (db.tables s), s) ≡ ok (a, t) = rw (fine, query) at h in (cc, cc)
    | inr (e, broken) ↦ let same : err e ≡ ok (a, t) = rw (broken, query) at h in absurd (cc)
  ]

  count_conflicts :
      (location_id : ℤ) (lesson_date : Time) (pair_number : ℤ) (flow_key : Option String)
      (exclude : Option ℤ) (s t : db.State) (virtual : Bool)
      → room_verdict db location_id lesson_date pair_number flow_key exclude virtual s ≡ ok (tt, t)
      → virtual ≡ location_is_virtual (db.tables s).locations location_id
      → IsFree (db.tables s) location_id lesson_date pair_number flow_key exclude × (t ≡ s)
  unfolding room_verdict
  count_conflicts location_id lesson_date pair_number flow_key exclude s t true h e =
      (inl (sym e), cc)
  count_conflicts location_id lesson_date pair_number flow_key exclude s t false h e =
      let (count, s₁, p, h₁) = and_then-ok _ _ h in
      let (read, e₁) = query-ok _ s s₁ count p in
      let (none_left, e₂) = reject_if-ok _ _ s₁ t h₁ in
      (inr (length-zero _ (subst (λ n. ltb 0 n ≡ false) read none_left)), e₂ ∙ e₁)

  -- The check passes only for a room that is free, and changes nothing.
  pub ensure_room_available-IsFree :
      (location_id : ℤ) (lesson_date : Time) (pair_number : ℤ) (flow_key : Option String)
      (exclude : Option ℤ) (s t : db.State)
      → ensure_room_available db location_id lesson_date pair_number flow_key exclude s ≡ ok (tt, t)
      → IsFree (db.tables s) location_id lesson_date pair_number flow_key exclude × (t ≡ s)
  unfolding ensure_room_available
  ensure_room_available-IsFree location_id lesson_date pair_number flow_key exclude s t h =
      let (_, s₁, p, h₁) = and_then-ok _ _ h in
      let e₁ = (reject_if-ok _ _ s s₁ p).1 in
      let (virtual, s₂, q, h₂) = and_then-ok _ _ h₁ in
      let (read, e₂) = query-ok _ s₁ s₂ virtual q in
      let same : s₂ ≡ s = e₂ ∙ e₁ in
      let (free, e₃) =
        count_conflicts location_id lesson_date pair_number flow_key exclude s₂ t virtual h₂
          (read ∙ ap (λ u. location_is_virtual (db.tables u).locations location_id) (sym e₂)) in
      (
        subst (λ u. IsFree (db.tables u) location_id lesson_date pair_number flow_key exclude) same
            free,
        e₃ ∙ same,
      )
