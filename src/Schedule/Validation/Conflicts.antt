-- ===== src/Schedule/Validation/Conflicts.antt =====
-- Rooms that two groups hold at one time, and what validateLocationOccupancyRules says of them
-- (Occupancy).
use ispo_shedule_backend.Prelude.{
  ℕ, ℤ, Bool, false, ◌&&◌, ◌||◌, ◌≡◌, none, some, List, [], ◌∷◌, ◌++◌, ◌==◌, string_eq, nat_eq,
  pair_eq, int_eq, if◌then◌else◌, lookup-insert, arith, refl, sym, subst, ◌∙◌, ap, Option-cases,
  inl, inr, Bool-cases, any,
}
use ispo_shedule_backend.Schedule.Models.{Lesson, DaySchedule}
use ispo_shedule_backend.Schedule.Locations.{LocationMeta}
use ispo_shedule_backend.Schedule.Validation.Defs.{or_empty_set, set_at}
use ispo_shedule_backend.Schedule.Validation.Occupancy.{
  RoomOccupancySlot, RoomOccupancyEntry, room_slot_eq, room_slot_beq_iff, Entries, add_entry,
  slot_of_lesson, add_at, add_lessons, add_days, entries_by_slot,
}

pub any-append {ℓ} :
    {A : Type ℓ} (p : A → Bool) (xs ys : List A) → any p (xs ++ ys) ≡ (any p xs || any p ys)
any-append p [] ys = refl
any-append p (x ∷ xs) ys = ground (arith, any-append p xs ys)

set_at-add_entry :
    (slot other : RoomOccupancySlot) (entry : RoomOccupancyEntry) (m : Entries)
    → set_at other (add_entry slot entry m)
      ≡ (if slot == other then set_at slot m ++ entry ∷ [] else set_at other m)
unfolding set_at add_entry
set_at-add_entry slot other entry m =
    ap or_empty_set (lookup-insert slot other (set_at slot m ++ entry ∷ []) m) ∙ ground arith

module _ (metas : List (ℤ × LocationMeta)) (p : RoomOccupancyEntry → Bool) where
  -- a lesson of a group that is in the slot, with a property
  unfoldable pub is_in : RoomOccupancySlot → ℤ → ℕ → Lesson → Bool
  is_in slot group_id date lesson = elim (slot_of_lesson metas date lesson) [
    | none ↦ false
    | some s ↦ s == slot && p (record { group_id = group_id; lesson = lesson })
  ]

  -- The schedules of the groups have such a lesson.
  abbrev pub occupied_by : RoomOccupancySlot → List (ℤ × List DaySchedule) → Bool
  occupied_by slot = any (λ g. any (λ day. any (is_in slot g.0 day.date) day.lessons) g.1)

  any-add_at :
      (slot : RoomOccupancySlot) (group_id : ℤ) (date : ℕ) (lesson : Lesson) (m : Entries)
      → any p (
          set_at slot (
            add_at metas
              (slot_of_lesson metas date lesson)
              (record { group_id = group_id; lesson = lesson })
              m))
        ≡ (is_in slot group_id date lesson || any p (set_at slot m))
  unfolding is_in
  any-add_at slot group_id date lesson m = elim (Option-cases (slot_of_lesson metas date lesson)) [
    | inl nowhere ↦ rw (nowhere, is_in) refl
    | inr (s, there) ↦
        let entry : RoomOccupancyEntry = record { group_id = group_id; lesson = lesson } in
        rw (there, is_in)
          (elim (Bool-cases (s == slot)) [
            | inl same ↦
                let q : s ≡ slot = (room_slot_beq_iff s slot).0 same in
                rw (set_at-add_entry s slot entry m, same)
                  (any-append p (set_at s m) (entry ∷ [])
                    ∙ subst
                        (λ r.
                          (any p (set_at r m) || (p entry || false))
                          ≡ (p entry || any p (set_at slot m)))
                        (sym q) (ground arith))
            | inr other ↦ rw (set_at-add_entry s slot entry m, other) refl
          ])
  ]

  any-add_lessons :
      (slot : RoomOccupancySlot) (group_id : ℤ) (date : ℕ) (lessons : List Lesson) (m : Entries)
      → any p (set_at slot (add_lessons metas group_id date lessons m))
        ≡ (any (is_in slot group_id date) lessons || any p (set_at slot m))
  unfolding add_lessons
  any-add_lessons slot group_id date [] m = refl
  any-add_lessons slot group_id date (lesson ∷ lessons) m =
      any-add_lessons slot group_id date lessons _
      ∙ ground (arith, any-add_at slot group_id date lesson m)

  any-add_days :
      (slot : RoomOccupancySlot) (group_id : ℤ) (days : List DaySchedule) (m : Entries)
      → any p (set_at slot (add_days metas group_id days m)) ≡ (
          any (λ day. any (is_in slot group_id day.date) day.lessons) days || any p (set_at slot m))
  unfolding add_days
  any-add_days slot group_id [] m = refl
  any-add_days slot group_id (day ∷ days) m =
      any-add_days slot group_id days _
      ∙ ground (arith, any-add_lessons slot group_id day.date day.lessons m)

  pub any-entries_by_slot :
      (slot : RoomOccupancySlot) (all_days : List (ℤ × List DaySchedule)) (m : Entries)
      → any p (set_at slot (entries_by_slot metas all_days m))
        ≡ (occupied_by slot all_days || any p (set_at slot m))
  unfolding entries_by_slot
  any-entries_by_slot slot [] m = refl
  any-entries_by_slot slot ((group_id, days) ∷ rest) m =
      any-entries_by_slot slot rest _ ∙ ground (arith, any-add_days slot group_id days m)
