-- ===== src/Schedule/Validation/Unreported.antt =====
-- No double booking goes unreported by validateLocationOccupancyRules (Occupancy).
use ispo_shedule_backend.Prelude.{
  ℕ, ℤ, String, Bool, true, false, not, ◌&&◌, ◌||◌, ◌≡◌, ◌≢◌, ◌⊎◌, some, List, [], ◌∷◌, ◌==◌,
  string_eq, nat_eq, pair_eq, int_eq, int_beq_iff, nat_beq_iff, eq_iff, leb, ltb_ℤ, lookup, has_key,
  keys, arith, refl, sym, subst, ◌∙◌, Option-cases, inl, inr, All, Bool-cases, length, find, any,
  contains,
}
use ispo_shedule_backend.Prelude.Sorting.{stable_sort, stable_sort-perm}
use ispo_shedule_backend.Schedule.Models.{Group, Lesson, DaySchedule}
use ispo_shedule_backend.Schedule.Locations.{LocationMeta, meta_of, is_physical_education_facility}
use ispo_shedule_backend.Schedule.Validation.Defs.{
  ScheduleValidationWarning, warning_from_lesson, set_at, add_to_set,
}
use ispo_shedule_backend.Schedule.Validation.Hours.{
  contains-add_to_set, contains-perm, contains-keys,
}
use ispo_shedule_backend.Schedule.Validation.Occupancy.{
  RoomOccupancySlot, RoomOccupancyEntry, room_slot_eq, room_slot_beq_iff, room_slot_before,
  normalized_flow_key, shared_flow_from, entries_have_shared_flow, group_set,
  unique_group_ids_for_entries, Entries, slot_of_lesson, entries_by_slot,
  sorted_room_occupancy_slots, is_conflict_free, slot_warnings, warnings_of_slots,
  validate_location_occupancy_rules,
}
use ispo_shedule_backend.Schedule.Validation.Conflicts.{
  any-append, is_in, occupied_by, any-entries_by_slot,
}

abbrev pub flow_key_of : RoomOccupancyEntry → String
flow_key_of e = normalized_flow_key e.lesson.flow_key

-- What a shared flow is: one key, not empty, of all entries.
abbrev IsFlow : String → String → List RoomOccupancyEntry → Type 0
IsFlow seen flow entries =
    (flow == "" ≡ false)
    × All (λ e. flow_key_of e ≡ flow) entries
    × ((seen == "" ≡ true) ⊎ (seen ≡ flow))

shared_flow_from-IsFlow :
    (seen : String) (entries : List RoomOccupancyEntry)
    → shared_flow_from seen entries ≡ true
    → (flow : String) × IsFlow seen flow entries
unfolding shared_flow_from
shared_flow_from-IsFlow seen [] h = (seen, (ground (arith, h), tt, inr refl))
shared_flow_from-IsFlow seen (entry ∷ entries) h = elim (Bool-cases (flow_key_of entry == "")) [
  | inl blank ↦ absurd (ground (arith, blank, h))
  | inr named ↦ elim (Bool-cases (seen == "")) [
    | inl first ↦
        let (flow, (full, same, start)) =
          shared_flow_from-IsFlow (flow_key_of entry) entries (rw (named, first) at h) in
        (flow, (full, (own_key (flow_key_of entry) flow named start, same), inl first))
    | inr later ↦ elim (Bool-cases (flow_key_of entry == seen)) [
      | inr differs ↦ absurd (ground (arith, named, later, differs, h))
      | inl equal ↦
          let (flow, (full, same, start)) =
            shared_flow_from-IsFlow seen entries (rw (named, later, equal) at h) in
          let p : seen ≡ flow = own_key seen flow later start in
          (flow, (full, ((eq_iff (flow_key_of entry) seen).0 equal ∙ p, same), inr p))
    ]
  ]
]
  where
    own_key :
        (key flow : String) → key == "" ≡ false → (key == "" ≡ true) ⊎ (key ≡ flow) → key ≡ flow
    own_key key flow h (inl blank) = cc
    own_key key flow h (inr same) = same

-- an entry with a property, under a common flow key
flow_of_any :
    (q : RoomOccupancyEntry → Bool) (key flow : String) (entries : List RoomOccupancyEntry)
    → All (λ e. flow_key_of e ≡ flow) entries
    → any (λ e. q e && flow_key_of e == key) entries ≡ true
    → key ≡ flow
flow_of_any q key flow [] h k = cc
flow_of_any q key flow (e ∷ entries) h k = elim (Bool-cases (flow_key_of e == key)) [
  | inl same ↦ sym ((eq_iff (flow_key_of e) key).0 same) ∙ h.0
  | inr other ↦ flow_of_any q key flow entries h.1 (ground (arith, other, k))
]

group_set-contains :
    (id : ℤ) (entries : List RoomOccupancyEntry) (set : List ℤ)
    → contains id (group_set entries set) ≡ (any (λ e. e.group_id == id) entries || contains id set)
unfolding group_set
group_set-contains id [] set = refl
group_set-contains id (e ∷ entries) set =
    group_set-contains id entries (add_to_set e.group_id set)
    ∙ ground (
      arith,
      contains-add_to_set id e.group_id set,
      int_beq_iff id e.group_id,
      int_beq_iff e.group_id id,
    )

two_members :
    (a b : ℤ) (ids : List ℤ)
    → a ≢ b
    → contains a ids ≡ true
    → contains b ids ≡ true
    → leb (length ids) 1 ≡ false
two_members a b [] n h k = cc
two_members a b (c ∷ []) n h k = absurd (ground (arith, int_beq_iff a c, int_beq_iff b c))
two_members a b (c ∷ d ∷ ids) n h k = ground arith

any-weaken {ℓ} :
    {A : Type ℓ} (p q : A → Bool) (xs : List A)
    → ((x : A) → p x ≡ true → q x ≡ true)
    → any p xs ≡ true
    → any q xs ≡ true
any-weaken p q [] f h = h
any-weaken p q (x ∷ xs) f h = elim (Bool-cases (p x)) [
  | inl here ↦ rw (f x here) refl
  | inr later ↦ ground (arith, later, h, any-weaken p q xs f)
]

no_shared_flow :
    (a b : ℤ) (ka kb : String) (entries : List RoomOccupancyEntry)
    → (ka ≡ "") ⊎ (ka ≢ kb)
    → any (λ e. e.group_id == a && flow_key_of e == ka) entries ≡ true
    → any (λ e. e.group_id == b && flow_key_of e == kb) entries ≡ true
    → shared_flow_from "" entries ≡ false
no_shared_flow a b ka kb entries apart ha hb = elim (Bool-cases (shared_flow_from "" entries)) [
  | inr separate ↦ separate
  | inl shared ↦
      let (flow, (full, same, _)) = shared_flow_from-IsFlow "" entries shared in
      let pa = flow_of_any (λ e. e.group_id == a) ka flow entries same ha in
      let pb = flow_of_any (λ e. e.group_id == b) kb flow entries same hb in
      elim apart [
        | inl blank ↦ absurd (blank_flow flow full (sym pa ∙ blank))
        | inr differ ↦ absurd (differ (pa ∙ sym pb))
      ]
]
  where
    blank_flow : (flow : String) → flow == "" ≡ false → flow ≡ "" → ⊥
    blank_flow flow h p = ground (arith, h, (eq_iff flow "").1 p)

-- two entries of different groups, which do not share a flow
conflict :
    (metas : List (ℤ × LocationMeta)) (slot : RoomOccupancySlot) (a b : ℤ) (ka kb : String)
    (entries : List RoomOccupancyEntry)
    → a ≢ b
    → (ka ≡ "") ⊎ (ka ≢ kb)
    → is_physical_education_facility (meta_of metas slot.location_id) ≡ false
    → any (λ e. e.group_id == a && flow_key_of e == ka) entries ≡ true
    → any (λ e. e.group_id == b && flow_key_of e == kb) entries ≡ true
    → is_conflict_free metas slot entries ≡ false
unfolding is_conflict_free entries_have_shared_flow unique_group_ids_for_entries
conflict metas slot a b ka kb entries n apart plain ha hb =
    let member : (id : ℤ)
        → contains id (stable_sort ltb_ℤ (group_set entries []))
          ≡ any (λ e. e.group_id == id) entries =
      λ id.
        contains-perm id (stable_sort-perm ltb_ℤ (group_set entries []))
        ∙ group_set-contains id entries []
        ∙ ground arith in
    let in_a = member a ∙ any-weaken _ _ entries (λ e h. ground (arith, h)) ha in
    let in_b = member b ∙ any-weaken _ _ entries (λ e h. ground (arith, h)) hb in
    let many = two_members a b _ n in_a in_b in
    ground (arith, many, plain, no_shared_flow a b ka kb entries apart ha hb)

found :
    (p q : RoomOccupancyEntry → Bool) (entries : List RoomOccupancyEntry)
    → any p entries ≡ true
    → any q entries ≡ false
    → (e : RoomOccupancyEntry) × (find p entries ≡ some e) × (q e ≡ false)
found p q [] h k = cc
found p q (e ∷ entries) h k = elim (Bool-cases (p e)) [
  | inl here ↦ (e, rw here refl, ground (arith, k))
  | inr later ↦
      let (r, at, fine) = found p q entries (ground (arith, later, h)) (ground (arith, k)) in
      (r, rw later at, fine)
]

any-never {ℓ} :
    {A : Type ℓ} (p : A → Bool) (xs : List A) → ((x : A) → p x ≡ false) → any p xs ≡ false
any-never p [] f = refl
any-never p (x ∷ xs) f = rw (f x) (any-never p xs f)

-- the lessons of a slot stand at its pair
own_pair :
    (metas : List (ℤ × LocationMeta)) (slot : RoomOccupancySlot) (group_id : ℤ) (date : ℕ)
    (lesson : Lesson)
    → is_in metas (λ e. not (e.lesson.pair_number == slot.pair_number)) slot group_id date lesson
      ≡ false
unfolding is_in slot_of_lesson
own_pair metas slot group_id date lesson =
    ground (arith, int_beq_iff lesson.pair_number slot.pair_number)

own_pairs :
    (metas : List (ℤ × LocationMeta)) (slot : RoomOccupancySlot)
    (all_days : List (ℤ × List DaySchedule))
    → occupied_by metas (λ e. not (e.lesson.pair_number == slot.pair_number)) slot all_days ≡ false
own_pairs metas slot all_days = any-never _ all_days λ g.
    any-never _ g.1 λ day. any-never _ day.lessons λ lesson. own_pair metas slot g.0 day.date lesson

listed :
    (p : RoomOccupancyEntry → Bool) (slot : RoomOccupancySlot) (m : Entries)
    → any p (set_at slot m) ≡ true
    → has_key slot m ≡ true
unfolding set_at
listed p slot m h = elim (Option-cases (lookup slot m)) [
  | inl missing ↦ absurd (ground (arith, missing, h))
  | inr (entries, there) ↦ rw (there, has_key) refl
]

none_before :
    (p : RoomOccupancyEntry → Bool) (slot : RoomOccupancySlot) (b : Bool)
    → (b || any p (set_at slot [])) ≡ b
unfolding set_at lookup
none_before p slot b = ground arith

abbrev pub is_room_warning : RoomOccupancySlot → ScheduleValidationWarning → Bool
is_room_warning slot w =
    w.code == "location_group_conflict"
    && (w.date == slot.date && w.pair_number == slot.pair_number)

module _ (metas : List (ℤ × LocationMeta)) (target : ℤ) (groups_by_id : List (ℤ × Group)) where
  slot_warnings-any :
      (slot : RoomOccupancySlot) (entries : List RoomOccupancyEntry)
      → is_conflict_free metas slot entries ≡ false
      → any (λ e. e.group_id == target) entries ≡ true
      → any (λ e. not (e.lesson.pair_number == slot.pair_number)) entries ≡ false
      → any (is_room_warning slot) (slot_warnings metas target groups_by_id slot entries) ≡ true
  unfolding slot_warnings warning_from_lesson
  slot_warnings-any slot entries bad own same =
      let (e, at, fine) =
        found (λ e. e.group_id == target) (λ e. not (e.lesson.pair_number == slot.pair_number))
          entries own same in
      rw (bad, at) (ground (arith, fine, nat_beq_iff slot.date slot.date))

  warnings_of_slots-any :
      (slot : RoomOccupancySlot) (m : Entries) (slots : List RoomOccupancySlot)
      → contains slot slots ≡ true
      → any (is_room_warning slot) (slot_warnings metas target groups_by_id slot (set_at slot m))
        ≡ true
      → any (is_room_warning slot) (warnings_of_slots metas target groups_by_id m slots) ≡ true
  unfolding warnings_of_slots
  warnings_of_slots-any slot m [] h k = cc
  warnings_of_slots-any slot m (other ∷ slots) h k =
      any-append (is_room_warning slot)
        (slot_warnings metas target groups_by_id other (set_at other m))
        (warnings_of_slots metas target groups_by_id m slots)
      ∙ elim (Bool-cases (slot == other)) [
        | inl same ↦
            subst
              (λ o.
                (any (is_room_warning slot) (slot_warnings metas target groups_by_id o (set_at o m))
                  || any (is_room_warning slot)
                      (warnings_of_slots metas target groups_by_id m slots))
                ≡ true)
              ((room_slot_beq_iff slot other).0 same) (rw k refl)
        | inr differs ↦
            let rest = warnings_of_slots-any slot m slots (ground (arith, differs, h)) k in
            ground (arith, rest)
      ]

  -- If a lesson of the target group and a lesson of another group hold one room, which is not
  -- virtual, at one day and pair, and their flow keys are not one and the same, then
  -- validateLocationOccupancyRules warns of that day and pair, except in a gym or a pool.
  pub validate_location_occupancy_rules-any :
      (slot : RoomOccupancySlot) (other : ℤ) (own_key other_key : String)
      (all_days : List (ℤ × List DaySchedule))
      → target ≢ other
      → (own_key ≡ "") ⊎ (own_key ≢ other_key)
      → is_physical_education_facility (meta_of metas slot.location_id) ≡ false
      → occupied_by metas (λ e. e.group_id == target && flow_key_of e == own_key) slot all_days
        ≡ true
      → occupied_by metas (λ e. e.group_id == other && flow_key_of e == other_key) slot all_days
        ≡ true
      → any
          (is_room_warning slot)
          (validate_location_occupancy_rules metas target groups_by_id all_days)
        ≡ true
  unfolding validate_location_occupancy_rules sorted_room_occupancy_slots
  validate_location_occupancy_rules-any slot other own_key other_key all_days n apart plain ho hb =
      let m = entries_by_slot metas all_days [] in
      let occupants : (p : RoomOccupancyEntry → Bool)
          → any p (set_at slot m) ≡ occupied_by metas p slot all_days =
        λ p.
          any-entries_by_slot metas p slot all_days []
          ∙ none_before p slot (occupied_by metas p slot all_days) in
      let own = occupants (λ e. e.group_id == target && flow_key_of e == own_key) ∙ ho in
      let theirs = occupants (λ e. e.group_id == other && flow_key_of e == other_key) ∙ hb in
      let bad =
        conflict metas slot target other own_key other_key (set_at slot m) n apart plain own
          theirs in
      warnings_of_slots-any slot m (stable_sort room_slot_before (keys m))
        (contains-perm slot (stable_sort-perm room_slot_before (keys m))
          ∙ contains-keys slot m
          ∙ listed _ slot m own)
        (slot_warnings-any slot (set_at slot m) bad
          (any-weaken _ _ (set_at slot m) (λ e h. ground (arith, h)) own)
          (occupants (λ e. not (e.lesson.pair_number == slot.pair_number))
            ∙ own_pairs metas slot all_days))
