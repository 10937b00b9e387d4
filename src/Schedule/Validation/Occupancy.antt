-- ===== src/Schedule/Validation/Occupancy.antt =====
-- internal/schedule/service_validate.go: validateLocationOccupancyRules with its helpers, over the days
-- of all groups. The conventions are those of Defs.
use ispo_shedule_backend.Prelude.{
  ℕ, ℤ, pos, String, Bool, true, false, not, ◌&&◌, ◌||◌, ◌≡◌, ◌↔◌, Option, none, some, List, [],
  ◌∷◌, ◌++◌, map, HasEq, ◌==◌, string_eq, nat_eq, pair_eq, int_eq, int_beq_iff, nat_beq_iff,
  if◌then◌else◌, ltb, leb, ltb_ℤ, is_positive, lookup, insert, keys, arith, length, find, all,
}
use ispo_shedule_backend.Prelude.Text.{trim_space, to_lower}
use ispo_shedule_backend.Prelude.TextOrder.{string_ltb}
use ispo_shedule_backend.Prelude.Format.{decimal, decimal_ℤ, join_comma, ◌⊕◌}
use ispo_shedule_backend.Prelude.Sorting.{stable_sort}
use ispo_shedule_backend.Schedule.Models.{Group, Lesson, DaySchedule}
use ispo_shedule_backend.Schedule.Locations.{
  LocationMeta, meta_of, is_virtual, is_physical_education_facility,
}
use ispo_shedule_backend.Schedule.Validation.Defs.{
  ScheduleValidationWarning, warning_from_lesson, is_physical_education_subject, add_to_set, set_at,
}

-- roomOccupancySlot and roomOccupancyEntry
pub record RoomOccupancySlot : Type 0 where
  pub date : ℕ
  pub pair_number : ℤ
  pub location_id : ℤ

pub record RoomOccupancyEntry : Type 0 where
  pub group_id : ℤ
  pub lesson : Lesson

abbrev pub room_slot_beq : RoomOccupancySlot → RoomOccupancySlot → Bool
room_slot_beq a b =
    a.date == b.date && (a.pair_number == b.pair_number && a.location_id == b.location_id)

pub room_slot_beq_iff : (a b : RoomOccupancySlot) → (room_slot_beq a b ≡ true) ↔ (a ≡ b)
room_slot_beq_iff a b = ground (
  arith,
  nat_beq_iff a.date b.date,
  int_beq_iff a.pair_number b.pair_number,
  int_beq_iff a.location_id b.location_id,
)

instance abbrev pub room_slot_eq : HasEq RoomOccupancySlot
room_slot_eq = record { equal = room_slot_beq; equal_iff = room_slot_beq_iff }

-- normalizedFlowKey
unfoldable pub normalized_flow_key : Option String → String
normalized_flow_key none = ""
normalized_flow_key (some flow) = to_lower (trim_space flow)

-- the loop of entriesHaveSharedFlow, from the flow seen so far
unfoldable pub shared_flow_from : String → List RoomOccupancyEntry → Bool
unfolding normalized_flow_key
shared_flow_from flow [] = not (flow == "")
shared_flow_from flow (entry ∷ entries) =
    let key = normalized_flow_key entry.lesson.flow_key in
    let rest = shared_flow_from (if flow == "" then key else flow) entries in
    if key == "" then false else if not (flow == "") && not (key == flow) then false else rest

-- entriesHaveSharedFlow
unfoldable pub entries_have_shared_flow : List RoomOccupancyEntry → Bool
unfolding shared_flow_from
entries_have_shared_flow entries = shared_flow_from "" entries

-- allEntriesPhysicalEducation
unfoldable pub all_entries_physical_education : List RoomOccupancyEntry → Bool
all_entries_physical_education [] = false
all_entries_physical_education (entry ∷ entries) =
    all (λ e. is_physical_education_subject e.lesson.subject_name) (entry ∷ entries)

-- the set of uniqueGroupIDsForEntries
unfoldable pub group_set : List RoomOccupancyEntry → List ℤ → List ℤ
group_set [] set = set
group_set (entry ∷ entries) set = group_set entries (add_to_set entry.group_id set)

-- uniqueGroupIDsForEntries
unfoldable pub unique_group_ids_for_entries : List RoomOccupancyEntry → List ℤ
unfolding group_set
unique_group_ids_for_entries entries = stable_sort ltb_ℤ (group_set entries [])

abbrev pub name_for_id : List (ℤ × Group) → ℤ → String
name_for_id groups_by_id id = elim (lookup id groups_by_id) [
  | none ↦ "group:" ⊕ decimal_ℤ id
  | some group ↦
      if trim_space group.name == "" then "group:" ⊕ decimal_ℤ id else trim_space group.name
]

-- groupNamesForIDs
unfoldable pub group_names_for_ids : List ℤ → List (ℤ × Group) → List String
group_names_for_ids ids groups_by_id = stable_sort string_ltb (map (name_for_id groups_by_id) ids)

abbrev pub Entries : Type 0
Entries = List (RoomOccupancySlot × List RoomOccupancyEntry)

-- `entriesBySlot[slot] = append(entriesBySlot[slot], …)`
unfoldable pub add_entry : RoomOccupancySlot → RoomOccupancyEntry → Entries → Entries
unfolding set_at
add_entry slot entry m = insert slot (set_at slot m ++ entry ∷ []) m

abbrev pub slot_at : ℕ → ℤ → ℤ → RoomOccupancySlot
slot_at date pair_number location_id = record {
  date = date;
  pair_number = pair_number;
  location_id = location_id;
}

-- the order of sortedRoomOccupancySlots
abbrev pub room_slot_before : RoomOccupancySlot → RoomOccupancySlot → Bool
room_slot_before a b =
    if not (a.date == b.date)
    then ltb a.date b.date
    else if not (a.pair_number == b.pair_number)
    then ltb_ℤ a.pair_number b.pair_number
    else ltb_ℤ a.location_id b.location_id

unfoldable pub sorted_room_occupancy_slots : Entries → List RoomOccupancySlot
sorted_room_occupancy_slots m = stable_sort room_slot_before (keys m)

abbrev pub no_group : Group
no_group = record {
  id = pos 0;
  name = "";
  course = pos 0;
  schedule_source_group_id = none;
  curriculum_id = none;
  admission_year = none;
  specialty_id = none;
}

abbrev pub group_at : List (ℤ × Group) → ℤ → Group
group_at groups_by_id id = elim (lookup id groups_by_id) [ none ↦ no_group | some g ↦ g ]

abbrev pub conflict_text : List (ℤ × Group) → List RoomOccupancyEntry → String
conflict_text groups_by_id entries =
    "location is occupied by "
    ⊕ decimal (length (unique_group_ids_for_entries entries))
    ⊕ " groups in one slot without shared flow: "
    ⊕ join_comma (group_names_for_ids (unique_group_ids_for_entries entries) groups_by_id)

module _ (metas : List (ℤ × LocationMeta)) where
  -- the slot that a lesson occupies: not a virtual room, nor a lesson without room or pair
  unfoldable pub slot_of_lesson : ℕ → Lesson → Option RoomOccupancySlot
  slot_of_lesson date lesson = elim lesson.location_id [
    | none ↦ none
    | some id ↦
        if (not (is_positive id) || not (is_positive lesson.pair_number))
          || is_virtual (meta_of metas id)
        then none
        else some (slot_at date lesson.pair_number id)
  ]

  abbrev pub add_at : Option RoomOccupancySlot → RoomOccupancyEntry → Entries → Entries
  add_at none entry m = m
  add_at (some slot) entry m = add_entry slot entry m

  unfoldable pub add_lessons : ℤ → ℕ → List Lesson → Entries → Entries
  unfolding slot_of_lesson
  add_lessons group_id date [] m = m
  add_lessons group_id date (lesson ∷ lessons) m =
      add_lessons group_id date lessons
        (add_at (slot_of_lesson date lesson) (record { group_id = group_id; lesson = lesson }) m)

  unfoldable pub add_days : ℤ → List DaySchedule → Entries → Entries
  unfolding add_lessons
  add_days group_id [] m = m
  add_days group_id (day ∷ days) m =
      add_days group_id days (add_lessons group_id day.date day.lessons m)

  -- entriesBySlot, for the groups in the order in which `range` goes through them
  unfoldable pub entries_by_slot : List (ℤ × List DaySchedule) → Entries → Entries
  unfolding add_days
  entries_by_slot [] m = m
  entries_by_slot ((group_id, days) ∷ rest) m = entries_by_slot rest (add_days group_id days m)

  -- the three `continue`s on the entries of a slot
  unfoldable pub is_conflict_free : RoomOccupancySlot → List RoomOccupancyEntry → Bool
  unfolding entries_have_shared_flow all_entries_physical_education unique_group_ids_for_entries
  is_conflict_free slot entries =
      leb (length (unique_group_ids_for_entries entries)) 1
      || (is_physical_education_facility (meta_of metas slot.location_id)
            && all_entries_physical_education entries
          || entries_have_shared_flow entries)

  -- the warning on a slot, for the first lesson of the target group there
  unfoldable pub slot_warnings :
      ℤ
      → List (ℤ × Group)
      → RoomOccupancySlot
      → List RoomOccupancyEntry
      → List ScheduleValidationWarning
  unfolding is_conflict_free
  slot_warnings target_group_id groups_by_id slot entries =
      if is_conflict_free slot entries
      then []
      else elim (find (λ e. e.group_id == target_group_id) entries) [
        | none ↦ []
        | some e ↦
            warning_from_lesson "location_group_conflict" slot.date e.lesson
              (group_at groups_by_id target_group_id) (conflict_text groups_by_id entries)
            ∷ []
      ]

  unfoldable pub warnings_of_slots :
      ℤ → List (ℤ × Group) → Entries → List RoomOccupancySlot → List ScheduleValidationWarning
  unfolding slot_warnings set_at
  warnings_of_slots target_group_id groups_by_id m [] = []
  warnings_of_slots target_group_id groups_by_id m (slot ∷ slots) =
      slot_warnings target_group_id groups_by_id slot (set_at slot m)
      ++ warnings_of_slots target_group_id groups_by_id m slots

  -- validateLocationOccupancyRules
  unfoldable pub validate_location_occupancy_rules :
      ℤ → List (ℤ × Group) → List (ℤ × List DaySchedule) → List ScheduleValidationWarning
  unfolding entries_by_slot sorted_room_occupancy_slots warnings_of_slots
  validate_location_occupancy_rules target_group_id groups_by_id all_days_by_group =
      let m = entries_by_slot all_days_by_group [] in
      warnings_of_slots target_group_id groups_by_id m (sorted_room_occupancy_slots m)
