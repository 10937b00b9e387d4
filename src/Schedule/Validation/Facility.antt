-- ===== src/Schedule/Validation/Facility.antt =====
-- internal/schedule/service_validate.go: validatePhysicalEducationFacilityRules, with
-- hasPhysicalEducationLessons, hasLocationLessons and collectLocationIDsFromDays. The conventions are
-- those of Defs.
use ispo_shedule_backend.Prelude.{
  ℕ, ℤ, String, Bool, false, not, ◌&&◌, Option, none, some, List, [], ◌∷◌, ◌++◌, map, string_eq,
  nat_eq, pair_eq, int_eq, if◌then◌else◌, ltb, is_positive, lookup, length, filter, any, contains,
}
use ispo_shedule_backend.Prelude.Format.{decimal, ◌⊕◌}
use ispo_shedule_backend.Schedule.Models.{Group, Lesson, DaySchedule}
use ispo_shedule_backend.Schedule.Locations.{LocationMeta, meta_of, is_physical_education_facility}
use ispo_shedule_backend.Schedule.Validation.Defs.{
  ScheduleValidationWarning, warning_from_lesson, is_physical_education_subject, add_to_set, set_at,
  put_in,
}
use ispo_shedule_backend.Schedule.Validation.Occupancy.{
  RoomOccupancySlot, room_slot_eq, slot_at, group_at,
}

abbrev pub is_physical_education : Lesson → Bool
is_physical_education lesson = is_physical_education_subject lesson.subject_name

-- hasPhysicalEducationLessons
unfoldable pub has_physical_education_lessons : List DaySchedule → Bool
has_physical_education_lessons = any (λ day. any is_physical_education day.lessons)

abbrev pub has_location : Lesson → Bool
has_location lesson = elim lesson.location_id [ none ↦ false | some id ↦ is_positive id ]

-- hasLocationLessons
unfoldable pub has_location_lessons : List DaySchedule → Bool
has_location_lessons = any (λ day. any has_location day.lessons)

abbrev pub add_location : Option ℤ → List ℤ → List ℤ
add_location none ids = ids
add_location (some id) ids = if is_positive id then add_to_set id ids else ids

unfoldable pub location_ids_of_lessons : List Lesson → List ℤ → List ℤ
location_ids_of_lessons [] ids = ids
location_ids_of_lessons (lesson ∷ lessons) ids =
    location_ids_of_lessons lessons (add_location lesson.location_id ids)

-- collectLocationIDsFromDays
unfoldable pub collect_location_ids_from_days : List DaySchedule → List ℤ → List ℤ
unfolding location_ids_of_lessons
collect_location_ids_from_days [] ids = ids
collect_location_ids_from_days (day ∷ days) ids =
    collect_location_ids_from_days days (location_ids_of_lessons day.lessons ids)

abbrev pub physical_education_room_group_limit : ℕ
physical_education_room_group_limit = 3

-- groupsByRoomSlot; physicalEducationRoomSlot has the fields of roomOccupancySlot
abbrev pub RoomGroups : Type 0
RoomGroups = List (RoomOccupancySlot × List ℤ)

module _ (metas : List (ℤ × LocationMeta)) where
  -- the room of a lesson of physical education, if it is a gym or a pool
  abbrev pub facility_of : Lesson → Option ℤ
  facility_of lesson = elim lesson.location_id [
    | none ↦ none
    | some id ↦ if is_physical_education_facility (meta_of metas id) then some id else none
  ]

  abbrev pub add_group : ℤ → ℕ → ℤ → Option ℤ → RoomGroups → RoomGroups
  add_group group_id date pair_number none m = m
  add_group group_id date pair_number (some id) m = put_in (slot_at date pair_number id) group_id m

  unfoldable pub groups_of_lessons : ℤ → ℕ → List Lesson → RoomGroups → RoomGroups
  groups_of_lessons group_id date [] m = m
  groups_of_lessons group_id date (lesson ∷ lessons) m = groups_of_lessons group_id date lessons (
      if is_physical_education lesson
      then add_group group_id date lesson.pair_number (facility_of lesson) m
      else m)

  unfoldable pub groups_of_days : ℤ → List DaySchedule → RoomGroups → RoomGroups
  unfolding groups_of_lessons
  groups_of_days group_id [] m = m
  groups_of_days group_id (day ∷ days) m =
      groups_of_days group_id days (groups_of_lessons group_id day.date day.lessons m)

  unfoldable pub groups_by_room_slot : List (ℤ × List DaySchedule) → RoomGroups → RoomGroups
  unfolding groups_of_days
  groups_by_room_slot [] m = m
  groups_by_room_slot ((group_id, days) ∷ rest) m =
      groups_by_room_slot rest (groups_of_days group_id days m)

  module _ (target_group : Group) (m : RoomGroups) where
    abbrev pub limit_text : RoomOccupancySlot → String
    limit_text slot =
        "physical education room has "
        ⊕ decimal (length (set_at slot m))
        ⊕ " groups in one slot, limit is "
        ⊕ decimal physical_education_room_group_limit

    -- whether a slot is warned of: not again, and only beyond the limit
    abbrev pub is_over : List RoomOccupancySlot → RoomOccupancySlot → Bool
    is_over warned slot =
        not (contains slot warned)
        && ltb physical_education_room_group_limit (length (set_at slot m))

    -- the slot of a lesson that is over the limit
    unfoldable pub slot_over : ℕ → Lesson → List RoomOccupancySlot → Option RoomOccupancySlot
    unfolding set_at
    slot_over date lesson warned = elim (facility_of lesson) [
      | none ↦ none
      | some id ↦
          if is_over warned (slot_at date lesson.pair_number id)
          then some (slot_at date lesson.pair_number id)
          else none
    ]

    abbrev pub warned_after :
        Option RoomOccupancySlot → List RoomOccupancySlot → List RoomOccupancySlot
    warned_after none warned = warned
    warned_after (some slot) warned = slot ∷ warned

    -- the body of the loop over the lessons
    unfoldable pub facility_warning :
        ℕ → Lesson → Option RoomOccupancySlot → List ScheduleValidationWarning
    facility_warning date lesson over = elim (facility_of lesson) [
      | none ↦
          warning_from_lesson "physical_education_location_kind" date lesson target_group
            "physical education must be scheduled in gym or pool"
          ∷ []
      | some id ↦ elim over [
        | none ↦ []
        | some slot ↦
            warning_from_lesson "physical_education_room_group_limit" date lesson target_group
              (limit_text slot)
            ∷ []
      ]
    ]

    -- the lessons of the target group's days, each with its day
    unfoldable pub facility_warnings :
        List (ℕ × Lesson) → List RoomOccupancySlot → List ScheduleValidationWarning
    unfolding slot_over facility_warning
    facility_warnings [] warned = []
    facility_warnings ((date, lesson) ∷ lessons) warned =
        facility_warning date lesson (slot_over date lesson warned)
        ++ facility_warnings lessons (warned_after (slot_over date lesson warned) warned)

-- the two nested loops as one list
unfoldable pub dated_lessons : List DaySchedule → List (ℕ × Lesson)
dated_lessons [] = []
dated_lessons (day ∷ days) = map (λ l. (day.date, l)) day.lessons ++ dated_lessons days

abbrev pub days_at : ℤ → List (ℤ × List DaySchedule) → List DaySchedule
days_at group_id all_days = elim (lookup group_id all_days) [ none ↦ [] | some days ↦ days ]

-- validatePhysicalEducationFacilityRules
unfoldable pub validate_physical_education_facility_rules :
    List (ℤ × LocationMeta)
    → ℤ
    → List (ℤ × Group)
    → List (ℤ × List DaySchedule)
    → List ScheduleValidationWarning
unfolding groups_by_room_slot dated_lessons facility_warnings
validate_physical_education_facility_rules metas target_group_id groups_by_id all_days =
    facility_warnings metas (group_at groups_by_id target_group_id)
      (groups_by_room_slot metas all_days [])
      (filter (λ d. is_physical_education d.1) (dated_lessons (days_at target_group_id all_days)))
      []
