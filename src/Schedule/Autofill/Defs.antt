-- ===== src/Schedule/Autofill/Defs.antt =====
-- internal/schedule/service_location_autofill.go: AutofillLocations. A date is the day that its
-- YYYY-MM-DD text names; a map that is only tested is the list of its keys. The rows of a query that
-- joins other tables than those of Store are a function of the tables.
use ispo_shedule_backend.Prelude.{
  ℕ, suc, ℤ, String, Bool, true, not, ◌&&◌, ◌||◌, ◌≡◌, ◌↔◌, Option, none, some, List, [], ◌∷◌, ◌++◌,
  HasEq, ◌==◌, string_eq, nat_eq, int_eq, int_beq_iff, nat_beq_iff, if◌then◌else◌, leb, is_positive,
  arith, find, contains,
}
use ispo_shedule_backend.Schedule.Models.{
  Time, is_cancelled, is_published, ScheduleLesson, RoomAssignment,
}
use ispo_shedule_backend.Schedule.Store.{Tables}
use ispo_shedule_backend.Schedule.Dictionaries.{Location}
use ispo_shedule_backend.Schedule.Build.Defs.{ScheduleLessonView}
use ispo_shedule_backend.Schedule.Locations.{LocationMeta, is_virtual, meta_of}

pub record LocationAutofillRequest : Type 0 where
  pub group_id : ℤ
  pub start_date : Time
  pub end_date : Time
  pub campus_name : Option String
  pub location_type : Option String
  pub replace_virtual : Bool
  pub dry_run : Bool
  pub comment : Option String

pub record LocationAutofillAssignment : Type 0 where
  pub schedule_lesson_id : ℤ
  pub date : ℕ
  pub pair_number : ℤ
  pub subgroup : Option ℤ
  pub subject_id : Option ℤ
  pub subject_name : String
  pub location_id : Option ℤ
  pub location_name : String
  pub status : String
  pub reason : String
  pub assignment_action : String

pub record LocationAutofillResponse : Type 0 where
  pub group_id : ℤ
  pub date_start : ℕ
  pub date_end : ℕ
  pub dry_run : Bool
  pub assigned : ℕ
  pub skipped : ℕ
  pub created : ℕ
  pub updated : ℕ
  pub data_version : String
  pub assignments : List LocationAutofillAssignment

pub record LocationAutofillSlot : Type 0 where
  pub date : ℕ
  pub pair_number : ℤ
  pub location_id : ℤ

abbrev pub slot_beq : LocationAutofillSlot → LocationAutofillSlot → Bool
slot_beq a b =
    a.date == b.date && (a.pair_number == b.pair_number && a.location_id == b.location_id)

pub slot_beq_iff : (a b : LocationAutofillSlot) → (slot_beq a b ≡ true) ↔ (a ≡ b)
slot_beq_iff a b = ground (
  arith,
  nat_beq_iff a.date b.date,
  int_beq_iff a.pair_number b.pair_number,
  int_beq_iff a.location_id b.location_id,
)

instance abbrev pub autofill_slot_eq : HasEq LocationAutofillSlot
autofill_slot_eq = record { equal = slot_beq; equal_iff = slot_beq_iff }

abbrev pub Occupied : Type 0
Occupied = List LocationAutofillSlot

-- lessonViewNeedsAutofill
unfoldable pub lesson_view_needs_autofill :
    ScheduleLessonView → List (ℤ × LocationMeta) → Bool → Bool
lesson_view_needs_autofill lesson metas replace_virtual = elim lesson.location_id [
  | none ↦ true
  | some id ↦
      if not (is_positive id) then true else replace_virtual && is_virtual (meta_of metas id)
]

-- chooseFreeLocation
unfoldable pub choose_free_location : ℕ → ℤ → List Location → Occupied → Option Location
choose_free_location date pair_number candidates occupied =
    find
      (λ l.
        not (
          contains (record { date = date; pair_number = pair_number; location_id = l.id })
            occupied))
      candidates

-- the rows of occupiedLocationSlots: a lesson joined with its published assignments
unfoldable pub lesson_slots : ScheduleLesson → List RoomAssignment → Occupied
lesson_slots sl [] = []
lesson_slots sl (ra ∷ assignments) =
    let rest = lesson_slots sl assignments in
    if ra.schedule_lesson_id == sl.id && is_published ra.status
    then (record {
      date = sl.lesson_date.day;
      pair_number = sl.pair_number;
      location_id = ra.location_id;
    })
      ∷ rest
    else rest

-- occupiedLocationSlots
unfoldable pub occupied_slots_of : List ScheduleLesson → List RoomAssignment → ℕ → ℕ → Occupied
unfolding lesson_slots
occupied_slots_of [] assignments start_day end_day = []
occupied_slots_of (sl ∷ lessons) assignments start_day end_day =
    let rest = occupied_slots_of lessons assignments start_day end_day in
    if (leb start_day sl.lesson_date.day && leb sl.lesson_date.day end_day)
      && not (is_cancelled sl.status)
    then lesson_slots sl assignments ++ rest
    else rest

unfoldable pub occupied_location_slots : Tables → ℕ → ℕ → Occupied
unfolding occupied_slots_of
occupied_location_slots t = occupied_slots_of t.lessons t.room_assignments

-- the ids of locationMetaForLessonViews, each once
unfoldable pub location_ids : List ℤ → List ScheduleLessonView → List ℤ
location_ids seen [] = []
location_ids seen (lesson ∷ rows) = elim lesson.location_id [
  | none ↦ location_ids seen rows
  | some id ↦
      let skip = not (is_positive id) || contains id seen in
      let rest = location_ids (if skip then seen else id ∷ seen) rows in
      if skip then rest else id ∷ rest
]

-- the repository's queries over further tables
pub record AutofillQueries : Type 0 where
  pub lesson_views : Tables → ℤ → ℕ → ℕ → List ScheduleLessonView
  pub location_metas : Tables → List ℤ → List (ℤ × LocationMeta)
  pub available_locations : Tables → ℕ → Option String → Option String → List Location
  pub format_version : Time → String

abbrev pub assignment_for : ScheduleLessonView → LocationAutofillAssignment
assignment_for lesson = record {
  schedule_lesson_id = lesson.id;
  date = lesson.lesson_date.day;
  pair_number = lesson.pair_number;
  subgroup = lesson.subgroup;
  subject_id = lesson.subject_id;
  subject_name = lesson.subject_name;
  location_id = none;
  location_name = "";
  status = "skipped";
  reason = "";
  assignment_action = "";
}

abbrev pub add_skipped :
    LocationAutofillAssignment → LocationAutofillResponse → LocationAutofillResponse
add_skipped a resp = record resp {
  skipped = suc resp.skipped;
  assignments = resp.assignments ++ a ∷ [];
}

abbrev pub add_assigned :
    LocationAutofillAssignment → LocationAutofillResponse → LocationAutofillResponse
add_assigned a resp = record resp {
  assigned = suc resp.assigned;
  assignments = resp.assignments ++ a ∷ [];
}

abbrev pub slot_for : ScheduleLessonView → Location → LocationAutofillSlot
slot_for lesson location = record {
  date = lesson.lesson_date.day;
  pair_number = lesson.pair_number;
  location_id = location.id;
}

-- the end of the loop's body, after the choice
unfoldable pub place_lesson :
    ScheduleLessonView
    → Option Location
    → LocationAutofillResponse × Occupied
    → LocationAutofillResponse × Occupied
place_lesson lesson none (resp, occupied) = (
  add_skipped (record (assignment_for lesson) { reason = "no_available_location" }) resp,
  occupied,
)
place_lesson lesson (some chosen) (resp, occupied) = (
  add_assigned
      (record (assignment_for lesson) {
        location_id = some chosen.id;
        location_name = chosen.name;
        status = "assigned";
      })
      resp,
  slot_for lesson chosen ∷ occupied,
)

abbrev pub empty_autofill : LocationAutofillRequest → String → LocationAutofillResponse
empty_autofill req data_version = record {
  group_id = req.group_id;
  date_start = req.start_date.day;
  date_end = req.end_date.day;
  dry_run = req.dry_run;
  assigned = 0;
  skipped = 0;
  created = 0;
  updated = 0;
  data_version = data_version;
  assignments = [];
}
