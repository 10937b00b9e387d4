-- ===== src/Schedule/Rooms/Defs.antt =====
-- internal/schedule/repository_rooms.go (normalizeRoomAssignment, getRoomAssignmentForLesson,
-- upsertRoomAssignmentForLesson) and service_overrides.go (ensureRoomAvailableTx and its helpers).
use ispo_shedule_backend.Prelude.{
  ℤ, pos, String, Bool, true, false, not, ◌&&◌, ◌||◌, Option, none, some, List, [], ◌∷◌, ◌==◌,
  string_eq, nat_eq, int_eq, is_positive, if◌then◌else◌, contains, find, filter, any, length, ltb,
}
use ispo_shedule_backend.Prelude.Text.{trim_space, to_lower, equal_fold}
use ispo_shedule_backend.Prelude.Results.{Result, ok, err}
use ispo_shedule_backend.Prelude.Transaction.{Step, pure, ◌>>=◌, ◌>>◌, lift, reject_if}
use ispo_shedule_backend.Schedule.Models.{
  Time, EntityStatus, draft, published, cancelled, other_status, is_cancelled, is_published,
  ScheduleLesson, RoomAssignment,
}
use ispo_shedule_backend.Schedule.Errors.{Error, message, room_conflict}
use ispo_shedule_backend.Schedule.Store.{Tables, Database, LocationKind}
use ispo_shedule_backend.Schedule.Lessons.Normalize.{date_only}

unfoldable pub assignment_status : EntityStatus → Result Error EntityStatus
assignment_status draft = ok draft
assignment_status published = ok published
assignment_status cancelled = err (message "invalid room assignment status")
assignment_status (other_status s) =
    if s == "" then ok published else err (message "invalid room assignment status")

unfoldable pub assignment_source : String → Result Error String
assignment_source source =
    let lower = to_lower (trim_space source) in
    let chosen = if lower == "" then "manual" else lower in
    if contains chosen
      ("manual" ∷ "auto" ∷ "imported" ∷ "teacher_preference" ∷ "request" ∷ "replacement" ∷ [])
    then ok chosen
    else err (message "invalid room assignment source")

-- normalizeRoomAssignment
unfoldable pub normalize_room_assignment : RoomAssignment → Result Error RoomAssignment
unfolding assignment_status assignment_source
normalize_room_assignment row =
    if not (is_positive row.location_id)
    then err (message "location_id required")
    else if not (is_positive row.schedule_lesson_id)
    then err (message "schedule_lesson_id required")
    else elim (assignment_source row.source) [
      | err e ↦ err e
      | ok source ↦ elim (assignment_status row.status) [
        | err e ↦ err e
        | ok status ↦ ok (record row { source = source; status = status })
      ]
    ]

-- stringValue
abbrev pub string_value : Option String → String
string_value none = ""
string_value (some v) = v

-- the row of a LEFT-less lookup by `id`, or the zero values of a scan that found none
unfoldable pub location_is_virtual : List LocationKind → ℤ → Bool
location_is_virtual locations id = elim (find (λ l. l.id == id) locations) [
  | none ↦ false
  | some l ↦ equal_fold l.kind "virtual" || l.has_online
]

-- `COALESCE(sl.flow_key, '') = '' OR flow = '' OR lower(sl.flow_key) <> flow`
unfoldable pub flows_apart : Option String → String → Bool
flows_apart key flow =
    string_value key == "" || (flow == "" || not (to_lower (string_value key) == flow))

-- the JOIN with the published assignments of one room
unfoldable pub sits_in : ℤ → List RoomAssignment → ScheduleLesson → Bool
sits_in location_id assignments sl =
    any
      (λ ra.
        ra.schedule_lesson_id == sl.id && (is_published ra.status && ra.location_id == location_id))
      assignments

abbrev pub excluded : Option ℤ → ScheduleLesson → Bool
excluded none sl = false
excluded (some id) sl = sl.id == id

-- the WHERE clause of ensureRoomAvailableTx
abbrev pub is_conflict :
    List RoomAssignment → ℤ → Time → ℤ → String → Option ℤ → ScheduleLesson → Bool
is_conflict assignments location_id lesson_date pair_number flow exclude sl =
    (sl.lesson_date.day == lesson_date.day && sl.pair_number == pair_number)
    && (sits_in location_id assignments sl
        && (not (is_cancelled sl.status)
            && (flows_apart sl.flow_key flow && not (excluded exclude sl))))

-- The lessons that the query of ensureRoomAvailableTx counts. An assignment belongs to one lesson,
-- so a lesson is counted once.
unfoldable pub conflicts : Tables → ℤ → Time → ℤ → String → Option ℤ → List ScheduleLesson
conflicts t location_id lesson_date pair_number flow exclude =
    filter (is_conflict t.room_assignments location_id lesson_date pair_number flow exclude)
      t.lessons

-- the normal form of a flow key that a search uses
abbrev pub flow_of : Option String → String
flow_of key = to_lower (trim_space (string_value key))

module _ (db : Database) where
  -- a SELECT: what it reads of the tables, or the failure of the connection
  unfoldable pub query : {A : Type 0} → (Tables → A) → Step Error db.State A
  query f s = elim (db.read_error s) [ none ↦ ok (f (db.tables s), s) | some e ↦ err e ]

  -- getRoomAssignmentForLesson
  abbrev pub get_room_assignment_for_lesson : ℤ → Step Error db.State (Option RoomAssignment)
  get_room_assignment_for_lesson lesson_id =
      query (λ t. find (λ a. a.schedule_lesson_id == lesson_id) t.room_assignments)

  -- the write of upsertRoomAssignmentForLesson, given the row that exists already
  unfoldable pub write_assignment :
      RoomAssignment → Option RoomAssignment → Step Error db.State RoomAssignment
  write_assignment row none = db.create_assignment row
  write_assignment row (some existing) =
      let next = record existing {
        location_id = row.location_id;
        source = row.source;
        status = published;
      } in
      db.save_assignment next >> pure next

  -- upsertRoomAssignmentForLesson
  unfoldable pub upsert_room_assignment_for_lesson :
      ℤ → ℤ → String → Step Error db.State RoomAssignment
  upsert_room_assignment_for_lesson lesson_id location_id source = do
    row ← lift (
        normalize_room_assignment (record {
          id = pos 0;
          schedule_lesson_id = lesson_id;
          location_id = location_id;
          source = source;
          status = published;
        }))
    existing ← get_room_assignment_for_lesson lesson_id
    write_assignment row existing

  -- the count of ensureRoomAvailableTx, which a virtual room is spared
  unfoldable pub room_verdict :
      ℤ → Time → ℤ → Option String → Option ℤ → Bool → Step Error db.State (Unit {0})
  room_verdict location_id lesson_date pair_number flow_key exclude true = pure tt
  room_verdict location_id lesson_date pair_number flow_key exclude false = do
    count ← query (λ t.
        length
          (conflicts t location_id (date_only lesson_date) pair_number (flow_of flow_key) exclude))
    reject_if (ltb 0 count) (room_conflict location_id (date_only lesson_date) pair_number)

  -- ensureRoomAvailableTx
  unfoldable pub ensure_room_available :
      ℤ → Time → ℤ → Option String → Option ℤ → Step Error db.State (Unit {0})
  ensure_room_available location_id lesson_date pair_number flow_key exclude = do
    reject_if (not (is_positive location_id)) (message "location_id required")
    virtual ← query (λ t. location_is_virtual t.locations location_id)
    room_verdict location_id lesson_date pair_number flow_key exclude virtual
