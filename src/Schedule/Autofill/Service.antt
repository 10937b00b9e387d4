-- ===== src/Schedule/Autofill/Service.antt =====
-- internal/schedule/service_location_autofill.go: AutofillLocations, over the database of Store. The
-- candidates of a week, which the source keeps in a map, are read again: no write runs meanwhile.
use ispo_shedule_backend.Prelude.{
  suc, ℤ, String, Bool, true, false, not, ◌||◌, Option, none, some, List, [], ◌∷◌, ◌++◌, ◌==◌,
  string_eq, nat_eq, int_eq, if◌then◌else◌, ltb, is_positive,
}
use ispo_shedule_backend.Prelude.Transaction.{
  Step, pure, ◌>>=◌, ◌>>◌, reject_if, Call, atomic, then_call,
}
use ispo_shedule_backend.Prelude.Results.{ok}
use ispo_shedule_backend.Schedule.SystemState.{get_system_state}
use ispo_shedule_backend.Schedule.Models.{Time, RoomAssignment}
use ispo_shedule_backend.Schedule.Errors.{Error, message}
use ispo_shedule_backend.Schedule.Store.{Database}
use ispo_shedule_backend.Schedule.Lessons.Normalize.{is_zero, date_only}
use ispo_shedule_backend.Schedule.Rooms.Defs.{
  query, get_room_assignment_for_lesson, upsert_room_assignment_for_lesson,
}
use ispo_shedule_backend.Schedule.WeekCache.Range.{monday_of_week}
use ispo_shedule_backend.Schedule.Build.Defs.{ScheduleLessonView}
use ispo_shedule_backend.Schedule.Locations.{LocationMeta}
use ispo_shedule_backend.Schedule.Autofill.Defs.{
  LocationAutofillRequest, LocationAutofillAssignment, LocationAutofillResponse, Occupied,
  AutofillQueries, lesson_view_needs_autofill, choose_free_location, occupied_location_slots,
  location_ids, assignment_for, add_skipped, place_lesson, empty_autofill,
}

-- `Created++` or `Updated++`, with the action
unfoldable pub count_write :
    Option RoomAssignment
    → LocationAutofillAssignment
    → LocationAutofillResponse
    → LocationAutofillResponse
count_write none a resp = record resp {
  created = suc resp.created;
  assignments = resp.assignments ++ record a { assignment_action = "created" } ∷ [];
}
count_write (some existing) a resp = record resp {
  updated = suc resp.updated;
  assignments = resp.assignments ++ record a { assignment_action = "updated" } ∷ [];
}

-- rows, locationMeta and occupied
pub record AutofillRows : Type 0 where
  pub rows : List ScheduleLessonView
  pub metas : List (ℤ × LocationMeta)
  pub occupied : Occupied

module _ (db : Database) (q : AutofillQueries) where
  -- the body of the loop over the lessons
  unfoldable pub autofill_lesson :
      LocationAutofillRequest
      → List (ℤ × LocationMeta)
      → ScheduleLessonView
      → LocationAutofillResponse × Occupied
      → Step Error db.State (LocationAutofillResponse × Occupied)
  autofill_lesson req metas lesson (resp, occupied) =
      if not (lesson_view_needs_autofill lesson metas req.replace_virtual)
      then pure (resp, occupied)
      else elim lesson.subject_id [
        | none ↦ pure (
          add_skipped
              (record (assignment_for lesson) {
                subject_name = "";
                reason = "lesson_without_subject";
              })
              resp,
          occupied,
        )
        | some subject_id ↦
            query db (λ t.
              q.available_locations t (monday_of_week lesson.lesson_date.day) req.campus_name
                req.location_type)
            >>= λ candidates. pure (
                place_lesson lesson
                  (choose_free_location lesson.lesson_date.day lesson.pair_number candidates
                    occupied)
                  (resp, occupied))
      ]

  unfoldable pub autofill_lessons :
      LocationAutofillRequest
      → List (ℤ × LocationMeta)
      → List ScheduleLessonView
      → LocationAutofillResponse × Occupied
      → Step Error db.State (LocationAutofillResponse × Occupied)
  autofill_lessons req metas [] acc = pure acc
  autofill_lessons req metas (lesson ∷ rows) acc =
      autofill_lesson req metas lesson acc >>= autofill_lessons req metas rows

  -- the body of the loop inside the transaction, for the room of the assignment
  unfoldable pub write_at :
      LocationAutofillAssignment
      → LocationAutofillResponse
      → Option ℤ
      → Step Error db.State LocationAutofillResponse
  write_at a resp none = pure (record resp { assignments = resp.assignments ++ a ∷ [] })
  write_at a resp (some location_id) =
      if not (a.status == "assigned")
      then pure (record resp { assignments = resp.assignments ++ a ∷ [] })
      else (get_room_assignment_for_lesson db a.schedule_lesson_id >>= λ existing.
          upsert_room_assignment_for_lesson db a.schedule_lesson_id location_id "auto"
          >>= λ written. pure (count_write existing a resp))

  -- the transaction: the assignments are written anew, each with its action
  unfoldable pub write_all :
      List LocationAutofillAssignment
      → LocationAutofillResponse
      → Step Error db.State LocationAutofillResponse
  write_all [] resp = pure resp
  write_all (a ∷ assignments) resp = write_at a resp a.location_id >>= write_all assignments

  -- GetSystemState and the text of its version
  unfoldable pub read_version : Time → Step Error db.State String
  read_version now = get_system_state db now >>= λ version. pure (q.format_version version)

  -- BumpScheduleVersion, if anything was written
  unfoldable pub renew_version :
      Time → LocationAutofillResponse → Bool → Call Error db.State LocationAutofillResponse
  renew_version now written true s = then_call (atomic db.bump_version s) λ _ t.
      then_call (atomic (read_version now) t)
        λ data_version u. (ok (record written { data_version = data_version }), u)
  renew_version now written false s = (ok written, s)

  -- the transaction with its COMMIT
  unfoldable pub write_transaction :
      LocationAutofillResponse → Step Error db.State LocationAutofillResponse
  unfolding write_all
  write_transaction resp = do
    written ← write_all resp.assignments (record resp { assignments = [] })
    db.commit
    pure written

  -- from the transaction on
  unfoldable pub write_autofill :
      Time → LocationAutofillResponse → Call Error db.State LocationAutofillResponse
  unfolding write_transaction renew_version
  write_autofill now resp s =
      then_call (atomic (write_transaction resp) s)
        λ written. renew_version now written (ltb 0 written.created || ltb 0 written.updated)

  -- `if req.DryRun || resp.Assigned == 0 { return resp, nil }`
  unfoldable pub finish_autofill :
      Time → LocationAutofillResponse → Bool → Call Error db.State LocationAutofillResponse
  unfolding write_autofill
  finish_autofill now resp true s = (ok resp, s)
  finish_autofill now resp false s = write_autofill now resp s

  -- the guards, and what is read before the system state
  unfoldable pub read_autofill : LocationAutofillRequest → Step Error db.State AutofillRows
  read_autofill req = do
    reject_if (not (is_positive req.group_id)) (message "group_id required")
    let start_date = date_only req.start_date
    let end_date = date_only req.end_date
    reject_if (is_zero start_date || is_zero end_date) (message "start_date and end_date required")
    reject_if (ltb end_date.day start_date.day) (message "date_end before date_start")
    rows ← query db (λ t. q.lesson_views t req.group_id start_date.day end_date.day)
    metas ← query db (λ t. q.location_metas t (location_ids [] rows))
    occupied ← query db (λ t. occupied_location_slots t start_date.day end_date.day)
    pure (record { rows = rows; metas = metas; occupied = occupied })

  -- AutofillLocations; the clock is read for each GetSystemState
  unfoldable pub autofill_locations :
      Time → Time → LocationAutofillRequest → Call Error db.State LocationAutofillResponse
  unfolding read_autofill autofill_lessons finish_autofill
  autofill_locations now later req s = then_call (atomic (read_autofill req) s) λ read s₁.
      then_call (atomic (read_version now) s₁) λ data_version s₂.
        then_call
          (atomic
            (autofill_lessons req read.metas read.rows
              (empty_autofill req data_version, read.occupied))
            s₂)
          λ plan s₃. finish_autofill later plan.0 (req.dry_run || plan.0.assigned == 0) s₃
