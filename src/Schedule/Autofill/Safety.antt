-- ===== src/Schedule/Autofill/Safety.antt =====
-- AutofillLocations as a whole (Service): no room is booked twice.
use ispo_shedule_backend.Prelude.{
  ℕ, ◌+◌, ℤ, false, ◌≡◌, List, [], string_eq, nat_eq, pair_eq, int_eq, All, length, any,
}
use ispo_shedule_backend.Prelude.{AllDistinct}
use ispo_shedule_backend.Schedule.Store.{Tables}
use ispo_shedule_backend.Schedule.Autofill.Defs.{
  LocationAutofillRequest, LocationAutofillResponse, autofill_slot_eq, AutofillQueries,
  location_ids,
}
use ispo_shedule_backend.Schedule.Autofill.Considered.{answered_ids, wanting_ids}
use ispo_shedule_backend.Schedule.Autofill.Planned.{slots_of}
use ispo_shedule_backend.Schedule.Autofill.Taken.{is_taken_by}

-- The lessons to be answered for, by what the tables say.
abbrev pub considered : AutofillQueries → LocationAutofillRequest → Tables → List ℤ
considered q req t =
    let rows = q.lesson_views t req.group_id req.start_date.day req.end_date.day in
    wanting_ids rows (q.location_metas t (location_ids [] rows)) req.replace_virtual

-- What a response says, of the tables before.
pub record IsAutofilled (t : Tables) (start_day end_day : ℕ) (asked : List ℤ)
    (resp : LocationAutofillResponse) : Type 0 where
  pub answered : answered_ids resp.assignments ≡ asked
  pub free :
      All
        (λ slot. any (is_taken_by t.room_assignments start_day end_day slot) t.lessons ≡ false)
        (slots_of resp.assignments)
  pub distinct : AllDistinct (slots_of resp.assignments)
  pub counted : length (slots_of resp.assignments) ≡ resp.assigned
  pub total : length resp.assignments ≡ resp.assigned + resp.skipped
