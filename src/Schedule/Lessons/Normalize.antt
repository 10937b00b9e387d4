-- ===== src/Schedule/Lessons/Normalize.antt =====
-- internal/schedule: dateOnly, subgroupKey (service_build.go), normalizeLessonFormat (types.go) and
-- normalizeScheduleLesson with its helpers (repository_lessons.go). An error is returned with no
-- row: no caller reads the row after one.
use ispo_shedule_backend.Prelude.{
  ℤ, pos, String, Bool, false, not, ◌&&◌, ◌||◌, Option, none, some, [], ◌∷◌, ◌==◌, string_eq,
  nat_eq, ltb_ℤ, is_positive, if◌then◌else◌, contains,
}
use ispo_shedule_backend.Prelude.Text.{trim_space, to_lower}
use ispo_shedule_backend.Prelude.Results.{Result, ok, err, ◌>>=◌, ◌>>◌, reject_if}
use ispo_shedule_backend.Schedule.Models.{
  Time, EntityStatus, draft, published, cancelled, other_status, OverrideAction, add, replace,
  cancel, restore, ScheduleLesson,
}
use ispo_shedule_backend.Schedule.Errors.{Error, message}

unfoldable pub date_only : Time → Time
date_only t = record t { nanos = 0 }

abbrev pub is_zero : Time → Bool
is_zero t = t.day == 0 && t.nanos == 0

unfoldable pub normalize_lesson_format : String → String
normalize_lesson_format v =
    let lower = to_lower (trim_space v) in
    if lower == "online" then "online" else if lower == "hybrid" then "hybrid" else "offline"

unfoldable pub normalize_lesson_source : String → String
normalize_lesson_source v =
    let lower = to_lower (trim_space v) in
    if contains lower ("imported" ∷ "auto" ∷ "generated" ∷ "replacement" ∷ [])
    then lower
    else "manual"

-- The constants of OverrideAction; `none` is the empty text of an action that is not known.
unfoldable pub normalize_override_action : String → Option OverrideAction
normalize_override_action v =
    let lower = to_lower (trim_space v) in
    if lower == "add"
    then some add
    else if lower == "replace"
    then some replace
    else if lower == "cancel"
    then some cancel
    else if lower == "restore"
    then some restore
    else none

-- `pair_number < 1 || pair_number > 8`
abbrev pub bad_pair : ℤ → Bool
bad_pair p = ltb_ℤ p (pos 1) || ltb_ℤ (pos 8) p

abbrev pub bad_subgroup : Option ℤ → Bool
bad_subgroup none = false
bad_subgroup (some s) = ltb_ℤ s (pos 1) || ltb_ℤ (pos 2) s

unfoldable pub normalize_status : EntityStatus → Result Error EntityStatus
normalize_status draft = ok draft
normalize_status published = ok published
normalize_status cancelled = ok cancelled
normalize_status (other_status s) = if s == "" then ok published else err (message "invalid status")

unfoldable pub normalize_flow_key : Option String → Option String
normalize_flow_key none = none
normalize_flow_key (some key) = if trim_space key == "" then none else some (trim_space key)

-- normalizeScheduleLesson
unfoldable pub normalize_schedule_lesson : ScheduleLesson → Result Error ScheduleLesson
unfolding date_only
normalize_schedule_lesson row = do
  reject_if (not (is_positive row.group_id)) (message "group_id required")
  let lesson_date = date_only row.lesson_date
  reject_if (is_zero lesson_date) (message "lesson_date required")
  reject_if (bad_pair row.pair_number) (message "pair_number must be 1..8")
  reject_if (bad_subgroup row.subgroup) (message "subgroup must be 1 or 2")
  status ← normalize_status row.status
  ok (record row {
    lesson_date = lesson_date;
    lesson_format = normalize_lesson_format row.lesson_format;
    status = status;
    source = normalize_lesson_source row.source;
    version = if is_positive row.version then row.version else pos 1;
    flow_key = normalize_flow_key row.flow_key;
  })
