-- ===== src/Schedule/WeekCache/Range.antt =====
-- internal/schedule/service.go: GetCurrentWeek and GetRange over the cache, and mondayOfWeek
-- (service_build.go). Dates are day numbers, of which 0 is a Monday. The database is that of Store;
-- what buildDays answers in each of its states is the argument `build`, the text of a version
-- `format`. No other call runs between the steps of one.
use ispo_shedule_backend.Prelude.{
  ℕ, ◌+◌, ◌-◌, ◌%◌, ℤ, String, Bool, true, false, not, ◌&&◌, Option, none, some, List, ◌==◌,
  string_eq, nat_eq, pair_eq, int_eq, if◌then◌else◌, ltb, is_positive,
}
use ispo_shedule_backend.Prelude.Results.{Result, ok, err}
use ispo_shedule_backend.Schedule.Models.{Time, DaySchedule, WeekScheduleResponse}
use ispo_shedule_backend.Schedule.Errors.{Error, message}
use ispo_shedule_backend.Schedule.Store.{Database}
use ispo_shedule_backend.Schedule.SystemState.{get_system_state}
use ispo_shedule_backend.Schedule.WeekCache.Defs.{WeekCacheKey, WeekCache, key_eq, get, set}
use ispo_shedule_backend.Schedule.WeekCache.Clone.{clone_week_schedule_response}

-- mondayOfWeek: `(weekday + 6) % 7` days back, with Sunday as weekday 0
unfoldable pub monday_of_week : ℕ → ℕ
monday_of_week day = day - day % 7

-- `startDate.Equal(weekStart) && endDate.Equal(weekStart.AddDate(0, 0, 5))`
unfoldable pub is_canonical_week : ℕ → ℕ → Bool
is_canonical_week start_day end_day =
    start_day == monday_of_week start_day && end_day == monday_of_week start_day + 5

abbrev pub key_of : ℤ → ℕ → String → WeekCacheKey
key_of group_id start_day data_version = record {
  group_id = group_id;
  week_start = monday_of_week start_day;
  data_version = data_version;
}

-- `s.weekCache.set(k, …)`; a panic of `set` is left to the invariant that rules it out
abbrev pub cache_set : WeekCache → WeekCacheKey → WeekScheduleResponse → WeekCache
cache_set c k v = elim (set c k v) [ none ↦ c | some c' ↦ c' ]

-- the end of GetRange: the response is built, and a clone is kept if the week is canonical
unfoldable pub keep_range :
    Bool
    → WeekCacheKey
    → WeekCache
    → Result Error WeekScheduleResponse
    → Result Error WeekScheduleResponse × WeekCache
keep_range canonical k c (err e) = (err e, c)
keep_range true k c (ok resp) = (ok resp, cache_set c k (clone_week_schedule_response resp))
keep_range false k c (ok resp) = (ok resp, c)

-- a week that is kept is answered by a clone
unfoldable pub cached_range :
    Bool
    → WeekCacheKey
    → WeekCache
    → Result Error WeekScheduleResponse
    → Option WeekScheduleResponse
    → Result Error WeekScheduleResponse × WeekCache
cached_range canonical k c built none = keep_range canonical k c built
cached_range canonical k c built (some resp) = (ok (clone_week_schedule_response resp), c)

-- the entry of the cache that GetRange looks for, if the week is canonical
abbrev pub kept_week : ℤ → ℕ → ℕ → String → WeekCache → Option WeekScheduleResponse
kept_week group_id start_day end_day version c =
    if is_canonical_week start_day end_day then get c (key_of group_id start_day version) else none

module _ (db : Database) (format : Time → String)
    (build : db.State → ℤ → ℕ → ℕ → Result Error (List DaySchedule)) where
  -- the response that GetRange builds
  unfoldable pub fresh_range : db.State → String → ℤ → ℕ → ℕ → Result Error WeekScheduleResponse
  fresh_range s data_version group_id start_day end_day =
      elim (build s group_id start_day end_day) [
        | err e ↦ err e
        | ok days ↦ ok (record {
          group_id = group_id;
          date_start = start_day;
          date_end = end_day;
          data_version = data_version;
          days = days;
        })
      ]

  abbrev pub Answer : Type 0
  Answer = Result Error WeekScheduleResponse × (db.State × WeekCache)

  abbrev pub in_state : db.State → Result Error WeekScheduleResponse × WeekCache → Answer
  in_state t (r, c) = (r, (t, c))

  -- GetRange from the system state on
  unfoldable pub versioned_range :
      ℤ → ℕ → ℕ → db.State → WeekCache → Result Error (Time × db.State) → Answer
  versioned_range group_id start_day end_day s c (err e) = (err e, (s, c))
  versioned_range group_id start_day end_day s c (ok (version, t)) =
      let data_version = format version in
      in_state t (
        cached_range (is_canonical_week start_day end_day) (key_of group_id start_day data_version)
          c (fresh_range t data_version group_id start_day end_day)
          (kept_week group_id start_day end_day data_version c))

  -- GetRange
  unfoldable pub get_range : Time → ℤ → Time → Time → db.State × WeekCache → Answer
  unfolding versioned_range
  get_range now group_id start_date end_date (s, c) =
      if not (is_positive group_id)
      then (err (message "group_id required"), (s, c))
      else if ltb end_date.day start_date.day
      then (err (message "date_end before date_start"), (s, c))
      else versioned_range group_id start_date.day end_date.day s c (get_system_state db now s)

  -- GetCurrentWeek
  unfoldable pub get_current_week : Time → ℤ → Time → db.State × WeekCache → Answer
  unfolding get_range
  get_current_week now group_id ref_date =
      get_range now group_id (record { day = monday_of_week ref_date.day; nanos = 0 })
        (record { day = monday_of_week ref_date.day + 5; nanos = 0 })

  -- GetRange without a cache, and whether its cache has the week.
  unfoldable pub plain_versioned :
      ℤ → ℕ → ℕ → Result Error (Time × db.State) → Result Error WeekScheduleResponse
  plain_versioned group_id start_day end_day (err e) = err e
  plain_versioned group_id start_day end_day (ok (version, t)) =
      fresh_range t (format version) group_id start_day end_day

  unfoldable pub plain_range : Time → ℤ → Time → Time → db.State → Result Error WeekScheduleResponse
  plain_range now group_id start_date end_date s =
      if not (is_positive group_id)
      then err (message "group_id required")
      else if ltb end_date.day start_date.day
      then err (message "date_end before date_start")
      else plain_versioned group_id start_date.day end_date.day (get_system_state db now s)

  abbrev pub hit_versioned : ℤ → ℕ → ℕ → WeekCache → Result Error (Time × db.State) → Bool
  hit_versioned group_id start_day end_day c (err e) = false
  hit_versioned group_id start_day end_day c (ok (version, t)) =
      elim (kept_week group_id start_day end_day (format version) c) [
        | none ↦ false
        | some w ↦ true
      ]

  abbrev pub is_hit : Time → ℤ → Time → Time → db.State × WeekCache → Bool
  is_hit now group_id start_date end_date (s, c) =
      hit_versioned group_id start_date.day end_date.day c (get_system_state db now s)
