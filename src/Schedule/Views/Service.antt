-- ===== src/Schedule/Views/Service.antt =====
-- internal/schedule/service_filter.go: GetScheduleView and its three scopes. `get` is GetRange between
-- the dates of the view, over the service's cache.
use ispo_shedule_backend.Prelude.{
  ℕ, suc, ◌-◌, ℤ, String, Bool, true, Option, none, some, List, [], ◌∷◌, map, ◌==◌, string_eq,
  nat_eq, int_eq, if◌then◌else◌, ltb,
}
use ispo_shedule_backend.Prelude.Results.{Result, ok, err}
use ispo_shedule_backend.Schedule.Models.{Group, Lesson, WeekScheduleResponse}
use ispo_shedule_backend.Schedule.Errors.{Error, message}
use ispo_shedule_backend.Schedule.Views.Defs.{
  ScheduleViewFilter, ScheduleViewDay, ScheduleViewResponse, ViewReads,
  normalize_schedule_view_scope, view_days_from_week, empty_schedule_view_days, add_days, sort_day,
  required_id, resolve_schedule_view_teacher, taught_by, held_in,
}

-- A call that may change the cache, whether it fails or not.
abbrev pub Cached : Type 0 → Type 0 → Type 0
Cached C A = C → Result Error A × C

abbrev pub continue : {C A B : Type 0} → Result Error A × C → (A → Cached C B) → Result Error B × C
continue (err e, c) next = (err e, c)
continue (ok a, c) next = next a c

abbrev pub loaded : {C A B : Type 0} → Result Error A → (A → Cached C B) → Cached C B
loaded r next c = continue (r, c) next

abbrev pub empty_response : String → ℕ → ℕ → String → ScheduleViewResponse
empty_response scope start_day end_day data_version = record {
  scope = scope;
  date_start = start_day;
  date_end = end_day;
  data_version = data_version;
  group_id = none;
  group_name = none;
  teacher_id = none;
  teacher_name = none;
  location_id = none;
  location_name = none;
  days = [];
}

module _ {C : Type 0} (get : ℤ → Cached C WeekScheduleResponse) where
  -- the loop over the groups
  unfoldable pub collect :
      (Lesson → Bool) → List Group → List ScheduleViewDay → Cached C (List ScheduleViewDay)
  collect matches [] days c = (ok days, c)
  collect matches (group ∷ groups) days c =
      continue (get group.id c)
        (λ week. collect matches groups (add_days days (view_days_from_week matches week group)))

  -- getAggregatedScheduleView
  unfoldable pub get_aggregated_schedule_view :
      ViewReads
      → Option ℕ
      → ScheduleViewResponse
      → ℕ
      → ℕ
      → (Lesson → Bool)
      → Cached C ScheduleViewResponse
  unfolding collect
  get_aggregated_schedule_view reads semester_start resp start_day end_day matches =
      loaded reads.list_groups λ groups c.
        continue
          (collect matches groups
            (empty_schedule_view_days semester_start (suc end_day - start_day) start_day) c)
          (λ days c'. (ok (record resp { days = map sort_day days }), c'))

  -- getGroupScheduleView
  unfoldable pub get_group_schedule_view :
      ViewReads → ScheduleViewResponse → ScheduleViewFilter → Cached C ScheduleViewResponse
  get_group_schedule_view reads resp f = loaded (required_id f.group_id "group_id required") λ id.
      loaded (reads.get_group id) λ group c. continue (get group.id c) λ week c'. (
        ok (record resp {
          group_id = some group.id;
          group_name = some group.name;
          data_version = week.data_version;
          days = view_days_from_week (λ lesson. true) week group;
        }),
        c',
      )

  -- getTeacherScheduleView
  unfoldable pub get_teacher_schedule_view :
      ViewReads
      → Option ℕ
      → ScheduleViewResponse
      → ScheduleViewFilter
      → ℕ
      → ℕ
      → Cached C ScheduleViewResponse
  unfolding get_aggregated_schedule_view
  get_teacher_schedule_view reads semester_start resp f start_day end_day =
      loaded (resolve_schedule_view_teacher reads f) λ teacher.
        get_aggregated_schedule_view reads semester_start
          (record resp { teacher_name = some teacher.0; teacher_id = teacher.1 }) start_day end_day
          (taught_by teacher.0)

  -- getLocationScheduleView
  unfoldable pub get_location_schedule_view :
      ViewReads
      → Option ℕ
      → ScheduleViewResponse
      → ScheduleViewFilter
      → ℕ
      → ℕ
      → Cached C ScheduleViewResponse
  unfolding get_aggregated_schedule_view
  get_location_schedule_view reads semester_start resp f start_day end_day =
      loaded (required_id f.location_id "location_id required") λ id.
        loaded (reads.get_location id) λ location.
          get_aggregated_schedule_view reads semester_start
            (record resp { location_id = some location.id; location_name = some location.name })
            start_day end_day (held_in location.id)

  -- the switch on the scope, of which normalizeScheduleViewScope leaves three texts and the empty one
  unfoldable pub view_of_scope :
      ViewReads
      → Option ℕ
      → ScheduleViewResponse
      → ScheduleViewFilter
      → ℕ
      → ℕ
      → Cached C ScheduleViewResponse
  unfolding get_group_schedule_view get_teacher_schedule_view get_location_schedule_view
  view_of_scope reads semester_start resp f start_day end_day =
      if resp.scope == "group"
      then get_group_schedule_view reads resp f
      else if resp.scope == "teacher"
      then get_teacher_schedule_view reads semester_start resp f start_day end_day
      else if resp.scope == "location"
      then get_location_schedule_view reads semester_start resp f start_day end_day
      else λ c. (err (message "unsupported scope"), c)

  -- GetScheduleView
  unfoldable pub get_schedule_view :
      ViewReads → Option ℕ → ScheduleViewFilter → ℕ → ℕ → Cached C ScheduleViewResponse
  unfolding view_of_scope
  get_schedule_view reads semester_start f start_day end_day =
      if ltb end_day start_day
      then (λ c. (err (message "date_end before date_start"), c))
      else if normalize_schedule_view_scope f.scope == ""
      then (λ c. (err (message "scope must be group, teacher, or location"), c))
      else loaded reads.data_version λ data_version.
        view_of_scope reads semester_start
          (empty_response (normalize_schedule_view_scope f.scope) start_day end_day data_version) f
          start_day end_day
