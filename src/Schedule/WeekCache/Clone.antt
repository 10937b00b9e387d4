-- ===== src/Schedule/WeekCache/Clone.antt =====
-- internal/schedule/week_cache.go: cloneWeekScheduleResponse. A pointer to a value is the value; the
-- slices are copied by `append` to nil, so an empty one becomes nil.
use ispo_shedule_backend.Prelude.{
  Bool, true, false, ◌≡◌, List, [], ◌∷◌, map, string_eq, nat_eq, pair_eq, int_eq, refl, ap,
}
use ispo_shedule_backend.Prelude.Results.{Result, ok, err}
use ispo_shedule_backend.Schedule.Models.{DaySchedule, WeekScheduleResponse}
use ispo_shedule_backend.Schedule.Errors.{Error}

abbrev pub is_empty {ℓ} : {A : Type ℓ} → List A → Bool
is_empty [] = true
is_empty (x ∷ xs) = false

unfoldable pub clone_day_schedule : DaySchedule → DaySchedule
clone_day_schedule d = record d { events_nil = is_empty d.events; lessons_nil = is_empty d.lessons }

-- cloneWeekScheduleResponse; the days of a response are never an empty slice
unfoldable pub clone_week_schedule_response : WeekScheduleResponse → WeekScheduleResponse
unfolding clone_day_schedule
clone_week_schedule_response w = record w { days = map clone_day_schedule w.days }

abbrev pub cloned : Result Error WeekScheduleResponse → Result Error WeekScheduleResponse
cloned (err e) = err e
cloned (ok w) = ok (clone_week_schedule_response w)

clone_days-again :
    (days : List DaySchedule)
    → map clone_day_schedule (map clone_day_schedule days) ≡ map clone_day_schedule days
unfolding clone_day_schedule
clone_days-again [] = refl
clone_days-again (d ∷ days) = ap (λ l. clone_day_schedule d ∷ l) (clone_days-again days)

pub clone-again :
    (w : WeekScheduleResponse)
    → clone_week_schedule_response (clone_week_schedule_response w) ≡ clone_week_schedule_response w
unfolding clone_week_schedule_response
clone-again w = ap (λ l. record w { days = l }) (clone_days-again w.days)

pub cloned-again : (r : Result Error WeekScheduleResponse) → cloned (cloned r) ≡ cloned r
cloned-again (err e) = refl
cloned-again (ok w) = ap ok (clone-again w)
