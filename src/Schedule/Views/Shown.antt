-- ===== src/Schedule/Views/Shown.antt =====
-- What a view by teacher or location shows (Service): the matching lessons of all groups.
use ispo_shedule_backend.Prelude.{if◌then◌else◌, filter, ◌==◌}
use ispo_shedule_backend.Schedule.WeekCache.Clone.{
  clone_day_schedule, clone_week_schedule_response, cloned,
}
use ispo_shedule_backend.Schedule.Models.{DaySchedule}
use ispo_shedule_backend.Schedule.Views.Defs.{view_lesson}
use ispo_shedule_backend.Prelude.{
  ℕ, zero, suc, ◌-◌, ℤ, Bool, ◌≡◌, Option, List, [], ◌∷◌, ◌++◌, map, string_eq, nat_eq, int_eq,
  refl, sym, subst, ◌∙◌, ap, All,
}
use mathlib.Core.List.{Permᴰ, append_assoc, append-nil}
use ispo_shedule_backend.Prelude.Results.{Result, ok, ok_inj}
use ispo_shedule_backend.Prelude.Sorting.{stable_sort-IsSorted, stable_sort-perm}
use ispo_shedule_backend.Schedule.Models.{Group, Lesson, WeekScheduleResponse}
use ispo_shedule_backend.Schedule.Errors.{Error}
use ispo_shedule_backend.Schedule.Views.Defs.{
  ScheduleViewLesson, ScheduleViewDay, ScheduleViewResponse, ViewReads, view_before,
  sort_schedule_view_lessons, view_days_from_week, empty_schedule_view_days, add_days, sort_day,
}
use ispo_shedule_backend.Schedule.Views.Service.{Cached, collect, get_aggregated_schedule_view}
use ispo_shedule_backend.Schedule.Views.Order.{view_before-IsWeakOrder}
use ispo_shedule_backend.Schedule.Views.Collected.{
  continue-eq-ok, AreWeeks, dates_from, all_lessons, group_lessons, IsViewDay, Holds, Holds-eq,
  add_days-Holds, dates_of-add_days,
}

module _ (matches : Lesson → Bool) where
  -- a view does not see whether a slice is nil
  group_lessons-clone :
      (group : Group) (days : List DaySchedule) (date : ℕ)
      → group_lessons matches group (map clone_day_schedule days) date
        ≡ group_lessons matches group days date
  unfolding group_lessons clone_day_schedule
  group_lessons-clone group [] date = refl
  group_lessons-clone group (d ∷ days) date =
      ap
        (λ l.
          (if d.date == date then map (view_lesson group) (filter matches d.lessons) else []) ++ l)
        (group_lessons-clone group days date)

  module _ {C : Type 0} (get : ℤ → Cached C WeekScheduleResponse) (Sound : C → Type 0)
      (plain : ℤ → Result Error WeekScheduleResponse)
      (transparent : (id : ℤ) (c : C)
        → Sound c
        → (cloned (get id c).0 ≡ plain id) × Sound (get id c).1) where
    -- What a loop that ends well has collected.
    abbrev Collected : List Group → (ℕ → List ScheduleViewLesson) → List ScheduleViewDay → Type 0
    Collected groups so_far out =
        (weeks : List (Group × WeekScheduleResponse)) × AreWeeks plain groups weeks
        × Holds (λ date. so_far date ++ all_lessons matches weeks date) out

    collect-Collected :
        (groups : List Group) (so_far : ℕ → List ScheduleViewLesson)
        (days out : List ScheduleViewDay) (c : C)
        → Sound c
        → Holds so_far days
        → (collect get matches groups days c).0 ≡ ok out
        → Collected groups so_far out
    unfolding collect view_days_from_week all_lessons clone_week_schedule_response
    collect-Collected [] so_far days out c s h run = (
      [],
      refl,
      subst (Holds (λ date. so_far date ++ [])) (ok_inj run)
          (Holds-eq so_far _ days (λ date. sym (append-nil (so_far date))) h),
    )
    collect-Collected (group ∷ groups) so_far days out c s h run =
        let (fits, next) = transparent group.id c s in
        let (week, got, r) = continue-eq-ok (get group.id c) _ run in
        let (weeks, are, holds) =
          collect-Collected groups
            (λ date. so_far date ++ group_lessons matches group week.days date)
            (add_days days (view_days_from_week matches week group)) out (get group.id c).1 next
            (add_days-Holds matches group week.days so_far days h) r in
        (
          (group, clone_week_schedule_response week) ∷ weeks,
          (groups, refl, sym fits ∙ ap cloned got, are),
          Holds-eq _ _ out
              (λ date.
                append_assoc (so_far date) (group_lessons matches group week.days date)
                  (all_lessons matches weeks date)
                ∙ ap (λ l. so_far date ++ (l ++ all_lessons matches weeks date))
                    (sym (group_lessons-clone group week.days date)))
              holds,
        )

    dates_of-collect :
        (groups : List Group) (days out : List ScheduleViewDay) (c : C)
        → (collect get matches groups days c).0 ≡ ok out
        → map ScheduleViewDay.date out ≡ map ScheduleViewDay.date days
    unfolding collect
    dates_of-collect [] days out c run = ap (map ScheduleViewDay.date) (sym (ok_inj run))
    dates_of-collect (group ∷ groups) days out c run =
        let (week, got, r) = continue-eq-ok (get group.id c) _ run in
        dates_of-collect groups (add_days days (view_days_from_week matches week group)) out
          (get group.id c).1 r
        ∙ dates_of-add_days days (view_days_from_week matches week group)

    sorted_days :
        (weeks : List (Group × WeekScheduleResponse)) (days : List ScheduleViewDay)
        → Holds (λ date. all_lessons matches weeks date) days
        → All (IsViewDay matches weeks) (map sort_day days)
          × (map ScheduleViewDay.date (map sort_day days) ≡ map ScheduleViewDay.date days)
    unfolding sort_schedule_view_lessons
    sorted_days weeks [] h = (tt, refl)
    sorted_days weeks (d ∷ days) h =
        let (rest, same) = sorted_days weeks days h.1 in
        (
          (
            (
              stable_sort-IsSorted view_before view_before-IsWeakOrder d.lessons,
              Permᴰ.trans (stable_sort-perm view_before d.lessons) h.0,
            ),
            rest,
          ),
          ap (λ t. d.date ∷ t) same,
        )

    empty_days :
        (semester_start : Option ℕ) (n day : ℕ)
        → Holds (λ date. []) (empty_schedule_view_days semester_start n day)
          × (map ScheduleViewDay.date (empty_schedule_view_days semester_start n day)
              ≡ dates_from n day)
    unfolding empty_schedule_view_days dates_from
    empty_days semester_start zero day = (tt, refl)
    empty_days semester_start (suc n) day =
        let (rest, same) = empty_days semester_start n (suc day) in
        ((Permᴰ.nil, rest), ap (λ t. day ∷ t) same)

    -- A view by teacher or location has one day for each date asked for, in order. The lessons of a
    -- day are the matching lessons of that date in the schedules of all groups, no more and no fewer,
    -- by pair, name of the group and subgroup. If GetRange depends on what its cache holds for nil
    -- slices only, these schedules do not depend on it.
    pub get_aggregated_schedule_view-IsViewDay :
        (reads : ViewReads) (semester_start : Option ℕ) (resp out : ScheduleViewResponse)
        (start_day end_day : ℕ) (c : C)
        → Sound c
        → (get_aggregated_schedule_view get reads semester_start resp start_day end_day matches c).0
          ≡ ok out
        → (groups : List Group) × (reads.list_groups ≡ ok groups)
          × ((weeks : List (Group × WeekScheduleResponse)) × AreWeeks plain groups weeks
              × All (IsViewDay matches weeks) out.days)
          × (map ScheduleViewDay.date out.days ≡ dates_from (suc end_day - start_day) start_day)
    unfolding get_aggregated_schedule_view
    get_aggregated_schedule_view-IsViewDay reads semester_start resp out start_day end_day c s run =
        let (groups, listed, r) = continue-eq-ok (reads.list_groups, c) _ run in
        let (days, collected, e) =
          continue-eq-ok
            (collect get matches groups
              (empty_schedule_view_days semester_start (suc end_day - start_day) start_day) c)
            _ r in
        let (nothing, dates) = empty_days semester_start (suc end_day - start_day) start_day in
        let (weeks, are, holds) =
          collect-Collected groups (λ date. []) _ days c s nothing collected in
        let (shown, same) = sorted_days weeks days holds in
        let p : map sort_day days ≡ out.days = ap ScheduleViewResponse.days (ok_inj e) in
        (
          groups,
          listed,
          (weeks, are, subst (All (IsViewDay matches weeks)) p shown),
          ap (map ScheduleViewDay.date) (sym p)
              ∙ same
              ∙ dates_of-collect groups _ days c collected
              ∙ dates,
        )
