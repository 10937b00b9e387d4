-- ===== src/Schedule/Views/Collected.antt =====
-- The lessons that a view is to show, and what adding the days of a group does to the days collected
-- so far (Defs).
use ispo_shedule_backend.Prelude.{
  ℕ, zero, suc, ℤ, Bool, true, false, ◌≡◌, List, [], ◌∷◌, ◌++◌, map, ◌==◌, string_eq, nat_eq,
  int_eq, nat_beq_iff, if◌then◌else◌, arith, refl, sym, subst, ◌∙◌, inl, inr, All, Bool-cases,
  filter,
}
use mathlib.Core.List.{Permᴰ, append_assoc, append-nil}
use mathlib.Core.List.Permᴰ as Perm
use ispo_shedule_backend.Prelude.Results.{Result, ok, err}
use ispo_shedule_backend.Prelude.Sorting.{IsSorted, stable_sort-perm}
use ispo_shedule_backend.Schedule.Models.{Group, Lesson, WeekScheduleResponse, DaySchedule}
use ispo_shedule_backend.Schedule.Errors.{Error}
use ispo_shedule_backend.Schedule.Views.Defs.{
  ScheduleViewLesson, ScheduleViewDay, view_before, sort_schedule_view_lessons, view_lesson,
  view_day, add_lessons, add_days,
}
use ispo_shedule_backend.Schedule.Views.Service.{Cached, continue}

pub continue-eq-ok :
    {C A B : Type 0} (reply : Result Error A × C) (next : A → Cached C B) {b : B}
    → (continue reply next).0 ≡ ok b
    → (a : A) × (reply.0 ≡ ok a) × ((next a reply.1).0 ≡ ok b)
continue-eq-ok (err e, c) next h = cc
continue-eq-ok (ok a, c) next h = (a, refl, h)

-- `n` dates from `day` on
unfoldable pub dates_from : ℕ → ℕ → List ℕ
dates_from zero day = []
dates_from (suc n) day = day ∷ dates_from n (suc day)

-- The weeks that the loop goes through, one for each group.
abbrev pub AreWeeks :
    (ℤ → Result Error WeekScheduleResponse)
    → List Group
    → List (Group × WeekScheduleResponse)
    → Type 0
AreWeeks plain groups [] = groups ≡ []
AreWeeks plain groups ((group, week) ∷ weeks) =
    (rest : List Group) × (groups ≡ group ∷ rest)
    × (plain group.id ≡ ok week)
    × AreWeeks plain rest weeks

-- The days collected so far have the lessons `so_far`.
abbrev pub Holds : (ℕ → List ScheduleViewLesson) → List ScheduleViewDay → Type 0
Holds so_far = All (λ d. Permᴰ d.lessons (so_far d.date))

-- the same, with the two summands of the next day put together
pub Holds-eq :
    (f g : ℕ → List ScheduleViewLesson) (days : List ScheduleViewDay)
    → ((date : ℕ) → f date ≡ g date)
    → Holds f days
    → Holds g days
Holds-eq f g days e h = subst (λ k. Holds k days) (λ i date. e date i) h

dates_of-add_lessons :
    (days : List ScheduleViewDay) (day : ScheduleViewDay)
    → map ScheduleViewDay.date (add_lessons days day) ≡ map ScheduleViewDay.date days
unfolding add_lessons
dates_of-add_lessons [] day = refl
dates_of-add_lessons (d ∷ days) day = ground (arith, dates_of-add_lessons days day)

pub dates_of-add_days :
    (days shown : List ScheduleViewDay)
    → map ScheduleViewDay.date (add_days days shown) ≡ map ScheduleViewDay.date days
unfolding add_days
dates_of-add_days days [] = refl
dates_of-add_days days (day ∷ shown) =
    dates_of-add_days (add_lessons days day) shown ∙ dates_of-add_lessons days day

module _ (matches : Lesson → Bool) where
  -- The matching lessons of a group on a date.
  unfoldable pub group_lessons : Group → List DaySchedule → ℕ → List ScheduleViewLesson
  group_lessons group [] date = []
  group_lessons group (d ∷ days) date =
      (if d.date == date then map (view_lesson group) (filter matches d.lessons) else [])
      ++ group_lessons group days date

  -- The matching lessons of all groups on a date.
  unfoldable pub all_lessons : List (Group × WeekScheduleResponse) → ℕ → List ScheduleViewLesson
  unfolding group_lessons
  all_lessons [] date = []
  all_lessons ((group, week) ∷ weeks) date =
      group_lessons group week.days date ++ all_lessons weeks date

  -- A day of a view: its lessons are in order, and they are the matching ones of its date.
  abbrev pub IsViewDay : List (Group × WeekScheduleResponse) → ScheduleViewDay → Type 0
  IsViewDay weeks d = IsSorted view_before d.lessons × Permᴰ d.lessons (all_lessons weeks d.date)

  add_lessons-Holds :
      (so_far : ℕ → List ScheduleViewLesson) (group : Group) (day : DaySchedule)
      (days : List ScheduleViewDay)
      → Holds so_far days
      → Holds
          (λ date.
            so_far date
            ++ (if day.date == date
                then map (view_lesson group) (filter matches day.lessons)
                else []))
          (add_lessons days (view_day matches group day))
  unfolding add_lessons sort_schedule_view_lessons
  add_lessons-Holds so_far group day [] h = tt
  add_lessons-Holds so_far group day (d ∷ days) h = (
    elim (Bool-cases (day.date == d.date)) [
      | inl same ↦
          let p : d.date == day.date ≡ true =
            (nat_beq_iff d.date day.date).1 (sym ((nat_beq_iff day.date d.date).0 same)) in
          rw (p, same)
            (Permᴰ.trans (Perm.append_right _ h.0) (
              Perm.append_left (so_far d.date) (
                stable_sort-perm view_before
                  (map (view_lesson group) (filter matches day.lessons)))))
      | inr other ↦
          let p : d.date == day.date ≡ false =
            ground (arith, other, nat_beq_iff d.date day.date, nat_beq_iff day.date d.date) in
          rw (p, other, append-nil) h.0
    ],
    add_lessons-Holds so_far group day days h.1,
  )

  pub add_days-Holds :
      (group : Group) (week : List DaySchedule) (so_far : ℕ → List ScheduleViewLesson)
      (days : List ScheduleViewDay)
      → Holds so_far days
      → Holds
          (λ date. so_far date ++ group_lessons group week date)
          (add_days days (map (view_day matches group) week))
  unfolding add_days group_lessons
  add_days-Holds group [] so_far days h =
      Holds-eq so_far (λ date. so_far date ++ []) days (λ date. sym (append-nil (so_far date))) h
  add_days-Holds group (day ∷ week) so_far days h =
      Holds-eq _ _ _ (λ date. append_assoc (so_far date) _ (group_lessons group week date))
        (add_days-Holds group week
          (λ date.
            so_far date
            ++ (if day.date == date
                then map (view_lesson group) (filter matches day.lessons)
                else []))
          (add_lessons days (view_day matches group day))
          (add_lessons-Holds so_far group day days h))
