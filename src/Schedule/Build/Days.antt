-- ===== src/Schedule/Build/Days.antt =====
-- The days that buildDays returns (Defs), and the weeks that GetRange (internal/schedule/service.go)
-- keeps of them.
use ispo_shedule_backend.Prelude.{
  ℕ, zero, suc, ◌-◌, ℤ, String, ◌≡◌, Option, List, [], ◌∷◌, map, string_eq, nat_eq, int_eq, ltb,
  is_positive, lookup, arith, refl, sym, subst, ◌∙◌, ap, inl, inr, All, Bool-cases, length,
}
use mathlib.Core.List.{Permᴰ}
use mathlib.Core.List.Permᴰ as Perm
use ispo_shedule_backend.Prelude.Results.{Result, ok, err, >>=-eq-ok, ok_inj}
use ispo_shedule_backend.Prelude.Sorting.{
  IsStrict, IsSorted, stable_sort-IsSorted, stable_sort-perm, IsStrict-perm, All-append,
}
use ispo_shedule_backend.Schedule.Models.{Time, Lesson, DaySchedule, WeekScheduleResponse}
use ispo_shedule_backend.Schedule.WeekCache.Defs.{WeekCache}
use ispo_shedule_backend.Prelude.{Bool, true, false, if◌then◌else◌}
use ispo_shedule_backend.Schedule.Store.{Database, IsDatabase}
use ispo_shedule_backend.Schedule.WeekCache.Clone.{
  clone_day_schedule, clone_week_schedule_response, cloned,
}
use ispo_shedule_backend.Schedule.WeekCache.Range.{
  get_range, plain_range, plain_versioned, fresh_range, is_hit,
}
use ispo_shedule_backend.Schedule.WeekCache.Sound.{IsSound, get_range-plain_range}
use ispo_shedule_backend.Schedule.Errors.{Error}
use ispo_shedule_backend.Schedule.Build.Defs.{
  ScheduleLessonView, Slots, slots_on, put_rows, lesson_before, lesson_of, day_lessons,
  ScheduleReads, rows_of_chain, DayInputs, build_day, each_day, day_inputs, build_days,
}
use ispo_shedule_backend.Schedule.Inheritance.{schedule_inheritance_chain_ids}
use ispo_shedule_backend.Schedule.Build.Slots.{
  IsSubgroup, IsSlots, put_rows-IsSlots, lessons-IsStrict, lesson_before-IsWeakOrder,
}

-- No lesson is before an earlier one, and no two lessons tie.
abbrev pub IsAscending : List Lesson → Type 0
IsAscending lessons = IsSorted lesson_before lessons × IsStrict lesson_before lessons

-- Consecutive days from `day` on, each with its lessons in order.
abbrev pub IsTimetable : ℕ → List DaySchedule → Type 0
IsTimetable day [] = Unit
IsTimetable day (d ∷ days) = (d.date ≡ day) × IsAscending d.lessons × IsTimetable (suc day) days

day_lessons-IsAscending :
    (slots entries : Slots)
    → IsSlots slots
    → Permᴰ slots entries
    → IsAscending (day_lessons entries)
unfolding day_lessons
day_lessons-IsAscending slots entries h order =
    let less_order = lesson_before-IsWeakOrder in
    (
      stable_sort-IsSorted lesson_before less_order (map lesson_of entries),
      IsStrict-perm lesson_before less_order
          (Permᴰ.trans (Perm.map lesson_of order)
            (Perm.symm (stable_sort-perm lesson_before (map lesson_of entries))))
          (lessons-IsStrict slots h.0 h.1),
    )

rows_of_chain-All :
    (P : ScheduleLessonView → Type 0) (read : ℤ → Result Error (List ScheduleLessonView))
    (chain_ids : List ℤ) (rows : List ScheduleLessonView)
    → ((gid : ℤ) (some_rows : List ScheduleLessonView) → read gid ≡ ok some_rows → All P some_rows)
    → rows_of_chain read chain_ids ≡ ok rows
    → All P rows
unfolding rows_of_chain
rows_of_chain-All P read [] rows each h = subst (All P) (ok_inj h) tt
rows_of_chain-All P read (gid ∷ chain_ids) rows each h =
    let (own, h₁, k₁) = >>=-eq-ok (read gid) _ h in
    let (rest, h₂, k₂) = >>=-eq-ok (rows_of_chain read chain_ids) _ k₁ in
    subst (All P) (ok_inj k₂)
      (All-append P own rest (each gid own h₁) (rows_of_chain-All P read chain_ids rest each h₂))

-- the chain and the rows that buildDays goes through
pub day_inputs-ok :
    (reads : ScheduleReads) (group_id : ℤ) (start_day end_day : ℕ) (inputs : DayInputs)
    → day_inputs reads group_id start_day end_day ≡ ok inputs
    → (chain_ids : List ℤ) × (rows : List ScheduleLessonView) × (schedule_inheritance_chain_ids
          reads.get_group group_id
        ≡ ok chain_ids)
      × (rows_of_chain
            (λ gid. reads.list_schedule_lesson_views_between gid start_day end_day)
            chain_ids
          ≡ ok rows)
      × (put_rows [] rows ≡ inputs.lessons_by_day)
unfolding day_inputs
day_inputs-ok reads group_id start_day end_day inputs h =
    let (group, h₁, k₁) = >>=-eq-ok (reads.get_group group_id) _ h in
    let (chain_ids, h₂, k₂) =
      >>=-eq-ok (schedule_inheritance_chain_ids reads.get_group group_id) _ k₁ in
    let (overlays, h₃, k₃) =
      >>=-eq-ok (reads.list_overlays_between group_id start_day end_day) _ k₂ in
    let (constraints, h₄, k₄) =
      >>=-eq-ok (reads.list_calendar_day_constraints_between start_day end_day) _ k₃ in
    let (events, h₅, k₅) =
      >>=-eq-ok
        (rows_of_chain (λ gid. reads.list_day_events_between gid start_day end_day) chain_ids) _
        k₄ in
    let (states, h₆, k₆) =
      >>=-eq-ok (reads.list_study_day_states group_id start_day end_day) _ k₅ in
    let (rows, h₇, k₇) =
      >>=-eq-ok
        (rows_of_chain (λ gid. reads.list_schedule_lesson_views_between gid start_day end_day)
          chain_ids)
        _ k₆ in
    (chain_ids, rows, h₂, h₇, ap DayInputs.lessons_by_day (ok_inj k₇))

module _ (range : Slots → Slots) (semester_start : Option ℕ) (reads : ScheduleReads)
    (any_order : (slots : Slots) → Permᴰ slots (range slots))
    (subgroups : (gid : ℤ) (start_day end_day : ℕ) (rows : List ScheduleLessonView)
      → reads.list_schedule_lesson_views_between gid start_day end_day ≡ ok rows
      → All (λ r. IsSubgroup r.subgroup) rows) where
  each_day-IsTimetable :
      (n day : ℕ) (inputs : DayInputs)
      → ((on : ℕ) → IsSlots (slots_on on inputs.lessons_by_day))
      → IsTimetable day (each_day range semester_start n day inputs)
        × (length (each_day range semester_start n day inputs) ≡ n)
  unfolding each_day build_day
  each_day-IsTimetable zero day inputs h = (tt, refl)
  each_day-IsTimetable (suc n) day inputs h =
      let (rest, size) = each_day-IsTimetable n (suc day) inputs h in
      (
        (
          refl,
          day_lessons-IsAscending _ _ (h day) (any_order (slots_on day inputs.lessons_by_day)),
          rest,
        ),
        ap suc size,
      )

  day_inputs-IsSlots :
      (group_id : ℤ) (start_day end_day : ℕ) (inputs : DayInputs)
      → day_inputs reads group_id start_day end_day ≡ ok inputs
      → (on : ℕ) → IsSlots (slots_on on inputs.lessons_by_day)
  unfolding slots_on lookup
  day_inputs-IsSlots group_id start_day end_day inputs h on =
      let (chain_ids, rows, _, read, e) = day_inputs-ok reads group_id start_day end_day inputs h in
      subst (λ by_day. IsSlots (slots_on on by_day)) e
        (put_rows-IsSlots [] rows
          (rows_of_chain-All (λ r. IsSubgroup r.subgroup)
            (λ gid. reads.list_schedule_lesson_views_between gid start_day end_day) chain_ids rows
            (λ gid some_rows q. subgroups gid start_day end_day some_rows q) read)
          (λ _. (tt, tt)) on)

  -- If `range` goes through each entry of a map once and the stored subgroups are positive, a
  -- schedule that buildDays returns has one day for each date from the first to the last, in order,
  -- and the lessons of each day ascend by pair and subgroup, without two for one slot.
  pub build_days-IsTimetable :
      (group_id : ℤ) (start_day end_day : ℕ) (days : List DaySchedule)
      → build_days range semester_start reads group_id start_day end_day ≡ ok days
      → IsTimetable start_day days × (length days ≡ suc end_day - start_day)
  unfolding build_days
  build_days-IsTimetable group_id start_day end_day days h =
      let (inputs, h₁, k₁) = >>=-eq-ok (day_inputs reads group_id start_day end_day) _ h in
      subst (λ d. IsTimetable start_day d × (length d ≡ suc end_day - start_day)) (ok_inj k₁)
        (each_day-IsTimetable (suc end_day - start_day) start_day inputs
          (day_inputs-IsSlots group_id start_day end_day inputs h₁))

-- The response of a service for a range, by what was asked of it.
pub record IsScheduleOf (group_id : ℤ) (start_day end_day : ℕ) (resp : WeekScheduleResponse)
    : Type 0 where
  pub group : resp.group_id ≡ group_id
  pub dates : (resp.date_start ≡ start_day) × (resp.date_end ≡ end_day)
  pub days : IsTimetable start_day resp.days × (length resp.days ≡ suc end_day - start_day)

clone-IsTimetable :
    (day : ℕ) (days : List DaySchedule)
    → IsTimetable day days
    → IsTimetable day (map clone_day_schedule days)
      × (length (map clone_day_schedule days) ≡ length days)
unfolding clone_day_schedule
clone-IsTimetable day [] h = (tt, refl)
clone-IsTimetable day (d ∷ days) h =
    let (rest, size) = clone-IsTimetable (suc day) days h.2 in ((h.0, h.1, rest), ap suc size)

clone-IsScheduleOf :
    (group_id : ℤ) (start_day end_day : ℕ) (w : WeekScheduleResponse)
    → IsScheduleOf group_id start_day end_day w
    → IsScheduleOf group_id start_day end_day (clone_week_schedule_response w)
unfolding clone_week_schedule_response
clone-IsScheduleOf group_id start_day end_day w h =
    let (rest, size) = clone-IsTimetable start_day w.days h.days.0 in
    record { group = h.group; dates = h.dates; days = (rest, size ∙ h.days.1) }

cloned_or_not-IsScheduleOf :
    (group_id : ℤ) (start_day end_day : ℕ) (hit : Bool) (r : Result Error WeekScheduleResponse)
    (resp : WeekScheduleResponse)
    → ((w : WeekScheduleResponse) → r ≡ ok w → IsScheduleOf group_id start_day end_day w)
    → (if hit then cloned r else r) ≡ ok resp
    → IsScheduleOf group_id start_day end_day resp
cloned_or_not-IsScheduleOf group_id start_day end_day false r resp each h = each resp h
cloned_or_not-IsScheduleOf group_id start_day end_day true (err e) resp each h = cc
cloned_or_not-IsScheduleOf group_id start_day end_day true (ok w) resp each h =
    subst (IsScheduleOf group_id start_day end_day) (ok_inj h)
      (clone-IsScheduleOf group_id start_day end_day w (each w refl))

module _ (db : Database) (law : IsDatabase db) (format : Time → String) (range : Slots → Slots)
    (semester_start : Option ℕ) (reads : db.State → ScheduleReads)
    (any_order : (slots : Slots) → Permᴰ slots (range slots))
    (subgroups : (s : db.State) (gid : ℤ) (start_day end_day : ℕ) (rows : List ScheduleLessonView)
      → (reads s).list_schedule_lesson_views_between gid start_day end_day ≡ ok rows
      → All (λ r. IsSubgroup r.subgroup) rows) where
  abbrev built : db.State → ℤ → ℕ → ℕ → Result Error (List DaySchedule)
  built s = build_days range semester_start (reads s)

  fresh_range-IsScheduleOf :
      (s : db.State) (data_version : String) (group_id : ℤ) (start_day end_day : ℕ)
      (built_days : Result Error (List DaySchedule)) (resp : WeekScheduleResponse)
      → built s group_id start_day end_day ≡ built_days
      → fresh_range db format built s data_version group_id start_day end_day ≡ ok resp
      → IsScheduleOf group_id start_day end_day resp
  unfolding fresh_range
  fresh_range-IsScheduleOf s data_version group_id start_day end_day (err e) resp p h =
      absurd (ground (arith, p, h))
  fresh_range-IsScheduleOf s data_version group_id start_day end_day (ok days) resp p h =
      subst (IsScheduleOf group_id start_day end_day) (ok_inj (rw (p, fresh_range) at h)) (record {
        group = refl;
        dates = (refl, refl);
        days =
            build_days-IsTimetable range semester_start (reads s) any_order (subgroups s) group_id
              start_day end_day days p;
      })

  plain_versioned-IsScheduleOf :
      (group_id : ℤ) (start_day end_day : ℕ) (r : Result Error (Time × db.State))
      (resp : WeekScheduleResponse)
      → plain_versioned db format built group_id start_day end_day r ≡ ok resp
      → IsScheduleOf group_id start_day end_day resp
  unfolding plain_versioned
  plain_versioned-IsScheduleOf group_id start_day end_day (err e) resp h = cc
  plain_versioned-IsScheduleOf group_id start_day end_day (ok (version, t)) resp h =
      fresh_range-IsScheduleOf t (format version) group_id start_day end_day _ resp refl h

  plain_range-IsScheduleOf :
      (now : Time) (group_id : ℤ) (start_date end_date : Time) (s : db.State)
      (resp : WeekScheduleResponse)
      → plain_range db format built now group_id start_date end_date s ≡ ok resp
      → IsScheduleOf group_id start_date.day end_date.day resp
  unfolding plain_range
  plain_range-IsScheduleOf now group_id start_date end_date s resp h =
      elim (Bool-cases (is_positive group_id)) [
        | inr bad ↦ absurd (ground (arith, bad, h))
        | inl good ↦ elim (Bool-cases (ltb end_date.day start_date.day)) [
          | inl bad ↦ absurd (ground (arith, good, bad, h))
          | inr fine ↦
              plain_versioned-IsScheduleOf group_id start_date.day end_date.day _ resp
                (rw (good, fine) at h)
        ]
      ]

  -- If `range` goes through each entry of a map once, the stored subgroups are positive and the cache
  -- is sound, a response to GetRange, kept or built, is for the group and the dates that were asked,
  -- with one day for each date, in order, and the lessons of each day ascending.
  pub get_range-IsScheduleOf :
      (now : Time) (group_id : ℤ) (start_date end_date : Time) (s : db.State) (c : WeekCache)
      (resp : WeekScheduleResponse)
      → IsSound db format built s c
      → (get_range db format built now group_id start_date end_date (s, c)).0 ≡ ok resp
      → IsScheduleOf group_id start_date.day end_date.day resp
  get_range-IsScheduleOf now group_id start_date end_date s c resp sound h =
      let (reply, _, _) =
        get_range-plain_range db format built law now group_id start_date end_date s c sound in
      cloned_or_not-IsScheduleOf group_id start_date.day end_date.day
        (is_hit db format built now group_id start_date end_date (s, c)) _ resp
        (λ w. plain_range-IsScheduleOf now group_id start_date end_date s w) (sym reply ∙ h)
