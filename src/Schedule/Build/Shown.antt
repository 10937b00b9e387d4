-- ===== src/Schedule/Build/Shown.antt =====
-- internal/schedule/service_build.go with service_inheritance.go: which lessons buildDays shows of the
-- requested group and of the groups that it inherits from.
use ispo_shedule_backend.Prelude.{
  ℕ, zero, suc, ℤ, true, false, ◌≡◌, Option, List, [], ◌∷◌, ◌++◌, map, ◌==◌, string_eq, nat_eq,
  pair_eq, int_eq, if◌then◌else◌, lookup, insert, fall_back, IsMap, IsMap-insert, refl, sym, subst,
  ◌∙◌, ap, All,
}
use mathlib.Core.List.{Permᴰ, append-nil, append_assoc}
use mathlib.Core.List.Permᴰ as Perm
use ispo_shedule_backend.Prelude.Results.{Result, ok, >>=-eq-ok, ok_inj}
use ispo_shedule_backend.Prelude.Sorting.{stable_sort-perm}
use ispo_shedule_backend.Schedule.Models.{Group, DaySchedule}
use ispo_shedule_backend.Schedule.Errors.{Error}
use ispo_shedule_backend.Schedule.Inheritance.{
  schedule_inheritance_chain_ids, schedule_inheritance_chain_ids-IsDistinct,
}
use ispo_shedule_backend.Schedule.Build.Defs.{
  ScheduleLessonView, SlotKey, slot_eq, slot_of, Slots, slots_on, put_row, put_rows, lesson_before,
  lesson_of, day_lessons, ScheduleReads, rows_of_chain, DayInputs, build_day, each_day, build_days,
}
use ispo_shedule_backend.Schedule.Build.Slots.{last_row, slots_on-insert, put_rows-last_row}
use ispo_shedule_backend.Schedule.Build.Days.{day_inputs-ok}

put_row-IsMap :
    (by_day : List (ℕ × Slots)) (r : ScheduleLessonView)
    → ((day : ℕ) → IsMap (slots_on day by_day))
    → (day : ℕ) → IsMap (slots_on day (put_row by_day r))
unfolding put_row
put_row-IsMap by_day r h day =
    let at_day : ℕ = r.lesson_date.day in
    let new : Slots = insert (slot_of r) r (slots_on at_day by_day) in
    let good : IsMap new = IsMap-insert (slot_of r) r (slots_on at_day by_day) (h at_day) in
    rw (slots_on-insert at_day day new by_day)
      (elim (at_day == day) as (λ b. IsMap (if b then new else slots_on day by_day)) [
        | true ↦ good
        | false ↦ h day
      ])

put_rows-IsMap :
    (by_day : List (ℕ × Slots)) (rows : List ScheduleLessonView)
    → ((day : ℕ) → IsMap (slots_on day by_day))
    → (day : ℕ) → IsMap (slots_on day (put_rows by_day rows))
unfolding put_rows
put_rows-IsMap by_day [] h day = h day
put_rows-IsMap by_day (r ∷ rows) h day =
    put_rows-IsMap (put_row by_day r) rows (put_row-IsMap by_day r h) day

rows_of_chain-snoc :
    {A : Type 0} (read : ℤ → Result Error (List A)) (base_ids : List ℤ) (gid : ℤ) (rows : List A)
    → rows_of_chain read (base_ids ++ gid ∷ []) ≡ ok rows
    → (base : List A) × (own : List A) × (rows_of_chain read base_ids ≡ ok base)
      × (read gid ≡ ok own)
      × (rows ≡ base ++ own)
unfolding rows_of_chain
rows_of_chain-snoc read [] gid rows h =
    let (own, h₁, k₁) = >>=-eq-ok (read gid) _ h in
    ([], own, refl, h₁, sym (ok_inj k₁) ∙ append-nil own)
rows_of_chain-snoc read (id ∷ base_ids) gid rows h =
    let (first, h₁, k₁) = >>=-eq-ok (read id) _ h in
    let (rest, h₂, k₂) = >>=-eq-ok (rows_of_chain read (base_ids ++ gid ∷ [])) _ k₁ in
    let (base, own, some_base, some_own, sum) = rows_of_chain-snoc read base_ids gid rest h₂ in
    (
      first ++ base,
      own,
      rw (h₁, some_base) refl,
      some_own,
      sym (ok_inj k₂) ∙ ap (λ l. first ++ l) sum ∙ sym (append_assoc first base own),
    )

-- A day shows the entries of a map of slots: each slot has the last row of the requested group, or
-- else the last row of the groups that it inherits from, base first.
abbrev pub IsShown : List ScheduleLessonView → List ScheduleLessonView → DaySchedule → Type 0
IsShown base own d =
    (slots : Slots) × IsMap slots
    × Permᴰ d.lessons (map lesson_of slots)
    × ((slot : SlotKey)
        → lookup slot slots ≡ fall_back (last_row d.date slot own) (last_row d.date slot base))

-- What the days show of a group: its own rows, over those of the chain without it.
pub record ShowsGroup (reads : ScheduleReads) (group_id : ℤ) (start_day end_day : ℕ)
    (days : List DaySchedule) : Type 0 where
  pub base_ids : List ℤ
  pub base : List ScheduleLessonView
  pub own : List ScheduleLessonView
  pub chain :
      schedule_inheritance_chain_ids reads.get_group group_id ≡ ok (base_ids ++ group_id ∷ [])
  pub base_rows :
      rows_of_chain (λ gid. reads.list_schedule_lesson_views_between gid start_day end_day) base_ids
      ≡ ok base
  pub own_rows : reads.list_schedule_lesson_views_between group_id start_day end_day ≡ ok own
  pub shown : All (IsShown base own) days

module _ (range : Slots → Slots) (semester_start : Option ℕ) (reads : ScheduleReads)
    (any_order : (slots : Slots) → Permᴰ slots (range slots)) where
  each_day-IsShown :
      (base own : List ScheduleLessonView) (n day : ℕ) (inputs : DayInputs)
      → put_rows [] (base ++ own) ≡ inputs.lessons_by_day
      → All (IsShown base own) (each_day range semester_start n day inputs)
  unfolding each_day build_day day_lessons slots_on lookup
  each_day-IsShown base own zero day inputs e = tt
  each_day-IsShown base own (suc n) day inputs e = (
    (
      slots_on day inputs.lessons_by_day,
      subst (λ m. IsMap (slots_on day m)) e (put_rows-IsMap [] (base ++ own) (λ _. tt) day),
      Permᴰ.trans (stable_sort-perm lesson_before _)
          (Perm.map lesson_of (Perm.symm (any_order (slots_on day inputs.lessons_by_day)))),
      λ slot. ap (λ m. lookup slot (slots_on day m)) (sym e) ∙ put_rows-last_row day slot base own,
    ),
    each_day-IsShown base own n (suc day) inputs e,
  )

  -- If groups are read by their identifiers and `range` goes through each entry of a map once, a day
  -- that buildDays returns shows for each pair and subgroup the last row of the requested group, and
  -- where that has none the last row of the groups that it inherits from, in the order of the chain
  -- from the base on; it shows nothing else.
  pub build_days-ShowsGroup :
      (group_id : ℤ) (start_day end_day : ℕ) (days : List DaySchedule)
      → ((id : ℤ) (g : Group) → reads.get_group id ≡ ok g → g.id ≡ id)
      → build_days range semester_start reads group_id start_day end_day ≡ ok days
      → ShowsGroup reads group_id start_day end_day days
  unfolding build_days
  build_days-ShowsGroup group_id start_day end_day days ids h =
      let (inputs, h₁, k₁) = >>=-eq-ok _ _ h in
      let (chain_ids, rows, chain, read, e) =
        day_inputs-ok reads group_id start_day end_day inputs h₁ in
      let ((base_ids, last), _, _) =
        schedule_inheritance_chain_ids-IsDistinct reads.get_group group_id chain_ids ids chain in
      let (base, own, base_rows, own_rows, sum) = rows_of_chain-snoc _ base_ids group_id rows (
        subst
          (λ l.
            rows_of_chain (λ gid. reads.list_schedule_lesson_views_between gid start_day end_day) l
            ≡ ok rows)
          last read) in
      record {
        base_ids = base_ids;
        base = base;
        own = own;
        chain = chain ∙ ap ok last;
        base_rows = base_rows;
        own_rows = own_rows;
        shown =
            subst (All (IsShown base own)) (ok_inj k₁)
              (each_day-IsShown base own _ start_day inputs (ap (put_rows []) (sym sum) ∙ e));
      }
