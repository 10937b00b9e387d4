-- ===== src/Schedule/Validation/Hours.antt =====
-- When validateWeeklyStudentHours warns (Defs): the sets that it counts, by what is in them.
use ispo_shedule_backend.Prelude.{
  ℕ, ℤ, Bool, true, false, ◌&&◌, ◌||◌, ◌≡◌, none, List, [], ◌∷◌, HasEq, ◌==◌, string_eq, nat_eq,
  pair_eq, int_eq, int_beq_iff, nat_beq_iff, if◌then◌else◌, ltb, is_positive, lookup, insert,
  lookup-insert, has_key, keys, arith, refl, sym, subst, ◌∙◌, ap, Option-cases, inl, inr,
  Bool-cases, length, any, contains,
}
use mathlib.Core.List.{Permᴰ}
use ispo_shedule_backend.Prelude.{AllDistinct, AllDistinct-snoc, contains-append}
use ispo_shedule_backend.Prelude.Sorting.{stable_sort, stable_sort-perm}
use ispo_shedule_backend.Schedule.Models.{Lesson, DaySchedule}
use ispo_shedule_backend.Schedule.WeekCache.Range.{monday_of_week}
use ispo_shedule_backend.Schedule.Validation.Defs.{
  add_to_set, or_empty_set, set_at, ensure_set, put_in, sorted_map_keys, student_pairs,
  pairs_by_week, student_week_warnings, validate_weekly_student_hours,
}

module _ {ℓ} {A : Type ℓ} ⦃e : HasEq A⦄ where
  pub contains-add_to_set :
      (x a : A) (set : List A) → contains x (add_to_set a set) ≡ (x == a || contains x set)
  unfolding add_to_set
  contains-add_to_set x a set = elim (Bool-cases (contains a set)) [
    | inl there ↦ elim (Bool-cases (x == a)) [
      | inl same ↦
          rw (there, same)
            (subst (λ y. contains y set ≡ true) (sym ((e.equal_iff x a).0 same)) there)
      | inr other ↦ rw (there, other) refl
    ]
    | inr new ↦ rw new (contains-append x set (a ∷ []) ∙ ground arith)
  ]

  AllDistinct-add_to_set : (a : A) (set : List A) → AllDistinct set → AllDistinct (add_to_set a set)
  unfolding add_to_set
  AllDistinct-add_to_set a set d = elim (Bool-cases (contains a set)) [
    | inl there ↦ rw there d
    | inr new ↦ rw new (AllDistinct-snoc set a d new)
  ]

  pub contains-perm : {xs ys : List A} (x : A) → Permᴰ xs ys → contains x xs ≡ contains x ys
  contains-perm x Permᴰ.nil = refl
  contains-perm x (Permᴰ.cons p d) = λ i. (x == p i) || contains-perm x d i
  contains-perm x (Permᴰ.swap {a} {b} {a'} {b'} {l} p q) =
      ground (arith) ∙ (λ i. x == q i || (x == p i || contains x l))
  contains-perm x (Permᴰ.trans d₁ d₂) = contains-perm x d₁ ∙ contains-perm x d₂

module _ {ℓ κ} {K : Type ℓ} {A : Type κ} ⦃k : HasEq K⦄ where
  pub contains-keys : (key : K) (m : List (K × A)) → contains key (keys m) ≡ has_key key m
  unfolding lookup
  contains-keys key [] = refl
  contains-keys key ((j, v) ∷ m) =
      ground (arith, k.equal_iff key j, k.equal_iff j key, contains-keys key m)

module _ {ℓ κ} {K : Type ℓ} {A : Type κ} ⦃k : HasEq K⦄ ⦃a : HasEq A⦄ where
  set_at-put_in :
      (key other : K) (v : A) (m : List (K × List A))
      → set_at other (put_in key v m)
        ≡ (if key == other then add_to_set v (set_at key m) else set_at other m)
  unfolding set_at put_in
  set_at-put_in key other v m =
      ap or_empty_set (lookup-insert key other (add_to_set v (set_at key m)) m) ∙ ground arith

  pub absent_key : (key : K) (m : List (K × List A)) → has_key key m ≡ false → lookup key m ≡ none
  absent_key key m h = elim (Option-cases (lookup key m)) [
    | inl missing ↦ missing
    | inr (set, there) ↦ absurd (ground (arith, there, h))
  ]

  set_at-empty :
      (key other : K) (m : List (K × List A))
      → lookup key m ≡ none
      → set_at other (insert key [] m) ≡ set_at other m
  unfolding set_at
  set_at-empty key other m missing =
      ap or_empty_set (lookup-insert key other [] m) ∙ elim (Bool-cases (key == other)) [
        | inl same ↦ rw same (
            ap or_empty_set
              (subst (λ j. none ≡ lookup j m) ((k.equal_iff key other).0 same) (sym missing)))
        | inr differs ↦ rw differs refl
      ]

  set_at-ensure_set :
      (key other : K) (m : List (K × List A)) → set_at other (ensure_set key m) ≡ set_at other m
  unfolding ensure_set
  set_at-ensure_set key other m = elim (Bool-cases (has_key key m)) [
    | inl there ↦ rw there refl
    | inr missing ↦ rw missing (set_at-empty key other m (absent_key key m missing))
  ]

-- a lesson with a positive pair number, at a day and pair
abbrev pub is_lesson_at : ℕ → ℕ × ℤ → Lesson → Bool
is_lesson_at date at lesson =
    is_positive lesson.pair_number && (date == at.0 && lesson.pair_number == at.1)

-- a day of the week with such a lesson
abbrev pub is_day_at : ℕ → ℕ × ℤ → DaySchedule → Bool
is_day_at week at day =
    monday_of_week day.date == week && any (is_lesson_at day.date at) day.lessons

contains-put_in :
    (week other date : ℕ) (pair : ℤ) (at : ℕ × ℤ) (m : List (ℕ × List (ℕ × ℤ)))
    → contains at (set_at other (put_in week (date, pair) m))
      ≡ ((week == other && (date == at.0 && pair == at.1)) || contains at (set_at other m))
contains-put_in week other date pair at m = ground (
  arith,
  set_at-put_in week other (date, pair) m,
  contains-add_to_set at (date, pair) (set_at week m),
  nat_beq_iff week other,
  nat_beq_iff date at.0,
  nat_beq_iff at.0 date,
  int_beq_iff pair at.1,
  int_beq_iff at.1 pair,
)

contains-student_pairs :
    (week other date : ℕ) (at : ℕ × ℤ) (lessons : List Lesson) (m : List (ℕ × List (ℕ × ℤ)))
    → contains at (set_at other (student_pairs week date lessons m))
      ≡ ((week == other && any (is_lesson_at date at) lessons) || contains at (set_at other m))
unfolding student_pairs
contains-student_pairs week other date at [] m = ground arith
contains-student_pairs week other date at (lesson ∷ lessons) m =
    elim (Bool-cases (is_positive lesson.pair_number)) [
      | inl good ↦ rw good (
          contains-student_pairs week other date at lessons
            (put_in week (date, lesson.pair_number) m)
          ∙ ground (arith, contains-put_in week other date lesson.pair_number at m))
      | inr bad ↦ rw bad (contains-student_pairs week other date at lessons m)
    ]

contains-pairs_by_week :
    (week : ℕ) (at : ℕ × ℤ) (days : List DaySchedule) (m : List (ℕ × List (ℕ × ℤ)))
    → contains at (set_at week (pairs_by_week days m))
      ≡ (any (is_day_at week at) days || contains at (set_at week m))
unfolding pairs_by_week
contains-pairs_by_week week at [] m = refl
contains-pairs_by_week week at (day ∷ days) m =
    contains-pairs_by_week week at days _
    ∙ ground (
      arith,
      contains-student_pairs (monday_of_week day.date) week day.date at day.lessons
          (ensure_set (monday_of_week day.date) m),
      set_at-ensure_set (monday_of_week day.date) week m,
    )

-- Every set of the map has no entry twice.
abbrev AreSets : List (ℕ × List (ℕ × ℤ)) → Type 0
AreSets m = (week : ℕ) → AllDistinct (set_at week m)

put_in-AreSets :
    (key : ℕ) (v : ℕ × ℤ) (m : List (ℕ × List (ℕ × ℤ))) → AreSets m → AreSets (put_in key v m)
put_in-AreSets key v m h week =
    subst AllDistinct (sym (set_at-put_in key week v m))
      (elim (key == week)
        as (λ b. AllDistinct (if b then add_to_set v (set_at key m) else set_at week m)) [
          | true ↦ AllDistinct-add_to_set v (set_at key m) (h key)
          | false ↦ h week
        ])

student_pairs-AreSets :
    (week date : ℕ) (lessons : List Lesson) (m : List (ℕ × List (ℕ × ℤ)))
    → AreSets m
    → AreSets (student_pairs week date lessons m)
unfolding student_pairs
student_pairs-AreSets week date [] m h = h
student_pairs-AreSets week date (lesson ∷ lessons) m h =
    elim (Bool-cases (is_positive lesson.pair_number)) [
      | inl good ↦ rw good (
          student_pairs-AreSets week date lessons _
            (put_in-AreSets week (date, lesson.pair_number) m h))
      | inr bad ↦ rw bad (student_pairs-AreSets week date lessons m h)
    ]

pairs_by_week-AreSets :
    (days : List DaySchedule) (m : List (ℕ × List (ℕ × ℤ)))
    → AreSets m
    → AreSets (pairs_by_week days m)
unfolding pairs_by_week
pairs_by_week-AreSets [] m h = h
pairs_by_week-AreSets (day ∷ days) m h = pairs_by_week-AreSets days _ (
    student_pairs-AreSets (monday_of_week day.date) day.date day.lessons _ (λ week.
      subst AllDistinct (sym (set_at-ensure_set (monday_of_week day.date) week m)) (h week)))

-- Which weeks are warned of, among those that are gone through.
student_week_warnings-any :
    (week : ℕ) (m : List (ℕ × List (ℕ × ℤ))) (weeks : List ℕ)
    → any (λ w. w.date == week) (student_week_warnings m weeks)
      ≡ (contains week weeks && ltb 18 (length (set_at week m)))
unfolding student_week_warnings
student_week_warnings-any week m [] = refl
student_week_warnings-any week m (other ∷ weeks) =
    ground (
      arith,
      nat_beq_iff other week,
      nat_beq_iff week other,
      student_week_warnings-any week m weeks,
    )

unlisted :
    (week : ℕ) (m : List (ℕ × List (ℕ × ℤ)))
    → (has_key week m && ltb 18 (length (set_at week m))) ≡ ltb 18 (length (set_at week m))
unfolding set_at
unlisted week m = ground arith

-- validateWeeklyStudentHours warns of a week exactly if its lessons take more than 18 pairs, which
-- are 36 hours: `pairs` lists each day and pair of the week at which a lesson stands, once. Lessons
-- of two subgroups at one pair count once.
pub validate_weekly_student_hours-any :
    (days : List DaySchedule) (week : ℕ)
    → (pairs : List (ℕ × ℤ)) × AllDistinct pairs
      × ((at : ℕ × ℤ) → contains at pairs ≡ any (is_day_at week at) days)
      × (any (λ w. w.date == week) (validate_weekly_student_hours days) ≡ ltb 18 (length pairs))
unfolding validate_weekly_student_hours sorted_map_keys set_at lookup
validate_weekly_student_hours-any days week =
    let m = pairs_by_week days [] in
    (
      set_at week m,
      pairs_by_week-AreSets days [] (λ w. tt) week,
      λ at. contains-pairs_by_week week at days [] ∙ ground arith,
      student_week_warnings-any week m (stable_sort ltb (keys m))
          ∙ ap (λ b. b && ltb 18 (length (set_at week m)))
              (contains-perm week (stable_sort-perm ltb (keys m)) ∙ contains-keys week m)
          ∙ unlisted week m,
    )
