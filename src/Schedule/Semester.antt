-- ===== src/Schedule/Semester.antt =====
-- internal/schedule/service_build.go: inferSemesterForDate, and semesterForDateString
-- (service_validate.go). The month of a day, which package time computes, is the proleptic Gregorian
-- calendar's; day 0 is 0001-01-01.
use ispo_shedule_backend.Prelude.{
  ℕ, suc, ◌+◌, ◌-◌, ◌*◌, ◌/◌, ◌%◌, ℤ, pos, Bool, not, ◌&&◌, ◌||◌, ◌≡◌, Option, none, some, List, [],
  ◌∷◌, map, ◌==◌, string_eq, nat_eq, int_eq, if◌then◌else◌, ltb, leb, pos_part, is_positive, refl,
}

-- the year that ends a cycle has the extra day, so the last quotient is not exceeded
abbrev at_most : ℕ → ℕ → ℕ
at_most m n = if ltb m n then m else n

-- the days after the cycles of 400, 100 and 4 years, and after whole years
abbrev in_century : ℕ → ℕ
in_century day = let d = day % 146097 in d - 36524 * at_most 3 (d / 36524)

abbrev pub year_of_day : ℕ → ℕ
year_of_day day =
    let d = day % 146097 in
    let e = in_century day % 1461 in
    1
    + 400 * (day / 146097)
    + 100 * at_most 3 (d / 36524)
    + 4 * (in_century day / 1461)
    + at_most 3 (e / 365)

abbrev day_of_year : ℕ → ℕ
day_of_year day = let e = in_century day % 1461 in e - 365 * at_most 3 (e / 365)

abbrev is_leap_year : ℕ → Bool
is_leap_year y = y % 4 == 0 && (not (y % 100 == 0) || y % 400 == 0)

month_in : ℕ → List ℕ → ℕ → ℕ
month_in month [] d = month
month_in month (n ∷ lengths) d =
    let rest = month_in (suc month) lengths (d - n) in if ltb d n then month else rest

unfoldable pub month_of_day : ℕ → ℕ
unfolding month_in
month_of_day day =
    month_in 1
      (31
        ∷ (if is_leap_year (year_of_day day) then 29 else 28)
        ∷ 31
        ∷ 30
        ∷ 31
        ∷ 30
        ∷ 31
        ∷ 31
        ∷ 30
        ∷ 31
        ∷ 30
        ∷ [])
      (day_of_year day)

-- inferSemesterForDate
unfoldable pub infer_semester_for_date : ℕ → ℤ → Option ℤ
infer_semester_for_date day course =
    if not (is_positive course) || ltb 6 (pos_part course)
    then none
    else if leb 9 (month_of_day day)
    then some (pos ((pos_part course - 1) * 2 + 1))
    else if leb (month_of_day day) 6
    then some (pos ((pos_part course - 1) * 2 + 2))
    else none

-- semesterForDateString
unfoldable pub semester_for_date : ℕ → ℤ → ℤ
semester_for_date day course = elim (infer_semester_for_date day course) [
  | none ↦ pos 0
  | some semester ↦ semester
]

-- 2024-02-29, 2024-12-31, 2025-01-01 and 2026-09-01
month_of_day_test : map month_of_day (738944 ∷ 739250 ∷ 739251 ∷ 739859 ∷ []) ≡ 2 ∷ 12 ∷ 1 ∷ 9 ∷ []
unfolding month_of_day
month_of_day_test = refl
