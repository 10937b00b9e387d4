-- ===== src/Schedule/Build/Parity.antt =====
-- internal/schedule/service_build.go: dayOfWeekForDate and weekParityForDate, over
-- day numbers, of which 0 is a Monday.
use ispo_shedule_backend.Prelude.{
  ℕ, ◌+◌, ◌-◌, ◌/◌, ◌%◌, ◌≤◌, Bool, ◌≡◌, Option, none, some, List, string_eq, nat_eq, nat_beq,
  int_eq, if◌then◌else◌, ltb, lookup, arith,
}
use ispo_shedule_backend.Schedule.Models.{WeekParity, numerator, denominator, both}
use ispo_shedule_backend.Schedule.WeekCache.Range.{monday_of_week}

-- dayOfWeekForDate: `worksAs` has the days that are worked as another one
unfoldable pub day_of_week_for_date : ℕ → List (ℕ × ℕ) → ℕ
day_of_week_for_date day works_as = elim (lookup day works_as) [ some v ↦ v | none ↦ day % 7 ]

-- A time.Duration holds at most 106751 whole days, and Sub stops there.
abbrev pub max_days : ℕ
max_days = 106751

abbrev pub saturated : ℕ → ℕ
saturated days = if ltb max_days days then max_days else days

-- `weeks % 2 == 0` for the weeks between two Mondays, in whichever order
abbrev pub is_even_week : ℕ → ℕ → Bool
is_even_week week_start sem_start =
    nat_beq (saturated ((week_start - sem_start) + (sem_start - week_start)) / 7 % 2) 0

-- weekParityForDate; `none` is a zero semester start
unfoldable pub week_parity_for_date : Option ℕ → ℕ → WeekParity
week_parity_for_date none day = both
week_parity_for_date (some semester_start) day =
    if is_even_week (monday_of_week day) (monday_of_week semester_start)
    then denominator
    else numerator

abbrev pub other_parity : WeekParity → WeekParity
other_parity numerator = denominator
other_parity denominator = numerator
other_parity both = both

-- All days of a week have one parity, the week of the semester's start has the parity denominator,
-- and within the 292 years that a duration holds the next week has the other parity.
pub week_parity_for_date-alternates :
    (semester_start day : ℕ)
    → (week_parity_for_date (some semester_start) (monday_of_week day)
        ≡ week_parity_for_date (some semester_start) day)
      × (week_parity_for_date (some semester_start) semester_start ≡ denominator)
      × ((day + 14 ≤ semester_start + max_days)
          → (semester_start + 14 ≤ day + max_days)
          → week_parity_for_date (some semester_start) (day + 7)
            ≡ other_parity (week_parity_for_date (some semester_start) day))
unfolding week_parity_for_date monday_of_week
week_parity_for_date-alternates semester_start day =
    (ground arith, ground arith, λ h k. ground (arith, h, k))
