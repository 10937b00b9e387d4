-- ===== src/Schedule/Build/DayStates.antt =====
-- Which state of the study calendar a day of the schedule shows (StudyStates).
use ispo_shedule_backend.Prelude.{
  ℕ, ℤ, String, ◌||◌, ◌≡◌, Option, none, some, List, [], ◌∷◌, map, ◌==◌, string_eq, nat_eq, int_eq,
  ltb, lookup, insert_all, last_value, fall_back, lookup-insert_all, arith, refl, sym, ◌∙◌, ap,
  Option-cases, inl, inr, All, some_inj, Bool-cases,
}
use ispo_shedule_backend.Schedule.Models.{StudyDayState}
use ispo_shedule_backend.Schedule.WeekCache.Range.{monday_of_week}
use ispo_shedule_backend.Schedule.Build.StudyStates.{
  AcademicCalendarWeek, AcademicDayOverrideStateRow, StudyWeekStateRow, study_week_start,
  week_entry, override_entry, week_starts, study_entries, collected_states, study_state_on,
  default_study_day_state, state_or, own_state,
}

-- the entry that the last row for a day leaves, of each of the three lists
abbrev pub override_on : List AcademicDayOverrideStateRow → ℕ → Option StudyDayState
override_on day_rows day = last_value day (map override_entry day_rows)

abbrev pub academic_week_on : List AcademicCalendarWeek → ℕ → Option StudyDayState
academic_week_on weeks day = last_value day (map week_entry weeks)

abbrev pub study_week_on :
    ℕ → ℕ → List AcademicCalendarWeek → List StudyWeekStateRow → ℕ → Option StudyDayState
study_week_on start_week end_week weeks study_rows day =
    last_value day (study_entries (week_starts weeks []) start_week end_week study_rows)

last_value-source :
    (s : String) (day : ℕ) (entries : List (ℕ × StudyDayState)) (v : StudyDayState)
    → All (λ e. e.1.source ≡ s) entries
    → last_value day entries ≡ some v
    → v.source ≡ s
unfolding last_value fall_back
last_value-source s day [] v h found = cc
last_value-source s day ((k, w) ∷ entries) v h found =
    elim (Option-cases (last_value day entries)) [
      | inr (u, p) ↦
          ap StudyDayState.source (some_inj (sym (rw p at found)))
          ∙ last_value-source s day entries u h.1 p
      | inl p ↦ elim (Bool-cases (k == day)) [
        | inl same ↦ ap StudyDayState.source (some_inj (sym (rw (p, same) at found))) ∙ h.0
        | inr differs ↦ absurd (ground (arith, p, differs, found))
      ]
    ]

override-source :
    (rows : List AcademicDayOverrideStateRow)
    → All (λ e. e.1.source ≡ "academic_day_override") (map override_entry rows)
override-source [] = tt
override-source (row ∷ rows) = (refl, override-source rows)

week-source :
    (weeks : List AcademicCalendarWeek)
    → All (λ e. e.1.source ≡ "academic_week") (map week_entry weeks)
week-source [] = tt
week-source (w ∷ weeks) = (refl, week-source weeks)

study-source :
    (starts : List (ℤ × ℕ)) (first last : ℕ) (rows : List StudyWeekStateRow)
    → All (λ e. e.1.source ≡ "study_week") (study_entries starts first last rows)
unfolding study_entries
study-source starts first last [] = tt
study-source starts first last (row ∷ rows) = elim (Option-cases (study_week_start starts row)) [
  | inl p ↦ rw (p, study_entries) (study-source starts first last rows)
  | inr (w, p) ↦ elim (Bool-cases (ltb w first || ltb last w)) [
    | inl out ↦ rw (p, study_entries, out) (study-source starts first last rows)
    | inr fits ↦ rw (p, study_entries, fits) (refl, study-source starts first last rows)
  ]
]

-- An override counts where no study week is written over it.
unfoldable pub unless : Option StudyDayState → Option StudyDayState → Option StudyDayState
unless none own = own
unless (some state) own = none

own_state-fall_back :
    (state : StudyDayState) (study own week : Option StudyDayState)
    → ((v : StudyDayState) → study ≡ some v → v.source ≡ "study_week")
    → ((v : StudyDayState) → own ≡ some v → v.source ≡ "academic_day_override")
    → ((v : StudyDayState) → week ≡ some v → v.source ≡ "academic_week")
    → own_state state (fall_back study (fall_back own (fall_back week none)))
      ≡ state_or state (unless study own)
unfolding fall_back unless
own_state-fall_back state (some v) own week h₁ h₂ h₃ = rw (h₁ v refl) refl
own_state-fall_back state none (some v) week h₁ h₂ h₃ = rw (h₂ v refl) refl
own_state-fall_back state none none (some v) h₁ h₂ h₃ = rw (h₃ v refl) refl
own_state-fall_back state none none none h₁ h₂ h₃ = refl

module _ (start_week end_week : ℕ) (weeks : List AcademicCalendarWeek)
    (day_rows : List AcademicDayOverrideStateRow) (study_rows : List StudyWeekStateRow) where
  abbrev study_on : ℕ → Option StudyDayState
  study_on = study_week_on start_week end_week weeks study_rows

  lookup-collected_states :
      (day : ℕ)
      → lookup day (collected_states start_week end_week weeks day_rows study_rows)
        ≡ fall_back
            (study_on day)
            (fall_back (override_on day_rows day) (fall_back (academic_week_on weeks day) none))
  unfolding collected_states lookup
  lookup-collected_states day = ground (
    arith,
    lookup-insert_all day (study_entries (week_starts weeks []) start_week end_week study_rows)
        (insert_all (map override_entry day_rows) (insert_all (map week_entry weeks) [])),
    lookup-insert_all day (map override_entry day_rows) (insert_all (map week_entry weeks) []),
    lookup-insert_all day (map week_entry weeks) [],
  )

  -- A day shows its own override, unless a study week is written for the very day, and otherwise
  -- the state of its week: the study week of its Monday, or else the override of its Monday, or else
  -- the academic week, or else the default. So an override of a Monday, where no study week is
  -- written, is the state of every day of its week that has no override of its own.
  pub study_state_on-collected_states :
      (day : ℕ)
      → study_state_on day (collected_states start_week end_week weeks day_rows study_rows)
        ≡ state_or
            (state_or default_study_day_state (
              fall_back (study_on (monday_of_week day)) (
                fall_back
                  (override_on day_rows (monday_of_week day))
                  (fall_back (academic_week_on weeks (monday_of_week day)) none))))
            (unless (study_on day) (override_on day_rows day))
  unfolding study_state_on
  study_state_on-collected_states day =
      rw (lookup-collected_states (monday_of_week day), lookup-collected_states day)
        (own_state-fall_back _ (study_on day) (override_on day_rows day)
          (academic_week_on weeks day)
          (λ v.
            last_value-source "study_week" day _ v
              (study-source (week_starts weeks []) start_week end_week study_rows))
          (λ v. last_value-source "academic_day_override" day _ v (override-source day_rows))
          (λ v. last_value-source "academic_week" day _ v (week-source weeks)))
