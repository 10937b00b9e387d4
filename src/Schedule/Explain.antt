-- ===== src/Schedule/Explain.antt =====
-- internal/schedule/service_explain.go: ExplainSlot, over GetRange (WeekCache/Range) and the states of
-- the study calendar (Build/StudyStates). Dates are day numbers.
use ispo_shedule_backend.Prelude.{
  ℕ, ℤ, String, Bool, false, not, ◌&&◌, Option, none, some, List, [], ◌∷◌, ◌==◌, string_eq, nat_eq,
  pair_eq, int_eq, if◌then◌else◌, is_positive, filter,
}
use ispo_shedule_backend.Prelude.Results.{Result, ok, err}
use ispo_shedule_backend.Schedule.Models.{
  Group, WeekParity, Lesson, DaySchedule, StudyDayState, WeekScheduleResponse,
}
use ispo_shedule_backend.Schedule.Errors.{Error, message}
use ispo_shedule_backend.Schedule.Semester.{infer_semester_for_date}
use ispo_shedule_backend.Schedule.Build.StudyStates.{study_state_on}
use ispo_shedule_backend.Schedule.Build.Parity.{day_of_week_for_date, week_parity_for_date}
use ispo_shedule_backend.Schedule.Views.Service.{Cached, continue, loaded}

pub record ExplainDecision : Type 0 where
  pub semester_inferred : Option ℤ
  pub non_teaching : Bool

pub record ExplainSlotResponse : Type 0 where
  pub group_id : ℤ
  pub date : ℕ
  pub day_of_week : ℕ
  pub week_parity : WeekParity
  pub data_version : String
  pub pair_number : ℤ
  pub subgroup : Option ℤ
  pub lessons : List Lesson
  pub decision : ExplainDecision

-- `subgroup != nil && l.Subgroup != nil && *l.Subgroup != *subgroup`
abbrev pub other_subgroup : Option ℤ → Option ℤ → Bool
other_subgroup none own = false
other_subgroup (some asked) none = false
other_subgroup (some asked) (some own) = not (own == asked)

-- filterLessons
unfoldable pub filter_lessons : ℤ → Option ℤ → List Lesson → List Lesson
filter_lessons pair_number subgroup =
    filter (λ l. l.pair_number == pair_number && not (other_subgroup subgroup l.subgroup))

-- `week.Days[0].Lessons`, if there is a day
abbrev pub first_lessons : List DaySchedule → List Lesson
first_lessons [] = []
first_lessons (day ∷ days) = day.lessons

-- the repository's reads
pub record ExplainReads : Type 0 where
  pub get_group : ℤ → Result Error Group
  pub data_version : Result Error String
  pub list_study_day_states : ℤ → ℕ → ℕ → Result Error (List (ℕ × StudyDayState))

module _ {C : Type 0} (get : ℤ → Cached C WeekScheduleResponse) where
  -- ExplainSlot; `get` is GetRange on the date
  unfoldable pub explain_slot :
      ExplainReads → Option ℕ → ℤ → ℕ → ℤ → Option ℤ → Cached C ExplainSlotResponse
  unfolding filter_lessons
  explain_slot reads semester_start group_id date pair_number subgroup =
      if not (is_positive group_id)
      then (λ c. (err (message "group_id required"), c))
      else if not (is_positive pair_number)
      then (λ c. (err (message "pair_number required"), c))
      else loaded (reads.get_group group_id) λ group. loaded reads.data_version λ data_version.
        loaded (reads.list_study_day_states group_id date date) λ states c.
          continue (get group_id c) λ week c'. (
            ok (record {
              group_id = group_id;
              date = date;
              day_of_week = day_of_week_for_date date [];
              week_parity = week_parity_for_date semester_start date;
              data_version = data_version;
              pair_number = pair_number;
              subgroup = subgroup;
              lessons = filter_lessons pair_number subgroup (first_lessons week.days);
              decision = record {
                semester_inferred = infer_semester_for_date date group.course;
                non_teaching = not (study_state_on date states).is_teaching;
              };
            }),
            c',
          )
