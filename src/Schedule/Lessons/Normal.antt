-- ===== src/Schedule/Lessons/Normal.antt =====
-- internal/schedule/repository_lessons.go: what normalizeScheduleLesson promises of its result.
use ispo_shedule_backend.Prelude.{
  ℤ, pos, negsuc, subst, String, true, false, not, ◌≡◌, ◌≢◌, ◌⊎◌, refl, Option, none, some,
  string_eq, nat_eq, is_positive, ◌≤ℤ◌, if◌then◌else◌, arith, eq_iff,
}
use ispo_shedule_backend.Prelude.Text.{trim_space, to_lower, trim_space-trim_space}
use ispo_shedule_backend.Prelude.Results.{ok, reject_if-ok, >>-eq-ok, >>=-eq-ok, ok_inj}
use ispo_shedule_backend.Schedule.Models.{
  Time, EntityStatus, draft, published, cancelled, ScheduleLesson,
}
use ispo_shedule_backend.Schedule.Lessons.Normalize.{
  date_only, is_zero, normalize_lesson_format, normalize_lesson_source, bad_pair, bad_subgroup,
  normalize_status, normalize_flow_key, normalize_schedule_lesson,
}

-- The values that the CHECK constraints of the table allow.
abbrev pub IsFormat : String → Type 0
IsFormat s = (s ≡ "offline") ⊎ (s ≡ "online") ⊎ (s ≡ "hybrid")

abbrev pub IsSource : String → Type 0
IsSource s =
    (s ≡ "manual") ⊎ (s ≡ "imported") ⊎ (s ≡ "auto") ⊎ (s ≡ "generated") ⊎ (s ≡ "replacement")

abbrev pub IsStatus : EntityStatus → Type 0
IsStatus s = (s ≡ draft) ⊎ (s ≡ published) ⊎ (s ≡ cancelled)

abbrev pub IsFlowKey : Option String → Type 0
IsFlowKey none = Unit
IsFlowKey (some key) = (trim_space key ≡ key) × (key ≢ "")

abbrev pub IsSubgroup : Option ℤ → Type 0
IsSubgroup none = Unit
IsSubgroup (some s) = (s ≡ pos 1) ⊎ (s ≡ pos 2)

-- A lesson that the table accepts, in the one spelling that the code writes.
pub record IsNormal (row : ScheduleLesson) : Type 0 where
  pub group : is_positive row.group_id ≡ true
  pub midnight : row.lesson_date.nanos ≡ 0
  pub dated : row.lesson_date.day ≢ 0
  pub pair : (pos 1 ≤ℤ row.pair_number) × (row.pair_number ≤ℤ pos 8)
  pub subgroup : IsSubgroup row.subgroup
  pub format : IsFormat row.lesson_format
  pub status : IsStatus row.status
  pub source : IsSource row.source
  pub version : is_positive row.version ≡ true
  pub flow_key : IsFlowKey row.flow_key

pub normalize_lesson_format-IsFormat : (v : String) → IsFormat (normalize_lesson_format v)
unfolding normalize_lesson_format
normalize_lesson_format-IsFormat v = ground arith

normalize_lesson_source-IsSource : (v : String) → IsSource (normalize_lesson_source v)
unfolding normalize_lesson_source
normalize_lesson_source-IsSource v =
    let l = to_lower (trim_space v) in
    ground
      (arith, eq_iff l "imported", eq_iff l "auto", eq_iff l "generated", eq_iff l "replacement")

normalize_flow_key-IsFlowKey : (o : Option String) → IsFlowKey (normalize_flow_key o)
unfolding normalize_flow_key
normalize_flow_key-IsFlowKey none = tt
normalize_flow_key-IsFlowKey (some key) =
    ground (arith, eq_iff (trim_space key) "", trim_space-trim_space key)

normalize_status-IsStatus : (s t : EntityStatus) → normalize_status s ≡ ok t → IsStatus t
unfolding normalize_status
normalize_status-IsStatus draft t h = ground arith
normalize_status-IsStatus s t h = ground arith

-- The normal form that an accepted lesson takes.
abbrev normal_form : ScheduleLesson → EntityStatus → ScheduleLesson
normal_form row status = record row {
  lesson_date = date_only row.lesson_date;
  lesson_format = normalize_lesson_format row.lesson_format;
  status = status;
  source = normalize_lesson_source row.source;
  version = if is_positive row.version then row.version else pos 1;
  flow_key = normalize_flow_key row.flow_key;
}

record Accepted (row out : ScheduleLesson) : Type 0 where
  status : EntityStatus
  group : not (is_positive row.group_id) ≡ false
  dated : is_zero (date_only row.lesson_date) ≡ false
  pair : bad_pair row.pair_number ≡ false
  subgroup : bad_subgroup row.subgroup ≡ false
  chosen : normalize_status row.status ≡ ok status
  result : normal_form row status ≡ out

-- Each guard of the function, read off from a result.
accepted : (row out : ScheduleLesson) → normalize_schedule_lesson row ≡ ok out → Accepted row out
unfolding normalize_schedule_lesson
accepted row out h =
    let (group, h₁) = >>-eq-ok _ _ h in
    let (dated, h₂) = >>-eq-ok _ _ h₁ in
    let (pair, h₃) = >>-eq-ok _ _ h₂ in
    let (subgroup, h₄) = >>-eq-ok _ _ h₃ in
    let (status, chosen, h₅) = >>=-eq-ok _ _ h₄ in
    record {
      status = status;
      group = reject_if-ok _ _ group;
      dated = reject_if-ok _ _ dated;
      pair = reject_if-ok _ _ pair;
      subgroup = reject_if-ok _ _ subgroup;
      chosen = chosen;
      result = ok_inj h₅;
    }

not_zero : (t : Time) → is_zero (date_only t) ≡ false → t.day ≢ 0
unfolding date_only
not_zero t h = ground arith

bad_subgroup-IsSubgroup : (s : Option ℤ) → bad_subgroup s ≡ false → IsSubgroup s
bad_subgroup-IsSubgroup none h = tt
bad_subgroup-IsSubgroup (some (pos n)) h = ground arith
bad_subgroup-IsSubgroup (some (negsuc n)) h = ground arith

normal_form-IsNormal :
    (row out : ScheduleLesson) (a : Accepted row out) → IsNormal (normal_form row a.status)
unfolding date_only
normal_form-IsNormal row out a = record {
  group = ground (arith, a.group);
  midnight = refl;
  dated = not_zero row.lesson_date a.dated;
  pair = ground (arith, a.pair);
  subgroup = bad_subgroup-IsSubgroup row.subgroup a.subgroup;
  format = normalize_lesson_format-IsFormat row.lesson_format;
  status = normalize_status-IsStatus row.status a.status a.chosen;
  source = normalize_lesson_source-IsSource row.source;
  version = ground arith;
  flow_key = normalize_flow_key-IsFlowKey row.flow_key;
}

-- Whatever the input, a lesson that is accepted is in normal form.
pub normalize_schedule_lesson-IsNormal :
    (row out : ScheduleLesson) → normalize_schedule_lesson row ≡ ok out → IsNormal out
normalize_schedule_lesson-IsNormal row out h =
    let a = accepted row out h in subst IsNormal a.result (normal_form-IsNormal row out a)
