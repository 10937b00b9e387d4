-- ===== src/Schedule/Lessons/Stable.antt =====
-- internal/schedule/repository_lessons.go: a lesson in normal form is accepted unchanged, so what
-- one write stored passes the checks of the next.
use ispo_shedule_backend.Prelude.{
  ℤ, pos, String, false, ◌≡◌, ◌≢◌, inl, inr, refl, sym, subst, Option, none, some, string_eq,
  nat_eq, ◌≤ℤ◌, arith, eq_iff,
}
use ispo_shedule_backend.Prelude.Text.{trim_space, to_lower}
use ispo_shedule_backend.Prelude.Results.{ok}
use ispo_shedule_backend.Schedule.Models.{
  Time, EntityStatus, draft, published, cancelled, other_status, ScheduleLesson,
}
use ispo_shedule_backend.Schedule.Lessons.Normalize.{
  date_only, is_zero, normalize_lesson_format, normalize_lesson_source, bad_pair, bad_subgroup,
  normalize_status, normalize_flow_key, normalize_schedule_lesson,
}
use ispo_shedule_backend.Schedule.Lessons.Normal.{
  IsFormat, IsSource, IsStatus, IsFlowKey, IsSubgroup, IsNormal,
}

abbrev KeepsFormat : String → Type 0
KeepsFormat v = normalize_lesson_format v ≡ v

formats : KeepsFormat "offline" × KeepsFormat "online" × KeepsFormat "hybrid"
unfolding normalize_lesson_format trim_space to_lower
formats = (refl, refl, refl)

format_fixed : (v : String) → IsFormat v → KeepsFormat v
format_fixed v (inl p) = subst KeepsFormat (sym p) formats.0
format_fixed v (inr (inl p)) = subst KeepsFormat (sym p) formats.1
format_fixed v (inr (inr p)) = subst KeepsFormat (sym p) formats.2

abbrev KeepsSource : String → Type 0
KeepsSource v = normalize_lesson_source v ≡ v

sources :
    KeepsSource "manual"
    × KeepsSource "imported"
    × KeepsSource "auto"
    × KeepsSource "generated"
    × KeepsSource "replacement"
unfolding normalize_lesson_source trim_space to_lower
sources = (refl, refl, refl, refl, refl)

source_fixed : (v : String) → IsSource v → KeepsSource v
source_fixed v (inl p) = subst KeepsSource (sym p) sources.0
source_fixed v (inr (inl p)) = subst KeepsSource (sym p) sources.1
source_fixed v (inr (inr (inl p))) = subst KeepsSource (sym p) sources.2
source_fixed v (inr (inr (inr (inl p)))) = subst KeepsSource (sym p) sources.3
source_fixed v (inr (inr (inr (inr p)))) = subst KeepsSource (sym p) sources.4

status_fixed : (s : EntityStatus) → IsStatus s → normalize_status s ≡ ok s
unfolding normalize_status
status_fixed draft h = refl
status_fixed published h = refl
status_fixed cancelled h = refl
status_fixed (other_status s) (inl p) = cc
status_fixed (other_status s) (inr (inl p)) = cc
status_fixed (other_status s) (inr (inr p)) = cc

flow_key_fixed : (o : Option String) → IsFlowKey o → normalize_flow_key o ≡ o
unfolding normalize_flow_key
flow_key_fixed none h = refl
flow_key_fixed (some key) h = ground (arith, eq_iff (trim_space key) "")

date_fixed : (t : Time) → t.nanos ≡ 0 → date_only t ≡ t
unfolding date_only
date_fixed t h = ground arith

zero_fixed : (t : Time) → t.day ≢ 0 → is_zero (date_only t) ≡ false
unfolding date_only
zero_fixed t h = ground arith

subgroup_fixed : (s : Option ℤ) → IsSubgroup s → bad_subgroup s ≡ false
subgroup_fixed none h = refl
subgroup_fixed (some s) h = ground arith

pair_fixed : (p : ℤ) → (pos 1 ≤ℤ p) × (p ≤ℤ pos 8) → bad_pair p ≡ false
pair_fixed p h = ground arith

-- A lesson in normal form is accepted, and the result is that lesson.
pub normalize_schedule_lesson_fixed :
    (row : ScheduleLesson) → IsNormal row → normalize_schedule_lesson row ≡ ok row
unfolding normalize_schedule_lesson
normalize_schedule_lesson_fixed row h = ground (
  arith,
  h.group,
  date_fixed row.lesson_date h.midnight,
  zero_fixed row.lesson_date h.dated,
  pair_fixed row.pair_number h.pair,
  subgroup_fixed row.subgroup h.subgroup,
  status_fixed row.status h.status,
  format_fixed row.lesson_format h.format,
  source_fixed row.source h.source,
  flow_key_fixed row.flow_key h.flow_key,
)
