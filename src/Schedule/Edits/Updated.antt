-- ===== src/Schedule/Edits/Updated.antt =====
-- internal/schedule/service_overrides.go: what a successful UpdateScheduleLesson has checked and written.
use ispo_shedule_backend.Prelude.{
  ℕ, suc, ◌<◌, max_int, ℤ, pos, Bool, false, ◌≡◌, ◌≢◌, refl, sym, ap, subst, ◌∙◌, Option, none,
  some, ◌==◌, int_eq, find, int_succ, int_succ-pos, arith, Bool-cases, inl, inr, some_inj,
}
use ispo_shedule_backend.Prelude.Results.{ok}
use ispo_shedule_backend.Prelude.Transaction.{and_then-ok, reject_if-ok, lift-ok, pure-ok}
use ispo_shedule_backend.Schedule.Models.{is_cancelled, ScheduleLesson}
use ispo_shedule_backend.Schedule.Store.{Tables, Database, IsDatabase, replace_lesson}
use ispo_shedule_backend.Schedule.Lessons.Normalize.{normalize_schedule_lesson}
use ispo_shedule_backend.Schedule.Lessons.Normal.{IsNormal, normalize_schedule_lesson-IsNormal}
use ispo_shedule_backend.Schedule.Rooms.Free.{query-ok}
use ispo_shedule_backend.Schedule.Constraints.Defs.{constraint_on}
use ispo_shedule_backend.Schedule.Constraints.Verdicts.{
  PermitsToday, check_global_day_constraint-ok,
}
use ispo_shedule_backend.Schedule.Overrides.Rows.{version_conflict}
use ispo_shedule_backend.Schedule.Overrides.Replaced.{PermitsTeacher, check_teacher-ok}
use ispo_shedule_backend.Schedule.Overrides.Versions.{
  lesson_by_id, stored_after, expected_version, named_id,
}
use ispo_shedule_backend.Schedule.Edits.Defs.{
  patched, row_or_fail, first_lesson, check_live_day, update_schedule_lesson,
}

-- A lesson that is not cancelled is permitted by the constraint of its day.
abbrev pub PermitsLive : Tables → ScheduleLesson → Bool → Type 0
PermitsLive t lesson confirmed =
    is_cancelled lesson.status ≡ false → PermitsToday confirmed (constraint_on t lesson.lesson_date)

pub record Updated (before after : Tables) (id : ℤ) (patch : ScheduleLesson)
    (expected_version : Option ℤ) (confirmed_teacher confirmed_global_day : Bool)
    (out : ScheduleLesson) : Type 0 where
  pub row : ScheduleLesson
  pub found : lesson_by_id id before ≡ some row
  pub expected : (v : ℤ) → expected_version ≡ some v → row.version ≡ v
  pub next : normalize_schedule_lesson (patched row patch) ≡ ok out
  pub normal : IsNormal out
  pub stored : lesson_by_id id after ≡ some out
  pub day : PermitsLive before out confirmed_global_day
  pub teacher : PermitsTeacher before out.teacher_id out.lesson_date confirmed_teacher

kept_id : (row out : ScheduleLesson) → normalize_schedule_lesson row ≡ ok out → out.id ≡ row.id
unfolding normalize_schedule_lesson
kept_id row out h = ground arith

kept_version :
    (row out : ScheduleLesson) (n : ℕ)
    → normalize_schedule_lesson row ≡ ok out
    → row.version ≡ pos (suc n)
    → out.version ≡ pos (suc n)
unfolding normalize_schedule_lesson
kept_version row out n h e = ground (arith, e)

module _ (db : Database) where
  found_row :
      (o : Option ScheduleLesson) (row : ScheduleLesson) (s t : db.State)
      → row_or_fail db o s ≡ ok (row, t)
      → (o ≡ some row) × (t ≡ s)
  unfolding row_or_fail
  found_row none row s t h = cc
  found_row (some r) row s t h = (cc, cc)

  first_lesson-ok :
      (id : ℤ) (row : ScheduleLesson) (s t : db.State)
      → first_lesson db id s ≡ ok (row, t)
      → (lesson_by_id id (db.tables s) ≡ some row) × (t ≡ s)
  unfolding first_lesson lesson_by_id
  first_lesson-ok id row s t h =
      let (o, s₁, p, h₁) = and_then-ok _ _ h in
      let (read, e₁) = query-ok db _ s s₁ o p in
      let (found, e₂) = found_row o row s₁ t h₁ in (sym read ∙ found, e₂ ∙ e₁)

  live_day :
      (lesson : ScheduleLesson) (confirmed : Bool) (s t : db.State)
      → check_live_day db lesson.status lesson.lesson_date confirmed s ≡ ok (tt, t)
      → PermitsLive (db.tables s) lesson confirmed × (t ≡ s)
  unfolding check_live_day
  live_day lesson confirmed s t h = elim (Bool-cases (is_cancelled lesson.status)) [
    | inl gone ↦
        let h₁ : ok (tt, s) ≡ ok (tt, t) = rw (gone, check_live_day) at h in (λ live. cc, cc)
    | inr live ↦
        let (permits, e) =
          check_global_day_constraint-ok db lesson.lesson_date confirmed s t
            (rw (live, check_live_day) at h) in
        (λ _. permits, e)
  ]

updated :
    (before after : Tables) (id : ℤ) (patch : ScheduleLesson) (expected : Option ℤ)
    (confirmed_teacher confirmed_global_day : Bool) (row next out : ScheduleLesson)
    → next ≡ out
    → lesson_by_id id before ≡ some row
    → version_conflict expected row.version ≡ false
    → normalize_schedule_lesson (patched row patch) ≡ ok next
    → PermitsLive before next confirmed_global_day
    → PermitsTeacher before next.teacher_id next.lesson_date confirmed_teacher
    → after.lessons ≡ replace_lesson next before.lessons
    → Updated before after id patch expected confirmed_teacher confirmed_global_day out
unfolding lesson_by_id patched
updated before after id patch expected ct cg row next out same found fits normal day teacher
      written =
    let own : next.id ≡ row.id = kept_id (patched row patch) next normal in
    let named : row.id ≡ id = named_id id row before.lessons found in
    subst (Updated before after id patch expected ct cg) same (record {
      row = row;
      found = found;
      expected = λ v. expected_version expected row.version v fits;
      next = normal;
      normal = normalize_schedule_lesson-IsNormal _ next normal;
      stored =
          subst (λ i. find (λ r. r.id == i) after.lessons ≡ some next) named
            (stored_after before after _ next row found own written);
      day = day;
      teacher = teacher;
    })

module _ (db : Database) (law : IsDatabase db) where
  -- A successful UpdateScheduleLesson found the lesson with the expected version, if one is expected;
  -- the row written is in normal form and is what the identifier finds afterwards; and the
  -- constraints of its day, unless it is cancelled, and of its teacher permit it.
  pub update_schedule_lesson-Updated :
      (id : ℤ) (patch : ScheduleLesson) (expected : Option ℤ)
      (confirmed_teacher confirmed_global_day : Bool) (out : ScheduleLesson) (s t : db.State)
      → update_schedule_lesson db id patch expected confirmed_teacher confirmed_global_day s
        ≡ ok (out, t)
      → Updated
          (db.tables s)
          (db.tables t)
          id
          patch
          expected
          confirmed_teacher
          confirmed_global_day
          out
  unfolding update_schedule_lesson
  update_schedule_lesson-Updated id patch expected ct cg out s t h =
      let (row, s₁, p₁, h₁) = and_then-ok _ _ h in
      let (found, e₁) = first_lesson-ok db id row s s₁ p₁ in
      let (_, s₂, p₂, h₂) = and_then-ok _ _ h₁ in
      let (fits, e₂) = reject_if-ok _ _ s₁ s₂ p₂ in
      let (next, s₃, p₃, h₃) = and_then-ok _ _ h₂ in
      let (normal, e₃) = lift-ok _ s₂ s₃ p₃ in
      let (_, s₄, p₄, h₄) = and_then-ok _ _ h₃ in
      let (day, e₄) = live_day db next cg s₃ s₄ p₄ in
      let (_, s₅, p₅, h₅) = and_then-ok _ _ h₄ in
      let (teacher, e₅) = check_teacher-ok db next.teacher_id next.lesson_date ct s₄ s₅ p₅ in
      let (_, s₆, p₆, h₆) = and_then-ok _ _ h₅ in
      let saved = law.save_lesson_ok next s₅ s₆ p₆ in
      let (_, s₇, p₇, h₇) = and_then-ok _ _ h₆ in
      let kept = law.commit_ok s₆ s₇ p₇ in
      let (same, end) = pure-ok next out s₇ t h₇ in
      updated (db.tables s) (db.tables t) id patch expected ct cg row next out same found fits
        normal (subst (λ u. PermitsLive (db.tables u) next cg) (e₃ ∙ e₂ ∙ e₁) day)
        (subst (λ u. PermitsTeacher (db.tables u) next.teacher_id next.lesson_date ct)
          (e₄ ∙ e₃ ∙ e₂ ∙ e₁) teacher)
        (ap (λ u. (db.tables u).lessons) (sym end)
          ∙ ap (λ u. u.lessons) kept
          ∙ ap (λ u. u.lessons) saved
          ∙ ap (λ u. replace_lesson next (db.tables u).lessons) (e₅ ∙ e₄ ∙ e₃ ∙ e₂ ∙ e₁))

  next_version :
      (before after : Tables) (id : ℤ) (patch : ScheduleLesson) (n : ℕ) (ct cg : Bool)
      (out : ScheduleLesson)
      → n < max_int
      → Updated before after id patch (some (pos n)) ct cg out
      → out.version ≡ pos (suc n)
  unfolding patched
  next_version before after id patch n ct cg out small u =
      kept_version (patched u.row patch) out n u.next
        (ap int_succ (u.expected (pos n) refl) ∙ int_succ-pos n small)

  -- Of two edits of the same lesson that both expect its version to be n, below the largest integer,
  -- the second never succeeds on the tables that the first one left.
  pub update_schedule_lesson_once :
      (id : ℤ) (patch patch' : ScheduleLesson) (n : ℕ) (ct cg ct' cg' : Bool)
      (out out' : ScheduleLesson) (s t u : db.State)
      → n < max_int
      → update_schedule_lesson db id patch (some (pos n)) ct cg s ≡ ok (out, t)
      → update_schedule_lesson db id patch' (some (pos n)) ct' cg' t ≢ ok (out', u)
  update_schedule_lesson_once id patch patch' n ct cg ct' cg' out out' s t u small h₁ h₂ =
      let one = update_schedule_lesson-Updated id patch (some (pos n)) ct cg out s t h₁ in
      let two = update_schedule_lesson-Updated id patch' (some (pos n)) ct' cg' out' t u h₂ in
      let same : out ≡ two.row = some_inj (sym one.stored ∙ two.found) in
      let clash : pos (suc n) ≡ pos n =
        sym (next_version _ _ id patch n ct cg out small one)
        ∙ ap (λ l. l.version) same
        ∙ two.expected (pos n) refl in
      ground (arith, clash)
