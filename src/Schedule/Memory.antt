-- ===== src/Schedule/Memory.antt =====
-- A database in memory, and the rows of a small timetable, on which the theorems about
-- internal/schedule are tried.
use ispo_shedule_backend.Prelude.{Option}
use ispo_shedule_backend.Prelude.{
  ℕ, suc, ◌+◌, ◌<◌, ℤ, pos, negsuc, false, ◌≡◌, none, some, List, [], ◌∷◌, ◌++◌, map, string_eq,
  nat_eq, pair_eq, int_eq, int_beq_iff, pos_part, arith, refl, subst, length, contains,
}
use ispo_shedule_backend.Prelude.Results.{ok}
use ispo_shedule_backend.Schedule.Models.{Time, published, ScheduleLesson}
use ispo_shedule_backend.Schedule.Store.{
  Tables, Database, IsDatabase, replace_lesson, replace_assignment,
}

abbrev pub next_id {ℓ} : {A : Type ℓ} → List A → ℤ
next_id rows = pos (suc (length rows))

-- a bound of the identifiers
abbrev largest : List ℤ → ℕ
largest [] = 0
largest (id ∷ ids) = pos_part id + largest ids

abbrev pub unused_id : List ℤ → ℤ
unused_id ids = pos (suc (largest ids))

unused_above : (ids : List ℤ) (n : ℕ) → largest ids < n → contains (pos n) ids ≡ false
unused_above [] n h = refl
unused_above (pos m ∷ ids) n h =
    ground (arith, unused_above ids n (omega arith), int_beq_iff (pos n) (pos m))
unused_above (negsuc m ∷ ids) n h = ground (arith, unused_above ids n (omega arith))

unused : (ids : List ℤ) → contains (unused_id ids) ids ≡ false
unused ids = unused_above ids (suc (largest ids)) (omega arith)

abbrev pub today : Time
today = record { day = 739000; nanos = 0 }

-- UPDATE changes the row of the system state if there is one
abbrev bumped : Option Time → Option Time
bumped none = none
bumped (some v) = some today

abbrev pub memory : Database
memory = record {
  State = Tables;
  tables = λ s. s;
  read_error = λ s. none;
  create_lesson = λ row s.
      let out = record row { id = next_id s.lessons } in
      ok (out, record s { lessons = s.lessons ++ out ∷ [] });
  save_lesson = λ row s. ok (tt, record s { lessons = replace_lesson row s.lessons });
  create_assignment = λ row s.
      let out = record row { id = unused_id (map (λ a. a.id) s.room_assignments) } in
      ok (out, record s { room_assignments = s.room_assignments ++ out ∷ [] });
  save_assignment =
      λ row s. ok (tt, record s { room_assignments = replace_assignment row s.room_assignments });
  create_override = λ row s.
      let out = record row { id = next_id s.overrides } in
      ok (out, record s { overrides = s.overrides ++ out ∷ [] });
  create_system_state = λ now s. ok (tt, record s { schedule_version = some now });
  bump_version = λ s. ok (tt, record s { schedule_version = bumped s.schedule_version });
  commit = λ s. ok (tt, s);
}

pub memory-IsDatabase : IsDatabase memory
memory-IsDatabase = record {
  create_lesson_ok = λ row out s t h. (cc, cc);
  save_lesson_ok = λ row s t h. cc;
  create_assignment_ok = λ row out s t h. (cc, cc);
  create_assignment_fresh = λ row out s t h.
      let e : unused_id (map (λ a. a.id) s.room_assignments) ≡ out.id = cc in
      subst (λ i. contains i (map (λ a. a.id) s.room_assignments) ≡ false) e
        (unused (map (λ a. a.id) s.room_assignments));
  save_assignment_ok = λ row s t h. cc;
  create_system_state_ok = λ now s t h. cc;
  create_override_ok = λ row out s t h. (cc, cc);
  bump_version_ok = λ s t h. (bumped s.schedule_version, cc);
  commit_ok = λ s t h. cc;
}

-- A lesson of group 7 in the third pair, in room 4.
abbrev pub lesson_one : ScheduleLesson
lesson_one = record {
  id = pos 1;
  group_id = pos 7;
  lesson_date = today;
  pair_number = pos 3;
  subgroup = none;
  subject_id = some (pos 5);
  teacher_id = some (pos 9);
  lesson_format = "offline";
  status = published;
  source = "manual";
  flow_key = none;
  comment = none;
  version = pos 1;
}

abbrev pub tables_one : Tables
tables_one = record {
  lessons = lesson_one ∷ [];
  room_assignments =
      record {
        id = pos 1;
        schedule_lesson_id = pos 1;
        location_id = pos 4;
        source = "manual";
        status = published;
      }
      ∷ [];
  overrides = [];
  teacher_constraints = [];
  day_constraints = [];
  locations = [];
  schedule_version = some today;
}
