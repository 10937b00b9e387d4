-- ===== src/Schedule/Overrides/Tests.antt =====
-- internal/schedule/service_overrides.go: the theorems about ApplyScheduleOverride at a replacement
-- and an addition.
use ispo_shedule_backend.Prelude.{
  int_succ, filter, pos, String, false, ◌≡◌, ◌≢◌, refl, none, some, [], ◌∷◌, int_succ,
}
use ispo_shedule_backend.Prelude.Text.{trim_space, to_lower}
use ispo_shedule_backend.Prelude.Results.{ok, err}
use ispo_shedule_backend.Schedule.Errors.{lesson_version_conflict}
use ispo_shedule_backend.Schedule.Overrides.Refused.{apply_schedule_override-refused}
use ispo_shedule_backend.Prelude.Transaction.{and_then, lift, reject_if}
use ispo_shedule_backend.Schedule.Models.{
  add, replace, cancel, published, ScheduleLesson, ScheduleOverride,
}
use ispo_shedule_backend.Schedule.Store.{Tables}
use ispo_shedule_backend.Schedule.Memory.{memory, memory-IsDatabase, today, tables_one, lesson_one}
use ispo_shedule_backend.Schedule.Lessons.Normalize.{
  date_only, normalize_lesson_format, normalize_lesson_source, normalize_override_action,
  normalize_status, normalize_flow_key, normalize_schedule_lesson,
}
use ispo_shedule_backend.Schedule.Rooms.Defs.{
  assignment_status, assignment_source, normalize_room_assignment, location_is_virtual, flows_apart,
  sits_in, conflicts, query, write_assignment, upsert_room_assignment_for_lesson, room_verdict,
  ensure_room_available,
}
use ispo_shedule_backend.Schedule.Constraints.Defs.{
  teacher_verdict, global_verdict, check_teacher_constraints, check_global_day_constraint,
}
use ispo_shedule_backend.Schedule.Overrides.Rows.{
  ApplyScheduleOverrideRequest, version_conflict, dated, in_slot, replaced_lesson,
}
use ispo_shedule_backend.Schedule.Overrides.Defs.{
  lock_schedule_lesson_for_override, cancel_lesson, ensure_location, assign_location,
  replace_existing, override_lesson, apply_existing_lesson_override, check_addition,
  create_addition, apply_add_override, apply_action, known, apply_schedule_override,
}
use ispo_shedule_backend.Schedule.Constraints.Defs.{constraint_on}
use ispo_shedule_backend.Schedule.Constraints.Verdicts.{PermitsToday}
use ispo_shedule_backend.Schedule.Overrides.Replaced.{PermitsTeacher}
use ispo_shedule_backend.Schedule.Overrides.Outcome.{SameRows, target_location}
use ispo_shedule_backend.Schedule.Overrides.Safety.{
  Found, HoldsRoom, apply_schedule_override-HoldsRoom, apply_schedule_override-Permits,
}
use ispo_shedule_backend.Schedule.Overrides.Addition.{Added, apply_schedule_override-Added}
use ispo_shedule_backend.Schedule.Overrides.Versions.{Advanced, apply_schedule_override-Advanced}

abbrev request : String → ApplyScheduleOverrideRequest
request action = record {
  schedule_lesson_id = some (pos 1);
  group_id = pos 7;
  lesson_date = today;
  pair_number = pos 3;
  subgroup = none;
  action_type = action;
  replacement_subject_id = some (pos 6);
  replacement_teacher_id = some (pos 11);
  replacement_location_id = some (pos 8);
  replacement_lesson_format = none;
  reason = none;
  expected_lesson_version = some (pos 1);
  confirm_constraints = false;
  confirm_global_day_constraint = false;
  created_by = none;
}

abbrev replaced_out : ScheduleOverride
replaced_out = record {
  id = pos 1;
  schedule_lesson_id = some (pos 1);
  lesson_date = today;
  group_id = pos 7;
  pair_number = pos 3;
  action_type = replace;
  source_subject_id = some (pos 5);
  source_teacher_id = some (pos 9);
  source_location_id = some (pos 4);
  source_lesson_format = some "offline";
  subgroup = none;
  replacement_subject_id = some (pos 6);
  replacement_teacher_id = some (pos 11);
  replacement_location_id = some (pos 8);
  replacement_lesson_format = some "offline";
  reason = none;
  status = "applied";
  expected_lesson_version = some (pos 1);
  applied_lesson_version = some (pos 2);
  created_by = none;
  applied_at = some today;
}

abbrev replaced_tables : Tables
replaced_tables = record {
  lessons =
      record {
        id = pos 1;
        group_id = pos 7;
        lesson_date = today;
        pair_number = pos 3;
        subgroup = none;
        subject_id = some (pos 6);
        teacher_id = some (pos 11);
        lesson_format = "offline";
        status = published;
        source = "replacement";
        flow_key = none;
        comment = none;
        version = pos 2;
      }
      ∷ [];
  room_assignments =
      record {
        id = pos 1;
        schedule_lesson_id = pos 1;
        location_id = pos 8;
        source = "replacement";
        status = published;
      }
      ∷ [];
  overrides = replaced_out ∷ [];
  teacher_constraints = [];
  day_constraints = [];
  locations = [];
  schedule_version = some today;
}

abbrev added_out : ScheduleOverride
added_out = record {
  id = pos 1;
  schedule_lesson_id = some (pos 2);
  lesson_date = today;
  group_id = pos 7;
  pair_number = pos 4;
  action_type = add;
  source_subject_id = none;
  source_teacher_id = none;
  source_location_id = none;
  source_lesson_format = none;
  subgroup = none;
  replacement_subject_id = some (pos 6);
  replacement_teacher_id = some (pos 11);
  replacement_location_id = some (pos 8);
  replacement_lesson_format = some "offline";
  reason = none;
  status = "applied";
  expected_lesson_version = none;
  applied_lesson_version = some (pos 1);
  created_by = none;
  applied_at = some today;
}

abbrev added_tables : Tables
added_tables = record {
  lessons =
      record {
        id = pos 1;
        group_id = pos 7;
        lesson_date = today;
        pair_number = pos 3;
        subgroup = none;
        subject_id = some (pos 5);
        teacher_id = some (pos 9);
        lesson_format = "offline";
        status = published;
        source = "manual";
        flow_key = none;
        comment = none;
        version = pos 1;
      }
      ∷ record {
        id = pos 2;
        group_id = pos 7;
        lesson_date = today;
        pair_number = pos 4;
        subgroup = none;
        subject_id = some (pos 6);
        teacher_id = some (pos 11);
        lesson_format = "offline";
        status = published;
        source = "replacement";
        flow_key = none;
        comment = none;
        version = pos 1;
      }
      ∷ [];
  room_assignments =
      record {
        id = pos 1;
        schedule_lesson_id = pos 1;
        location_id = pos 4;
        source = "manual";
        status = published;
      }
      ∷ record {
        id = pos 2;
        schedule_lesson_id = pos 2;
        location_id = pos 8;
        source = "replacement";
        status = published;
      }
      ∷ [];
  overrides = added_out ∷ [];
  teacher_constraints = [];
  day_constraints = [];
  locations = [];
  schedule_version = some today;
}

abbrev addition : ApplyScheduleOverrideRequest
addition = record (request "add") { pair_number = pos 4 }

replaces :
    apply_schedule_override memory today (request "replace") tables_one
    ≡ ok (replaced_out, replaced_tables)
unfolding int_succ trim_space to_lower and_then lift reject_if date_only normalize_lesson_format
    normalize_lesson_source normalize_override_action normalize_status normalize_flow_key
    normalize_schedule_lesson assignment_status assignment_source normalize_room_assignment
    location_is_virtual flows_apart sits_in conflicts query write_assignment
    upsert_room_assignment_for_lesson room_verdict ensure_room_available teacher_verdict
    global_verdict check_teacher_constraints check_global_day_constraint version_conflict
    lock_schedule_lesson_for_override cancel_lesson ensure_location assign_location replace_existing
    override_lesson apply_existing_lesson_override check_addition create_addition apply_add_override
    apply_action known apply_schedule_override
replaces = refl

adds : apply_schedule_override memory today addition tables_one ≡ ok (added_out, added_tables)
unfolding int_succ trim_space to_lower and_then lift reject_if date_only normalize_lesson_format
    normalize_lesson_source normalize_override_action normalize_status normalize_flow_key
    normalize_schedule_lesson assignment_status assignment_source normalize_room_assignment
    location_is_virtual flows_apart sits_in conflicts query write_assignment
    upsert_room_assignment_for_lesson room_verdict ensure_room_available teacher_verdict
    global_verdict check_teacher_constraints check_global_day_constraint version_conflict
    lock_schedule_lesson_for_override cancel_lesson ensure_location assign_location replace_existing
    override_lesson apply_existing_lesson_override check_addition create_addition apply_add_override
    apply_action known apply_schedule_override
adds = refl

not_add : normalize_override_action "replace" ≢ some add
unfolding normalize_override_action trim_space to_lower
not_add e = cc

not_cancel : normalize_override_action "replace" ≢ some cancel
unfolding normalize_override_action trim_space to_lower
not_cancel e = cc

is_add : normalize_override_action "add" ≡ some add
unfolding normalize_override_action trim_space to_lower
is_add = refl

apply_schedule_override-Advanced_example :
    Advanced tables_one replaced_tables (dated (request "replace")) replaced_out
apply_schedule_override-Advanced_example =
    apply_schedule_override-Advanced memory today memory-IsDatabase (request "replace") replaced_out
      tables_one replaced_tables not_add replaces

apply_schedule_override-HoldsRoom_example :
    (lesson : ScheduleLesson) × Found (dated (request "replace")) tables_one lesson
    × HoldsRoom replaced_tables lesson
        (target_location (dated (request "replace")) lesson tables_one)
apply_schedule_override-HoldsRoom_example =
    apply_schedule_override-HoldsRoom memory today memory-IsDatabase (request "replace")
      replaced_out tables_one replaced_tables (not_add, not_cancel) replaces

apply_schedule_override-Permits_example :
    (lesson : ScheduleLesson) × Found (dated (request "replace")) tables_one lesson
    × PermitsToday false (constraint_on tables_one lesson.lesson_date)
    × PermitsTeacher tables_one
        (replaced_lesson (dated (request "replace")) lesson).teacher_id
        lesson.lesson_date
        false
apply_schedule_override-Permits_example =
    apply_schedule_override-Permits memory today memory-IsDatabase (request "replace") replaced_out
      tables_one replaced_tables (not_add, not_cancel) replaces

apply_schedule_override-Added_example :
    (last : Tables) × (a : Added tables_one last (dated addition) added_out) × SameRows last
      added_tables
    × (filter (in_slot (dated addition)) added_tables.lessons ≡ a.created ∷ [])
apply_schedule_override-Added_example =
    apply_schedule_override-Added memory today memory-IsDatabase addition added_out tables_one
      added_tables is_add adds

abbrev stale_request : ApplyScheduleOverrideRequest
stale_request = record (request "replace") { expected_lesson_version = some (pos 2) }

apply_schedule_override-refused_example :
    apply_schedule_override memory today stale_request tables_one ≡ err lesson_version_conflict
unfolding normalize_override_action trim_space to_lower date_only
apply_schedule_override-refused_example =
    apply_schedule_override-refused memory today stale_request replace tables_one lesson_one (pos 2)
      refl (λ p. cc) refl refl refl refl refl refl (λ p. cc)
