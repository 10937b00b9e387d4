-- ===== src/Schedule/Autofill/Tests.antt =====
-- A lesson without a room at the time of another lesson in room 4 (Service).
use ispo_shedule_backend.Prelude.{
  ℤ, pos, String, true, false, none, some, [], ◌∷◌, ◌++◌, string_eq, nat_eq, int_eq,
}
use ispo_shedule_backend.Schedule.Models.{published}
use ispo_shedule_backend.Schedule.Store.{Tables}
use ispo_shedule_backend.Schedule.Memory.{today, tables_one}
use ispo_shedule_backend.Schedule.Dictionaries.{Location}
use ispo_shedule_backend.Schedule.Build.Defs.{ScheduleLessonView}
use ispo_shedule_backend.Schedule.Autofill.Defs.{
  LocationAutofillRequest, LocationAutofillResponse, AutofillQueries,
}

abbrev roomless : ScheduleLessonView
roomless = record {
  id = pos 2;
  group_id = pos 8;
  lesson_date = today;
  pair_number = pos 3;
  subgroup = none;
  subject_id = some (pos 6);
  subject_name = "Физика";
  teacher_id = none;
  teacher_name = "";
  location_id = none;
  location_name = "";
  lesson_format = "offline";
  status = published;
  source = "manual";
  flow_key = none;
  comment = none;
  version = pos 1;
  room_assignment_id = none;
}

abbrev room : ℤ → String → Location
room rid text = record {
  id = rid;
  campus_id = none;
  name = text;
  kind = "physical";
  capacity = none;
  is_active = true;
}

abbrev queries : AutofillQueries
queries = record {
  lesson_views = λ t gid first last. roomless ∷ [];
  location_metas = λ t ids. [];
  available_locations = λ t week campus kind. room (pos 4) "104" ∷ room (pos 5) "105" ∷ [];
  format_version = λ v. "v1";
}

abbrev request : LocationAutofillRequest
request = record {
  group_id = pos 8;
  start_date = today;
  end_date = today;
  campus_name = none;
  location_type = none;
  replace_virtual = false;
  dry_run = false;
  comment = none;
}

abbrev filled : LocationAutofillResponse
filled = record {
  group_id = pos 8;
  date_start = 739000;
  date_end = 739000;
  dry_run = false;
  assigned = 1;
  skipped = 0;
  created = 1;
  updated = 0;
  data_version = "v1";
  assignments =
      record {
        schedule_lesson_id = pos 2;
        date = 739000;
        pair_number = pos 3;
        subgroup = none;
        subject_id = some (pos 6);
        subject_name = "Физика";
        location_id = some (pos 5);
        location_name = "105";
        status = "assigned";
        reason = "";
        assignment_action = "created";
      }
      ∷ [];
}

abbrev afterwards : Tables
afterwards = record tables_one {
  room_assignments =
      tables_one.room_assignments
      ++ record {
        id = pos 2;
        schedule_lesson_id = pos 2;
        location_id = pos 5;
        source = "auto";
        status = published;
      }
        ∷ [];
  schedule_version = some today;
}
