-- ===== src/Schedule/Dictionaries/Tests.antt =====
-- internal/schedule/repository_rooms.go: the theorem about normalizeRoomRequest at a request.
use ispo_shedule_backend.Prelude.{pos, true, none, ◌≡◌, refl, is_positive}
use ispo_shedule_backend.Prelude.Text.{trim_space, to_lower}
use ispo_shedule_backend.Prelude.Results.{ok}
use ispo_shedule_backend.Schedule.Dictionaries.{
  RoomRequest, known_request_status, normalize_room_request, IsRequestStatus,
  normalize_room_request-normalize_room_request,
}

abbrev given : RoomRequest
given = record {
  id = pos 1;
  teacher_id = none;
  subject_id = none;
  group_id = none;
  semester = none;
  required_type_id = none;
  preferred_location_id = none;
  priority = pos 0;
  comment = none;
  status = " Approved";
}

abbrev stored : RoomRequest
stored = record given { priority = pos 100; status = "approved" }

accepts : normalize_room_request given ≡ ok stored
unfolding trim_space to_lower known_request_status normalize_room_request
accepts = refl

normalize_room_request-normalize_room_request_example :
    IsRequestStatus "approved"
    × (is_positive (pos 100) ≡ true)
    × (normalize_room_request stored ≡ ok stored)
normalize_room_request-normalize_room_request_example =
    normalize_room_request-normalize_room_request given stored accepts
