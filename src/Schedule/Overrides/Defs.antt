-- ===== src/Schedule/Overrides/Defs.antt =====
-- internal/schedule/service_overrides.go: ApplyScheduleOverride and the two functions that it
-- dispatches to. The clock is the argument `now`; the row lock of the queries makes one call of
-- ApplyScheduleOverride one step.
use ispo_shedule_backend.Prelude.{
  ℤ, String, not, Option, none, some, string_eq, nat_eq, int_eq, is_positive, find, filter, length,
  ltb, int_succ,
}
use ispo_shedule_backend.Prelude.Transaction.{Step, pure, fail, ◌>>=◌, ◌>>◌, lift, reject_if}
use ispo_shedule_backend.Schedule.Models.{
  Time, OverrideAction, add, replace, cancel, restore, ScheduleLesson, ScheduleOverride,
}
use ispo_shedule_backend.Schedule.Errors.{Error, message, record_not_found, lesson_version_conflict}
use ispo_shedule_backend.Schedule.Store.{Database}
use ispo_shedule_backend.Schedule.Lessons.Normalize.{
  normalize_override_action, bad_pair, bad_subgroup, normalize_schedule_lesson,
}
use ispo_shedule_backend.Schedule.Rooms.Defs.{
  query, get_room_assignment_for_lesson, upsert_room_assignment_for_lesson, ensure_room_available,
}
use ispo_shedule_backend.Schedule.Constraints.Defs.{
  check_teacher_constraints, check_global_day_constraint,
}
use ispo_shedule_backend.Schedule.Overrides.Rows.{
  ApplyScheduleOverrideRequest, in_slot, is_target, or_else, version_conflict, location_of,
  override_of, cancelled_lesson, replaced_lesson, added_lesson, added_override, added_format, dated,
  is_none,
}

module _ (db : Database) (now : Time) where
  -- lockScheduleLessonForOverride
  unfoldable pub lock_schedule_lesson_for_override :
      ApplyScheduleOverrideRequest → Step Error db.State ScheduleLesson
  lock_schedule_lesson_for_override req = do
    row ← query db (λ t. find (is_target req req.schedule_lesson_id) t.lessons)
    elim row [ none ↦ fail record_not_found | some lesson ↦ pure lesson ]

  -- the branch of applyExistingLessonOverride for OverrideCancel
  unfoldable pub cancel_lesson :
      ScheduleLesson → ScheduleOverride → Step Error db.State ScheduleOverride
  cancel_lesson lesson override = do
    db.save_lesson (cancelled_lesson lesson)
    db.create_override (record override {
      applied_lesson_version = some (int_succ lesson.version);
      applied_at = some now;
    })

  -- `if location != nil { … }`
  unfoldable pub ensure_location :
      Option ℤ → Time → ℤ → Option String → Option ℤ → Step Error db.State (Unit {0})
  ensure_location none lesson_date pair_number flow_key exclude = pure tt
  ensure_location (some location_id) lesson_date pair_number flow_key exclude =
      ensure_room_available db location_id lesson_date pair_number flow_key exclude

  unfoldable pub assign_location : Option ℤ → ScheduleLesson → Step Error db.State (Unit {0})
  assign_location none lesson = pure tt
  assign_location (some location_id) lesson =
      upsert_room_assignment_for_lesson db lesson.id location_id "replacement" >>= λ _. pure tt

  -- the rest of applyExistingLessonOverride
  unfoldable pub replace_existing :
      ApplyScheduleOverrideRequest
      → ScheduleLesson
      → Option ℤ
      → ScheduleOverride
      → Step Error db.State ScheduleOverride
  replace_existing req lesson current_location override = do
    check_global_day_constraint db lesson.lesson_date req.confirm_global_day_constraint
    let next = replaced_lesson req lesson
    let location = or_else req.replacement_location_id current_location
    check_teacher_constraints db next.teacher_id lesson.lesson_date req.confirm_constraints
    ensure_location location lesson.lesson_date lesson.pair_number lesson.flow_key (some lesson.id)
    db.save_lesson next
    assign_location location next
    db.create_override (record override {
      replacement_subject_id = next.subject_id;
      replacement_teacher_id = next.teacher_id;
      replacement_location_id = location;
      replacement_lesson_format = some next.lesson_format;
      applied_lesson_version = some next.version;
      applied_at = some now;
    })

  -- the end of applyExistingLessonOverride, for the lesson and its present room
  unfoldable pub override_lesson :
      ApplyScheduleOverrideRequest
      → OverrideAction
      → ScheduleLesson
      → Option ℤ
      → Step Error db.State ScheduleOverride
  override_lesson req cancel lesson room = cancel_lesson lesson (override_of req cancel lesson room)
  override_lesson req add lesson room =
      replace_existing req lesson room (override_of req add lesson room)
  override_lesson req replace lesson room =
      replace_existing req lesson room (override_of req replace lesson room)
  override_lesson req restore lesson room =
      replace_existing req lesson room (override_of req restore lesson room)

  -- applyExistingLessonOverride
  unfoldable pub apply_existing_lesson_override :
      ApplyScheduleOverrideRequest → OverrideAction → Step Error db.State ScheduleOverride
  apply_existing_lesson_override req action = do
    lesson ← lock_schedule_lesson_for_override req
    reject_if (version_conflict req.expected_lesson_version lesson.version) lesson_version_conflict
    room ← get_room_assignment_for_lesson db lesson.id
    override_lesson req action lesson (location_of room)

  -- the checks of applyAddOverride before it builds the lesson
  unfoldable pub check_addition : ApplyScheduleOverrideRequest → Step Error db.State (Unit {0})
  check_addition req = do
    count ← query db (λ t. length (filter (in_slot req) t.lessons))
    reject_if (ltb 0 count) (message "schedule lesson slot is occupied")
    reject_if (is_none req.replacement_subject_id)
        (message "replacement_subject_id required for add")
    check_global_day_constraint db req.lesson_date req.confirm_global_day_constraint
    check_teacher_constraints db req.replacement_teacher_id req.lesson_date req.confirm_constraints

  -- the rest of applyAddOverride, for the normalized lesson
  unfoldable pub create_addition :
      ApplyScheduleOverrideRequest → String → ScheduleLesson → Step Error db.State ScheduleOverride
  create_addition req format lesson = do
    ensure_location req.replacement_location_id req.lesson_date req.pair_number lesson.flow_key none
    created ← db.create_lesson lesson
    assign_location req.replacement_location_id created
    db.create_override (added_override req created format now)

  -- applyAddOverride
  unfoldable pub apply_add_override :
      ApplyScheduleOverrideRequest → Step Error db.State ScheduleOverride
  apply_add_override req = do
    check_addition req
    let format = added_format req.replacement_lesson_format
    lesson ← lift (normalize_schedule_lesson (added_lesson req format))
    create_addition req format lesson

  unfoldable pub apply_action :
      ApplyScheduleOverrideRequest → OverrideAction → Step Error db.State ScheduleOverride
  apply_action req add = apply_add_override req
  apply_action req replace = apply_existing_lesson_override req replace
  apply_action req cancel = apply_existing_lesson_override req cancel
  apply_action req restore = apply_existing_lesson_override req restore

  -- `if action == "" { return errors.New("invalid action_type") }`
  unfoldable pub known : Option OverrideAction → Step Error db.State OverrideAction
  known none = fail (message "invalid action_type")
  known (some action) = pure action

  -- ApplyScheduleOverride
  unfoldable pub apply_schedule_override :
      ApplyScheduleOverrideRequest → Step Error db.State ScheduleOverride
  apply_schedule_override given = do
    action ← known (normalize_override_action given.action_type)
    let req = dated given
    reject_if (not (is_positive req.group_id)) (message "group_id required")
    reject_if (bad_pair req.pair_number) (message "pair_number must be 1..8")
    reject_if (bad_subgroup req.subgroup) (message "subgroup must be 1 or 2")
    out ← apply_action req action
    db.bump_version
    db.commit
    pure out
