-- ===== src/Lib.antt =====
-- The ISPO schedule backend keeps the timetable of a college: lessons by date, pair and subgroup,
-- their rooms, day constraints, and one-off overrides, behind an HTTP interface with roles, access
-- and refresh tokens, rate limits and an audit log.
--
-- Which file models which part, by the paths of the repository:
--   Schedule/Models, Errors: the rows and views of internal/schedule/models.go, types.go and
--     service.go, and the typed errors. An int of any width is an integer, with the wrap-around of
--     version++ written out (int_succ); a nullable column is an Option; a date is the number of days
--     since 0001-01-01, a Monday, and an instant a number of nanoseconds.
--   Schedule/Store: the database behind gorm. It is a parameter, a record of its operations, with the
--     documented effect of a successful write as the law IsDatabase; queries are functions of the
--     tables. A transaction is a chain of steps (Prelude/Transaction), and an error keeps no state,
--     since the transaction is rolled back. The row lock of the queries makes a call one step.
--   Schedule/Lessons: normalizeScheduleLesson (repository_lessons.go) and its normal form.
--   Schedule/Rooms: room assignments (repository_rooms.go) and ensureRoomAvailableTx
--     (service_overrides.go). Schedule/Dictionaries: the dictionaries of rooms.
--   Schedule/Constraints: checkTeacherConstraintsTx, checkGlobalDayConstraintTx
--     (service_overrides.go) and normalizeCalendarDayConstraint (repository_calendar_constraints.go).
--   Schedule/Overrides: ApplyScheduleOverride (service_overrides.go). Rows has the request and the
--     rows it fills in, Defs the functions, the other files what a success implies. It uses Lessons,
--     Rooms and Constraints as the code does.
--   Schedule/Edits: CreateScheduleLesson, UpdateScheduleLesson (service_overrides.go) and
--     CancelScheduleLesson (repository_lessons.go).
--   Schedule/SystemState: GetSystemState (repository.go), which creates a missing row.
--   Schedule/WeekCache: week_cache.go with its clones (Clone), and GetRange and GetCurrentWeek of
--     service.go on top of it (Range, Sound). What buildDays reads is a function of the database.
--   Schedule/Build: buildDays (service_build.go) with the states of the study calendar
--     (ListStudyDayStatesForGroupBetween of repository_curricula.go). A map keyed by YYYY-MM-DD texts
--     is keyed by the days; the order of a range over a map is an argument. Days joins it with the
--     week cache: it is the function that GetRange calls. Shown joins it with Inheritance. Schedule/Semester: the semester of a date.
--   Schedule/Views: GetScheduleView (service_filter.go) over GetRange; each call of GetRange may
--     change the cache, also when the view then fails. Schedule/Explain: ExplainSlot.
--   Schedule/Autofill: AutofillLocations (service_location_autofill.go), which writes through
--     upsertRoomAssignmentForLesson of Rooms. It is a chain of calls, each of which leaves a state
--     also when it fails (Call and atomic of Prelude/Transaction). Schedule/Locations: LocationMeta.
--   Schedule/Validation: ValidateScheduleRange (service_validate.go). Defs and Rules have the rules of
--     one group's days, Occupancy and Facility those over all groups, Service what loads the rows.
--   Schedule/Assignments: the assignments of teachers to courses (repository_teachers.go). DELETE and
--     INSERT … SELECT are parameters, with the rows that they leave as the law IsAssignmentDb.
--   Schedule/Inheritance: service_inheritance.go. The loop runs at most ten times in the code, and the
--     model counts the same ten, so no further fuel is needed.
--   Auth: internal/auth, internal/schedule/repository_refresh_tokens.go and
--     internal/httpapi/handlers_auth.go. SHA-256, bcrypt, the JWT library, the clock and the random
--     source are arguments.
--   Http: internal/httpapi, mw_auth.go, mw_permissions.go, mw_rate_limit.go, pagination.go and
--     audit_sanitize.go.
--   Schedule/Memory and the files named Tests: a database in memory and concrete runs.
--   Prelude: integers, lists, maps, results, and the functions of Go's strings that the code calls.
--
-- Texts are sequences of code points; letters outside ASCII and the Russian alphabet have no case.
-- Arithmetic on identifiers and dates stays far below 64 bits in the code and is unbounded here.
--
-- The queries that join several tables (of buildDays, the views, autofill and validation) are
-- arguments, which return the rows that the code scans. sort.SliceStable is an insertion sort, which
-- is stable as well (Prelude/Sorting).
--
-- Not modelled: planning, curricula and imports; start-up, configuration, migrations, plain
-- listing queries, exports and push notifications, which mostly call other libraries.
pub mod Prelude
pub mod Schedule
pub mod Auth
pub mod Http
