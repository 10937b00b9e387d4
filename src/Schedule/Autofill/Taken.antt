-- ===== src/Schedule/Autofill/Taken.antt =====
-- What occupiedLocationSlots collects (Defs): the rooms that lessons sit in.
use ispo_shedule_backend.Prelude.{
  ℕ, Bool, not, ◌&&◌, ◌≡◌, List, [], ◌∷◌, ◌==◌, string_eq, nat_eq, int_eq, int_beq_iff, nat_beq_iff,
  leb, arith, refl, any, contains,
}
use ispo_shedule_backend.Prelude.{contains-append}
use ispo_shedule_backend.Schedule.Models.{is_cancelled, ScheduleLesson, RoomAssignment}
use ispo_shedule_backend.Schedule.Rooms.Defs.{sits_in}
use ispo_shedule_backend.Schedule.Autofill.Defs.{
  LocationAutofillSlot, autofill_slot_eq, lesson_slots, occupied_slots_of,
}

-- A lesson of the dates, not cancelled, that sits in the room of a slot at its day and pair.
abbrev pub is_taken_by : List RoomAssignment → ℕ → ℕ → LocationAutofillSlot → ScheduleLesson → Bool
is_taken_by assignments start_day end_day slot sl =
    ((leb start_day sl.lesson_date.day && leb sl.lesson_date.day end_day)
      && not (is_cancelled sl.status))
    && ((sl.lesson_date.day == slot.date && sl.pair_number == slot.pair_number)
        && sits_in slot.location_id assignments sl)

lesson_slots-contains :
    (slot : LocationAutofillSlot) (sl : ScheduleLesson) (assignments : List RoomAssignment)
    → contains slot (lesson_slots sl assignments) ≡ (
        (sl.lesson_date.day == slot.date && sl.pair_number == slot.pair_number)
        && sits_in slot.location_id assignments sl)
unfolding lesson_slots sits_in
lesson_slots-contains slot sl [] = ground arith
lesson_slots-contains slot sl (ra ∷ assignments) = ground (
  arith,
  nat_beq_iff slot.date sl.lesson_date.day,
  nat_beq_iff sl.lesson_date.day slot.date,
  int_beq_iff slot.pair_number sl.pair_number,
  int_beq_iff sl.pair_number slot.pair_number,
  int_beq_iff slot.location_id ra.location_id,
  int_beq_iff ra.location_id slot.location_id,
  lesson_slots-contains slot sl assignments,
)

-- A slot is occupied exactly if such a lesson is there.
pub occupied_slots_of-contains :
    (slot : LocationAutofillSlot) (lessons : List ScheduleLesson)
    (assignments : List RoomAssignment) (start_day end_day : ℕ)
    → contains slot (occupied_slots_of lessons assignments start_day end_day)
      ≡ any (is_taken_by assignments start_day end_day slot) lessons
unfolding occupied_slots_of
occupied_slots_of-contains slot [] assignments start_day end_day = refl
occupied_slots_of-contains slot (sl ∷ lessons) assignments start_day end_day = ground (
  arith,
  contains-append slot (lesson_slots sl assignments)
      (occupied_slots_of lessons assignments start_day end_day),
  lesson_slots-contains slot sl assignments,
  occupied_slots_of-contains slot lessons assignments start_day end_day,
)
