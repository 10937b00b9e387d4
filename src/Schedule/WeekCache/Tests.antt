-- ===== src/Schedule/WeekCache/Tests.antt =====
-- internal/schedule/week_cache.go and service.go: the theorems about the cache at a bound of one.
use ispo_shedule_backend.Prelude.{
  ℕ, ◌+◌, ℤ, pos, String, Bool, true, false, ◌≡◌, ◌≢◌, ◌⊎◌, none, some, List, [], ◌∷◌, ◌==◌,
  string_eq, nat_eq, pair_eq, int_eq, lookup, insert, arith, refl, subst, ap, inl, inr, some_inj,
  Bool-cases,
}
use ispo_shedule_backend.Prelude.{delete}
use ispo_shedule_backend.Prelude.Results.{Result, ok}
use ispo_shedule_backend.Prelude.Transaction.{and_then}
use ispo_shedule_backend.Schedule.Models.{Time, both, DaySchedule, WeekScheduleResponse}
use ispo_shedule_backend.Schedule.Errors.{Error}
use ispo_shedule_backend.Schedule.Store.{Tables}
use ispo_shedule_backend.Schedule.Memory.{memory, memory-IsDatabase, today, tables_one}
use ispo_shedule_backend.Schedule.Rooms.Defs.{query}
use ispo_shedule_backend.Schedule.SystemState.{state_or_init, get_system_state}
use ispo_shedule_backend.Schedule.WeekCache.Defs.{
  WeekCacheKey, WeekCache, key_eq, key_beq_iff, new_week_cache, get, evict, set,
}
use ispo_shedule_backend.Schedule.WeekCache.Laws.{IsValid, new_week_cache-IsValid, set-IsValid}
use ispo_shedule_backend.Schedule.WeekCache.Eviction.{victim, enqueue, get-set_ne, order-set}
use ispo_shedule_backend.Schedule.WeekCache.Clone.{
  clone_day_schedule, clone_week_schedule_response, cloned,
}
use ispo_shedule_backend.Schedule.WeekCache.Range.{
  get_range, versioned_range, cached_range, plain_range, fresh_range, is_canonical_week,
  monday_of_week,
}
use ispo_shedule_backend.Schedule.WeekCache.Sound.{IsSound, listed, get_range-plain_range}

abbrev key_one : WeekCacheKey
key_one = record { group_id = pos 7; week_start = 738997; data_version = "v1" }

abbrev key_two : WeekCacheKey
key_two = record { group_id = pos 8; week_start = 738997; data_version = "v1" }

abbrev week : ℤ → WeekScheduleResponse
week group_id = record {
  group_id = group_id;
  date_start = 738997;
  date_end = 739002;
  data_version = "v1";
  days = [];
}

abbrev cache_one : WeekCache
cache_one = record { max_entries = 1; items = (key_one, week (pos 7)) ∷ []; order = key_one ∷ [] }

abbrev cache_two : WeekCache
cache_two = record { max_entries = 1; items = (key_two, week (pos 8)) ∷ []; order = key_two ∷ [] }

one_IsValid : IsValid cache_one
one_IsValid = record {
  positive = omega arith;
  bounded = omega arith;
  ordered = refl;
  distinct = (tt, tt);
}

evicts : set cache_one key_two (week (pos 8)) ≡ some cache_two
unfolding set evict lookup insert delete
evicts = refl

new_week_cache-IsValid_example : IsValid (new_week_cache (pos 0))
new_week_cache-IsValid_example = new_week_cache-IsValid (pos 0)

set-IsValid_example :
    (c : WeekCache) × (set cache_one key_two (week (pos 8)) ≡ some c)
    × IsValid c
    × (get c key_two ≡ some (week (pos 8)))
    × (c.max_entries ≡ 1)
set-IsValid_example = set-IsValid cache_one key_two (week (pos 8)) one_IsValid

get-set_ne_example :
    ((victim cache_one key_two ≢ some key_one) × (get cache_two key_one ≡ get cache_one key_one))
    ⊎ ((victim cache_one key_two ≡ some key_one) × (get cache_two key_one ≡ none))
get-set_ne_example =
    get-set_ne cache_one cache_two key_two key_one (week (pos 8)) one_IsValid evicts (λ e. cc)

order-set_example : cache_two.order ≡ enqueue 1 key_two cache_one.order
order-set_example = order-set cache_one cache_two key_two (week (pos 8)) one_IsValid evicts

abbrev version_text : Time → String
version_text v = "v1"

-- Three days without lessons or events.
abbrev empty_day : ℕ → Bool → DaySchedule
empty_day day nil = record {
  date = day;
  day_of_week = 0;
  week_parity = both;
  overlay_text = none;
  study_day_state = none;
  global_day_constraint = none;
  events = [];
  events_nil = nil;
  lessons = [];
  lessons_nil = nil;
}

abbrev one_day : Tables → ℤ → ℕ → ℕ → Result Error (List DaySchedule)
one_day s group_id start_day end_day = ok (empty_day start_day false ∷ [])

abbrev week_of : Bool → WeekScheduleResponse
week_of nil = record (week (pos 7)) { days = empty_day 738997 nil ∷ [] }

abbrev warm_cache : WeekCache
warm_cache = record { max_entries = 1; items = (key_one, week_of true) ∷ []; order = key_one ∷ [] }

warm_IsSound : IsSound memory version_text one_day tables_one warm_cache
unfolding get lookup fresh_range clone_week_schedule_response clone_day_schedule
warm_IsSound = record {
  valid = record {
    positive = omega arith;
    bounded = omega arith;
    ordered = refl;
    distinct = (tt, tt);
  };
  coherent = λ now version t h k w found same. elim (Bool-cases (key_one == k)) [
    | inr other ↦ let n : none ≡ some w = rw other at found in cc
    | inl mine ↦
        let e : week_of true ≡ w = some_inj (rw mine at found) in
        subst
          (λ j.
            cloned (
              fresh_range memory version_text one_day t j.data_version j.group_id j.week_start
                (j.week_start + 5))
            ≡ ok w)
          ((key_beq_iff key_one k).0 mine) (ap ok e)
  ];
}

abbrev monday : Time
monday = record { day = 738997; nanos = 0 }

abbrev saturday : Time
saturday = record { day = 739002; nanos = 0 }

get_range-plain_range_example :
    ((get_range memory version_text one_day today
        (pos 7)
        monday
        saturday
        (tables_one, warm_cache)).0
      ≡ cloned (plain_range memory version_text one_day today (pos 7) monday saturday tables_one))
    × (listed
          (get_range memory version_text one_day today
            (pos 7)
            monday
            saturday
            (tables_one, warm_cache)).0
        ≡ listed (plain_range memory version_text one_day today (pos 7) monday saturday tables_one))
    × IsSound memory version_text one_day tables_one warm_cache
unfolding get_range versioned_range cached_range plain_range is_canonical_week monday_of_week get
    lookup get_system_state state_or_init query and_then
get_range-plain_range_example =
    get_range-plain_range memory version_text one_day memory-IsDatabase today (pos 7) monday
      saturday tables_one warm_cache warm_IsSound
