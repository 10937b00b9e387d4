-- ===== src/Schedule/WeekCache/Defs.antt =====
-- internal/schedule/week_cache.go: weekCacheKey, weekCache, newWeekCache, get and set. The mutex
-- makes each call one step.
use ispo_shedule_backend.Prelude.{
  ℕ, ℤ, String, Bool, true, Option, none, some, List, [], ◌∷◌, ◌++◌, ◌≡◌, ◌↔◌, ◌&&◌, HasEq, ◌==◌,
  int_eq, nat_eq, string_eq, if◌then◌else◌, leb, length, lookup, insert, delete, arith, is_positive,
  pos_part, int_beq_iff, nat_beq_iff, eq_iff,
}
use ispo_shedule_backend.Schedule.Models.{WeekScheduleResponse}

pub record WeekCacheKey : Type 0 where
  pub group_id : ℤ
  pub week_start : ℕ
  pub data_version : String

abbrev pub key_beq : WeekCacheKey → WeekCacheKey → Bool
key_beq a b =
    a.group_id == b.group_id && (a.week_start == b.week_start && a.data_version == b.data_version)

pub key_beq_iff : (a b : WeekCacheKey) → (key_beq a b ≡ true) ↔ (a ≡ b)
key_beq_iff a b = ground (
  arith,
  int_beq_iff a.group_id b.group_id,
  nat_beq_iff a.week_start b.week_start,
  eq_iff a.data_version b.data_version,
)

instance abbrev pub key_eq : HasEq WeekCacheKey
key_eq = record { equal = key_beq; equal_iff = key_beq_iff }

pub record WeekCache : Type 0 where
  pub max_entries : ℕ
  pub items : List (WeekCacheKey × WeekScheduleResponse)
  pub order : List WeekCacheKey

-- newWeekCache
unfoldable pub new_week_cache : ℤ → WeekCache
new_week_cache max_entries = record {
  max_entries = if is_positive max_entries then pos_part max_entries else 1;
  items = [];
  order = [];
}

unfoldable pub get : WeekCache → WeekCacheKey → Option WeekScheduleResponse
get c k = lookup k c.items

-- the last two lines of `set`
abbrev pub store : WeekCache → WeekCacheKey → WeekScheduleResponse → WeekCache
store c k v = record c { items = insert k v c.items; order = c.order ++ k ∷ [] }

-- the eviction of `set`; `none` is the panic of `c.order[0]` on an empty slice
unfoldable pub evict : WeekCache → Option WeekCache
evict c = elim c.order [
  | [] ↦ none
  | old ∷ rest ↦ some (record c { items = delete old c.items; order = rest })
]

unfoldable pub set : WeekCache → WeekCacheKey → WeekScheduleResponse → Option WeekCache
unfolding evict
set c k v = elim (lookup k c.items) [
  | some _ ↦ some (record c { items = insert k v c.items })
  | none ↦
      if leb c.max_entries (length c.items)
      then elim (evict c) [ none ↦ none | some c' ↦ some (store c' k v) ]
      else some (store c k v)
]
