-- ===== src/Schedule/WeekCache/Eviction.antt =====
-- internal/schedule/week_cache.go: which entries a write keeps, and the order of eviction.
use ispo_shedule_backend.Prelude.{
  ℕ, ◌≤◌, ◌<◌, Option, none, some, List, [], ◌∷◌, ◌++◌, ◌≡◌, ◌≢◌, refl, sym, ap, subst, ◌∙◌, ◌==◌,
  if◌then◌else◌, length, lookup, insert, keys, IsMap, Avoids, lookup-insert, lookup-cons_ne,
  lookup_of_Avoids, arith, Bool-cases, inl, inr, ◌⊎◌, some_inj, has_key, leb, head, tail, contains,
}
use ispo_shedule_backend.Schedule.Models.{WeekScheduleResponse}
use ispo_shedule_backend.Schedule.WeekCache.Defs.{
  WeekCacheKey, WeekCache, key_eq, key_beq_iff, get, set,
}
use ispo_shedule_backend.Schedule.WeekCache.Laws.{IsValid, present, room, full, set_cases}

-- The key that a write of `k` evicts, if any.
unfoldable pub victim : WeekCache → WeekCacheKey → Option WeekCacheKey
victim c k = elim (lookup k c.items) [
  | some _ ↦ none
  | none ↦ if leb c.max_entries (length c.items) then head c.order else none
]

-- A first-in first-out queue of distinct keys, at most `n` of them: the order that the cache keeps.
unfoldable pub enqueue : ℕ → WeekCacheKey → List WeekCacheKey → List WeekCacheKey
enqueue n k order =
    if contains k order
    then order
    else (if leb n (length order) then tail order ++ k ∷ [] else order ++ k ∷ [])

abbrev Entries : Type 0
Entries = List (WeekCacheKey × WeekScheduleResponse)

lookup-insert_other :
    (k j : WeekCacheKey) (v : WeekScheduleResponse) (m : Entries)
    → k ≢ j
    → lookup j (insert k v m) ≡ lookup j m
lookup-insert_other k j v m n = ground (arith, lookup-insert k j v m, key_beq_iff k j)

victim_full :
    (c : WeekCache) (k old : WeekCacheKey) (w : WeekScheduleResponse) (m : Entries)
    → IsValid c
    → lookup k c.items ≡ none
    → c.max_entries ≤ length c.items
    → c.items ≡ (old, w) ∷ m
    → victim c k ≡ some old
unfolding victim
victim_full c k old w m h absent over p =
    let o : c.order ≡ old ∷ keys m = sym h.ordered ∙ ap keys p in ground (arith, o)

get_of_items : (c : WeekCache) (m : Entries) (j : WeekCacheKey) → c.items ≡ m → get c j ≡ lookup j m
unfolding get
get_of_items c m j p = ap (lookup j) p

same_result :
    (c c' d : WeekCache) (k : WeekCacheKey) (v : WeekScheduleResponse)
    → set c k v ≡ some c'
    → set c k v ≡ some d
    → c' ≡ d
same_result c c' d k v p q = some_inj (sym p ∙ q)

kept_present :
    (c : WeekCache) (k : WeekCacheKey) (w : WeekScheduleResponse)
    → lookup k c.items ≡ some w
    → victim c k ≡ none
unfolding victim
kept_present c k w found = rw (found, victim)

kept_room :
    (c : WeekCache) (k : WeekCacheKey)
    → lookup k c.items ≡ none
    → length c.items < c.max_entries
    → victim c k ≡ none
unfolding victim
kept_room c k absent under = ground arith

-- A write leaves the entry of every other key as it was, except the one that it evicts, which is
-- the oldest and is gone afterwards.
pub get-set_ne :
    (c c' : WeekCache) (k j : WeekCacheKey) (v : WeekScheduleResponse)
    → IsValid c
    → set c k v ≡ some c'
    → k ≢ j
    → ((victim c k ≢ some j) × (get c' j ≡ get c j)) ⊎ ((victim c k ≡ some j) × (get c' j ≡ none))
unfolding get
get-set_ne c c' k j v h run n = elim (set_cases c k v h) [
  | present w found step ↦ inl (
    λ e. cc (kept_present c k w found),
    ap (λ d. get d j) (same_result c c' _ k v run step) ∙ lookup-insert_other k j v c.items n,
  )
  | room absent under step ↦ inl (
    λ e. cc (kept_room c k absent under),
    ap (λ d. get d j) (same_result c c' _ k v run step) ∙ lookup-insert_other k j v c.items n,
  )
  | full old w m absent over p step ↦
      let after : get c' j ≡ lookup j m =
        ap (λ d. get d j) (same_result c c' _ k v run step) ∙ lookup-insert_other k j v m n in
      let gone = victim_full c k old w m h absent over p in
      let d : IsMap ((old, w) ∷ m) = subst IsMap p h.distinct in
      elim (Bool-cases (old == j)) [
        | inl same ↦
            let e : old ≡ j = (key_beq_iff old j).0 same in
            inr (gone ∙ ap some e, after ∙ lookup_of_Avoids j m (subst (λ q. Avoids q m) e d.0))
        | inr other ↦
            let f : old ≢ j = λ e. cc ((key_beq_iff old j).1 e) in
            inl (
              λ e. f (some_inj (sym gone ∙ e)),
              after ∙ sym (lookup-cons_ne old j w m f) ∙ sym (get_of_items c ((old, w) ∷ m) j p),
            )
      ]
]

contains_iff_lookup : (k : WeekCacheKey) (m : Entries) → contains k (keys m) ≡ has_key k m
unfolding lookup
contains_iff_lookup k [] = refl
contains_iff_lookup k ((j, v) ∷ m) =
    ground (arith, key_beq_iff k j, key_beq_iff j k, contains_iff_lookup k m)

length-keys : (m : Entries) → length (keys m) ≡ length m
length-keys [] = refl
length-keys ((k, v) ∷ m) = omega (arith, length-keys m)

-- The keys of the cache, oldest first, are a queue of bounded length: a write of a present key
-- leaves it, a write of a new key enqueues the key and dequeues the oldest when the cache is full.
pub order-set :
    (c c' : WeekCache) (k : WeekCacheKey) (v : WeekScheduleResponse)
    → IsValid c
    → set c k v ≡ some c'
    → c'.order ≡ enqueue c.max_entries k c.order
unfolding enqueue
order-set c c' k v h run =
    let l : length c.order ≡ length c.items = ap length (sym h.ordered) ∙ length-keys c.items in
    let q : contains k c.order ≡ has_key k c.items =
      ap (contains k) (sym h.ordered) ∙ contains_iff_lookup k c.items in
    elim (set_cases c k v h) [
      | present w found step ↦ ground (arith, q, found, same_result c c' _ k v run step)
      | room absent under step ↦ ground (arith, q, l, absent, same_result c c' _ k v run step)
      | full old w m absent over p step ↦
          let o : c.order ≡ old ∷ keys m = sym h.ordered ∙ ap keys p in
          ground (arith, q, l, o, absent, same_result c c' _ k v run step)
    ]
