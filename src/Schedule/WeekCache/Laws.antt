-- ===== src/Schedule/WeekCache/Laws.antt =====
-- internal/schedule/week_cache.go: the invariant of the cache, and what a read sees after a write.
use ispo_shedule_backend.Prelude.{
  suc, ◌≤◌, ◌<◌, ℤ, true, none, some, List, [], ◌∷◌, ◌++◌, ◌≡◌, ◌≢◌, refl, sym, ap, subst, ◌∙◌,
  length, lookup, insert, delete, keys, IsMap, Avoids, lookup-insert, Avoids-lookup, delete_head,
  keys-insert_absent, keys-insert_present, length-insert_absent, length-insert_present,
  IsMap-insert, lookup_of_Avoids, arith, Option-cases, Bool-cases, leb→le, inl, inr, leb, beq_refl,
}
use ispo_shedule_backend.Schedule.Models.{WeekScheduleResponse}
use ispo_shedule_backend.Schedule.WeekCache.Defs.{
  WeekCacheKey, WeekCache, key_eq, new_week_cache, get, store, evict, set,
}

-- The order slice lists the keys of the map, oldest first and each once, within the bound.
pub record IsValid (c : WeekCache) : Type 0 where
  pub positive : 0 < c.max_entries
  pub bounded : length c.items ≤ c.max_entries
  pub ordered : keys c.items ≡ c.order
  pub distinct : IsMap c.items

-- A new cache is valid and empty, whatever bound it is asked for.
pub new_week_cache-IsValid : (n : ℤ) → IsValid (new_week_cache n)
unfolding new_week_cache
new_week_cache-IsValid n = record {
  positive = ground arith;
  bounded = omega arith;
  ordered = refl;
  distinct = tt;
}

store-IsValid :
    (c : WeekCache) (k : WeekCacheKey) (v : WeekScheduleResponse)
    → IsValid c
    → length c.items < c.max_entries
    → lookup k c.items ≡ none
    → IsValid (store c k v)
store-IsValid c k v h room absent = record {
  positive = h.positive;
  bounded = omega (arith, length-insert_absent k v c.items absent);
  ordered = keys-insert_absent k v c.items absent ∙ ap (λ o. o ++ k ∷ []) h.ordered;
  distinct = IsMap-insert k v c.items h.distinct;
}

replace-IsValid :
    (c : WeekCache) (k : WeekCacheKey) (v w : WeekScheduleResponse)
    → IsValid c
    → lookup k c.items ≡ some w
    → IsValid (record c { items = insert k v c.items })
replace-IsValid c k v w h present = record {
  positive = h.positive;
  bounded = omega (arith, length-insert_present k v w c.items present);
  ordered = keys-insert_present k v w c.items present ∙ h.ordered;
  distinct = IsMap-insert k v c.items h.distinct;
}

-- What the eviction leaves, named by the map without its oldest entry.
abbrev pub dropped : WeekCache → List (WeekCacheKey × WeekScheduleResponse) → WeekCache
dropped c m = record c { items = m; order = keys m }

evict-dropped :
    (c : WeekCache) (old : WeekCacheKey) (w : WeekScheduleResponse)
    (m : List (WeekCacheKey × WeekScheduleResponse))
    → IsValid c
    → c.items ≡ (old, w) ∷ m
    → evict c ≡ some (dropped c m)
unfolding evict
evict-dropped c old w m h p =
    let o : c.order ≡ old ∷ keys m = sym h.ordered ∙ ap keys p in
    let d : IsMap ((old, w) ∷ m) = subst IsMap p h.distinct in
    let q : delete old c.items ≡ m = ap (delete old) p ∙ delete_head old w m d in
    ground (arith, o, q)

dropped-IsValid :
    (c : WeekCache) (old : WeekCacheKey) (w : WeekScheduleResponse)
    (m : List (WeekCacheKey × WeekScheduleResponse))
    → IsValid c
    → c.items ≡ (old, w) ∷ m
    → IsValid (dropped c m) × (suc (length m) ≡ length c.items)
dropped-IsValid c old w m h p =
    let d : IsMap ((old, w) ∷ m) = subst IsMap p h.distinct in
    let l : length c.items ≡ suc (length m) = ap length p in
    (record { positive = h.positive; bounded = omega arith; ordered = refl; distinct = d.1 }, sym l)

-- The three ways through `set`: the key is present, there is room, or the oldest entry goes.
pub data SetCase (c : WeekCache) (k : WeekCacheKey) (v : WeekScheduleResponse) : Type 0 where
  present :
      (w : WeekScheduleResponse)
      → lookup k c.items ≡ some w
      → set c k v ≡ some (record c { items = insert k v c.items })
      → SetCase c k v
  room :
      lookup k c.items ≡ none
      → length c.items < c.max_entries
      → set c k v ≡ some (store c k v)
      → SetCase c k v
  full :
      (old : WeekCacheKey) (w : WeekScheduleResponse)
      (m : List (WeekCacheKey × WeekScheduleResponse))
      → lookup k c.items ≡ none
      → c.max_entries ≤ length c.items
      → c.items ≡ (old, w) ∷ m
      → set c k v ≡ some (store (dropped c m) k v)
      → SetCase c k v

full_case :
    (c : WeekCache) (k : WeekCacheKey) (v : WeekScheduleResponse)
    (items : List (WeekCacheKey × WeekScheduleResponse))
    → IsValid c
    → c.items ≡ items
    → lookup k c.items ≡ none
    → leb c.max_entries (length c.items) ≡ true
    → SetCase c k v
unfolding set
full_case c k v [] h p absent over =
    let l : length c.items ≡ 0 = ap length p in
    let b : c.max_entries ≤ length c.items = leb→le _ _ over in
    let q : 0 < c.max_entries = h.positive in absurd (omega arith)
full_case c k v ((old, w) ∷ m) h p absent over =
    full old w m absent (leb→le _ _ over) p
      (rw (absent, set) (rw over (rw (evict-dropped c old w m h p))))

pub set_cases :
    (c : WeekCache) (k : WeekCacheKey) (v : WeekScheduleResponse) → IsValid c → SetCase c k v
unfolding set
set_cases c k v h = elim (Option-cases (lookup k c.items)) [
  | inr (w, found) ↦ present w found (rw (found, set))
  | inl absent ↦ elim (Bool-cases (leb c.max_entries (length c.items))) [
    | inl over ↦ full_case c k v c.items h refl absent over
    | inr under ↦ room absent (ground arith) (rw (absent, set) (rw under))
  ]
]

pub after_full-IsValid :
    (c : WeekCache) (k old : WeekCacheKey) (v w : WeekScheduleResponse)
    (m : List (WeekCacheKey × WeekScheduleResponse))
    → IsValid c
    → lookup k c.items ≡ none
    → c.items ≡ (old, w) ∷ m
    → IsValid (store (dropped c m) k v) × (lookup k m ≡ none) × (old ≢ k)
after_full-IsValid c k old v w m h absent p =
    let (valid, shorter) = dropped-IsValid c old w m h p in
    let a : Avoids k ((old, w) ∷ m) =
      Avoids-lookup k ((old, w) ∷ m) (subst (λ l. lookup k l ≡ none) p absent) in
    let away = lookup_of_Avoids k m a.1 in
    let fits : length c.items ≤ c.max_entries = h.bounded in
    (store-IsValid (dropped c m) k v valid (omega arith) away, away, a.0)

-- On a valid cache a write never panics, keeps the invariant and the bound, and the written
-- response is read back.
pub set-IsValid :
    (c : WeekCache) (k : WeekCacheKey) (v : WeekScheduleResponse)
    → IsValid c
    → (c' : WeekCache) × (set c k v ≡ some c')
      × IsValid c'
      × (get c' k ≡ some v)
      × (c'.max_entries ≡ c.max_entries)
unfolding get
set-IsValid c k v h = elim (set_cases c k v h) [
  | present w found run ↦ (
    record c { items = insert k v c.items },
    run,
    replace-IsValid c k v w h found,
    simp (lookup-insert, beq_refl key_eq),
    refl,
  )
  | room absent under run ↦ (
    store c k v,
    run,
    store-IsValid c k v h under absent,
    simp (lookup-insert, beq_refl key_eq),
    refl,
  )
  | full old w m absent over p run ↦ (
    store (dropped c m) k v,
    run,
    (after_full-IsValid c k old v w m h absent p).0,
    simp (lookup-insert, beq_refl key_eq),
    refl,
  )
]
