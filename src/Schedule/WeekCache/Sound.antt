-- ===== src/Schedule/WeekCache/Sound.antt =====
-- internal/schedule/service.go: GetRange over the cache answers as it would without one, but for nil
-- in place of empty slices where a clone is answered.
use ispo_shedule_backend.Prelude.{map, [], ◌∷◌}
use ispo_shedule_backend.Prelude.{
  ℕ, ◌+◌, ℤ, String, Bool, true, false, ◌≡◌, ◌≢◌, Option, none, some, List, ◌==◌, string_eq, nat_eq,
  pair_eq, int_eq, if◌then◌else◌, ltb, is_positive, arith, refl, sym, subst, ◌∙◌, ap, Option-cases,
  inl, inr, some_inj, Bool-cases,
}
use ispo_shedule_backend.Prelude.Results.{Result, ok, err}
use ispo_shedule_backend.Schedule.Models.{Time, DaySchedule, WeekScheduleResponse}
use ispo_shedule_backend.Schedule.Errors.{Error}
use ispo_shedule_backend.Schedule.Store.{Database, IsDatabase}
use ispo_shedule_backend.Schedule.SystemState.{get_system_state, get_system_state_again}
use ispo_shedule_backend.Schedule.WeekCache.Defs.{
  WeekCacheKey, WeekCache, key_eq, key_beq_iff, get, set,
}
use ispo_shedule_backend.Schedule.WeekCache.Laws.{IsValid, set-IsValid}
use ispo_shedule_backend.Schedule.WeekCache.Eviction.{get-set_ne}
use ispo_shedule_backend.Schedule.WeekCache.Clone.{
  clone_day_schedule, clone_week_schedule_response, cloned, cloned-again,
}
use ispo_shedule_backend.Schedule.WeekCache.Range.{
  monday_of_week, is_canonical_week, key_of, cache_set, keep_range, cached_range, fresh_range,
  versioned_range, get_range, plain_versioned, plain_range, hit_versioned, is_hit,
}

other_key :
    (c c' : WeekCache) (k j : WeekCacheKey) (v w : WeekScheduleResponse)
    → IsValid c
    → set c k v ≡ some c'
    → k ≢ j
    → get c' j ≡ some w
    → get c j ≡ some w
other_key c c' k j v w valid run n found = elim (get-set_ne c c' k j v valid run n) [
  | inl (kept, same) ↦ sym same ∙ found
  | inr (gone, nothing) ↦ cc
]

-- A response but for which slices are nil.
abbrev pub filled : DaySchedule → DaySchedule
filled d = record d { events_nil = false; lessons_nil = false }

abbrev pub without_nil : List DaySchedule → List DaySchedule
without_nil = map filled

abbrev pub listed : Result Error WeekScheduleResponse → Result Error WeekScheduleResponse
listed (err e) = err e
listed (ok w) = ok (record w { days = without_nil w.days })

without_nil-clone :
    (days : List DaySchedule) → without_nil (map clone_day_schedule days) ≡ without_nil days
unfolding clone_day_schedule
without_nil-clone [] = refl
without_nil-clone (d ∷ days) = ap (λ l. filled d ∷ l) (without_nil-clone days)

listed-cloned :
    (hit : Bool) (r : Result Error WeekScheduleResponse)
    → listed (if hit then cloned r else r) ≡ listed r
unfolding clone_week_schedule_response
listed-cloned false r = refl
listed-cloned true (err e) = refl
listed-cloned true (ok w) = ap (λ l. ok (record w { days = l })) (without_nil-clone w.days)

forgotten :
    (hit : Bool) (r : Result Error WeekScheduleResponse)
    → cloned (if hit then cloned r else r) ≡ cloned r
forgotten true r = cloned-again r
forgotten false r = refl

canonical_dates :
    (start_day end_day : ℕ)
    → is_canonical_week start_day end_day ≡ true
    → (monday_of_week start_day ≡ start_day) × (monday_of_week start_day + 5 ≡ end_day)
unfolding is_canonical_week
canonical_dates start_day end_day h = ground arith

module _ (db : Database) (format : Time → String)
    (build : db.State → ℤ → ℕ → ℕ → Result Error (List DaySchedule)) where
  -- the response that GetRange builds for a key
  abbrev fresh_of : db.State → WeekCacheKey → Result Error WeekScheduleResponse
  fresh_of t k =
      fresh_range db format build t k.data_version k.group_id k.week_start (k.week_start + 5)

  -- Every week that is kept under this version is a clone of the one that would be built.
  abbrev pub Coherent : db.State → String → WeekCache → Type 0
  Coherent t version c =
      (k : WeekCacheKey) (w : WeekScheduleResponse)
      → get c k ≡ some w
      → k.data_version ≡ version
      → cloned (fresh_of t k) ≡ ok w

  -- What the cache of a service keeps to between calls: of the weeks under the version that the
  -- system state has.
  pub record IsSound (s : db.State) (c : WeekCache) : Type 0 where
    pub valid : IsValid c
    pub coherent :
        (now version : Time) (t : db.State)
        → get_system_state db now s ≡ ok (version, t)
        → Coherent t (format version) c

  set-Coherent :
      (t : db.State) (version : String) (c : WeekCache) (k : WeekCacheKey)
      (v : WeekScheduleResponse)
      → IsValid c
      → Coherent t version c
      → cloned (fresh_of t k) ≡ ok v
      → IsValid (cache_set c k v) × Coherent t version (cache_set c k v)
  set-Coherent t version c k v valid coherent fine =
      let (c', run, valid', found, bound) = set-IsValid c k v valid in
      let e : cache_set c k v ≡ c' = rw (run, cache_set) refl in
      subst (λ d. IsValid d × Coherent t version d) (sym e)
        (
          valid',
          λ j w there current. elim (Bool-cases (k == j)) [
            | inl same ↦
                let p : k ≡ j = (key_beq_iff k j).0 same in
                let q : v ≡ w = some_inj (sym found ∙ ap (get c') p ∙ there) in
                subst (λ i. cloned (fresh_of t i) ≡ ok w) p (fine ∙ ap ok q)
            | inr differs ↦
                coherent j w
                  (other_key c c' k j v w valid run (λ p. cc ((key_beq_iff k j).1 p)) there) current
          ],
        )

  abbrev hit_of : Option WeekScheduleResponse → Bool
  hit_of none = false
  hit_of (some w) = true

  -- The reply is the fresh response, or a clone of it, and the cache stays coherent.
  abbrev Replies :
      db.State
      → String
      → Bool
      → Result Error WeekScheduleResponse
      → Result Error WeekScheduleResponse × WeekCache
      → Type 0
  Replies t version hit fresh reply =
      (reply.0 ≡ (if hit then cloned fresh else fresh))
      × IsValid reply.1
      × Coherent t version reply.1

  keep_range-Replies :
      (t : db.State) (version : String) (k : WeekCacheKey) (c : WeekCache)
      (fresh : Result Error WeekScheduleResponse)
      → IsValid c
      → Coherent t version c
      → fresh_of t k ≡ fresh
      → Replies t version false fresh (keep_range true k c fresh)
  unfolding keep_range
  keep_range-Replies t version k c (err e) valid coherent fits = (refl, valid, coherent)
  keep_range-Replies t version k c (ok resp) valid coherent fits =
      let (valid', coherent') =
        set-Coherent t version c k (clone_week_schedule_response resp) valid coherent
          (ap cloned fits) in
      (refl, valid', coherent')

  cached_range-Replies :
      (t : db.State) (canonical : Bool) (k : WeekCacheKey) (c : WeekCache)
      (fresh : Result Error WeekScheduleResponse)
      → IsValid c
      → Coherent t k.data_version c
      → (canonical ≡ true → fresh_of t k ≡ fresh)
      → Replies t k.data_version
          (hit_of (if canonical then get c k else none))
          fresh
          (cached_range canonical k c fresh (if canonical then get c k else none))
  unfolding cached_range keep_range
  cached_range-Replies t false k c (err e) valid coherent fits = (refl, valid, coherent)
  cached_range-Replies t false k c (ok resp) valid coherent fits = (refl, valid, coherent)
  cached_range-Replies t true k c fresh valid coherent fits = elim (Option-cases (get c k)) [
    | inl missing ↦
        rw missing (keep_range-Replies t k.data_version k c fresh valid coherent (fits refl))
    | inr (v, found) ↦
        let e : cloned fresh ≡ ok v = ap cloned (sym (fits refl)) ∙ coherent k v found refl in
        rw found (sym (sym (cloned-again fresh) ∙ ap cloned e), valid, coherent)
  ]

  module _ (law : IsDatabase db) where
    -- the reply to a request from the system state on
    abbrev AnswersIn :
        Bool
        → Result Error WeekScheduleResponse
        → Result Error WeekScheduleResponse × (db.State × WeekCache)
        → Type 0
    AnswersIn hit plain reply =
        (reply.0 ≡ (if hit then cloned plain else plain)) × IsSound reply.1.0 reply.1.1

    versioned_range-AnswersIn :
        (now : Time) (group_id : ℤ) (start_day end_day : ℕ) (s : db.State) (c : WeekCache)
        (r : Result Error (Time × db.State))
        → get_system_state db now s ≡ r
        → IsSound s c
        → AnswersIn
            (hit_versioned db format build group_id start_day end_day c r)
            (plain_versioned db format build group_id start_day end_day r)
            (versioned_range db format build group_id start_day end_day s c r)
    unfolding versioned_range plain_versioned
    versioned_range-AnswersIn now group_id start_day end_day s c (err e) p h = (refl, h)
    versioned_range-AnswersIn now group_id start_day end_day s c (ok (version, t)) p h =
        let k = key_of group_id start_day (format version) in
        let (reply, valid, coherent) =
          cached_range-Replies t (is_canonical_week start_day end_day) k c
            (fresh_range db format build t (format version) group_id start_day end_day) h.valid
            (h.coherent now version t p)
            (λ q. let (a, b) = canonical_dates start_day end_day q in rw (b, a) refl) in
        let c' : WeekCache =
          (versioned_range db format build group_id start_day end_day s c (ok (version, t))).1.1 in
        (
          reply,
          record {
            valid = valid;
            coherent = λ later next u again.
                let (a, b) = get_system_state_again db law now later version next s t u p again in
                subst (λ v. Coherent u (format v) c') (sym a)
                  (subst (λ w. Coherent w (format version) c') (sym b) coherent);
          },
        )

    guarded-AnswersIn :
        (hit : Bool) (e : Error) (s : db.State) (c : WeekCache)
        → IsSound s c
        → AnswersIn hit (err e) (err e, (s, c))
    guarded-AnswersIn true e s c h = (refl, h)
    guarded-AnswersIn false e s c h = (refl, h)

    answered_range :
        (now : Time) (group_id : ℤ) (start_date end_date : Time) (s : db.State) (c : WeekCache)
        → IsSound s c
        → AnswersIn
            (is_hit db format build now group_id start_date end_date (s, c))
            (plain_range db format build now group_id start_date end_date s)
            (get_range db format build now group_id start_date end_date (s, c))
    unfolding get_range plain_range
    answered_range now group_id start_date end_date s c h =
        elim (Bool-cases (is_positive group_id)) [
          | inr bad ↦ rw bad (guarded-AnswersIn _ _ s c h)
          | inl good ↦ elim (Bool-cases (ltb end_date.day start_date.day)) [
            | inl bad ↦ rw (good, bad) (guarded-AnswersIn _ _ s c h)
            | inr fine ↦
                rw (good, fine)
                  (versioned_range-AnswersIn now group_id start_date.day end_date.day s c _ refl h)
          ]
        ]

    -- A service whose cache is sound answers every request as it would without a cache, errors
    -- included; where the cache has the week, the answer is a clone. In either case the answers
    -- agree in all but which empty slices are nil. The cache stays sound.
    pub get_range-plain_range :
        (now : Time) (group_id : ℤ) (start_date end_date : Time) (s : db.State) (c : WeekCache)
        → IsSound s c
        → ((get_range db format build now group_id start_date end_date (s, c)).0 ≡ (
            if is_hit db format build now group_id start_date end_date (s, c)
            then cloned (plain_range db format build now group_id start_date end_date s)
            else plain_range db format build now group_id start_date end_date s))
          × (listed (get_range db format build now group_id start_date end_date (s, c)).0
              ≡ listed (plain_range db format build now group_id start_date end_date s))
          × IsSound
              (get_range db format build now group_id start_date end_date (s, c)).1.0
              (get_range db format build now group_id start_date end_date (s, c)).1.1
    get_range-plain_range now group_id start_date end_date s c h =
        let (reply, sound) = answered_range now group_id start_date end_date s c h in
        (
          reply,
          ap listed reply
              ∙ listed-cloned (is_hit db format build now group_id start_date end_date (s, c))
                  (plain_range db format build now group_id start_date end_date s),
          sound,
        )

    -- But for nil slices, the answer is that without a cache.
    pub get_range-cloned :
        (now : Time) (group_id : ℤ) (start_date end_date : Time) (s : db.State) (c : WeekCache)
        → IsSound s c
        → (cloned (get_range db format build now group_id start_date end_date (s, c)).0
            ≡ cloned (plain_range db format build now group_id start_date end_date s))
          × IsSound
              (get_range db format build now group_id start_date end_date (s, c)).1.0
              (get_range db format build now group_id start_date end_date (s, c)).1.1
    get_range-cloned now group_id start_date end_date s c h =
        let (reply, sound) = answered_range now group_id start_date end_date s c h in
        (
          ap cloned reply
              ∙ forgotten (is_hit db format build now group_id start_date end_date (s, c))
                  (plain_range db format build now group_id start_date end_date s),
          sound,
        )
