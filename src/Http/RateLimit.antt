-- ===== src/Http/RateLimit.antt =====
-- internal/httpapi/mw_rate_limit.go: the store of the clients' limiters, and the middleware. An
-- instant is a natural number of nanoseconds. The limiter of golang.org/x/time/rate is a parameter;
-- its own state is behind the pointer that the store holds.
use ispo_shedule_backend.Prelude.{
  ℕ, ◌+◌, ◌≤◌, ◌<◌, String, Bool, true, ◌≡◌, ◌≢◌, refl, sym, ap, ◌∙◌, Option, none, some, List, [],
  ◌∷◌, string_eq, if◌then◌else◌, ltb, lookup, insert, lookup-insert, eq_iff, arith, Bool-cases, inl,
  inr,
}

pub record Client (L : Type 0) : Type 0 where
  pub limiter : L
  pub last_seen : ℕ

pub record Store (L : Type 0) : Type 0 where
  pub clients : List (String × Client L)
  pub client_ttl : ℕ
  pub next_cleanup : ℕ

module _ {L : Type 0} where
  -- newRateLimitStore
  unfoldable pub new_store : ℕ → ℕ → Store L
  new_store client_ttl now = record {
    clients = [];
    client_ttl = client_ttl;
    next_cleanup = now + client_ttl;
  }

  -- `now.Sub(c.lastSeen) > s.clientTTL`
  abbrev pub is_stale : ℕ → ℕ → Client L → Bool
  is_stale now ttl c = ltb (c.last_seen + ttl) now

  -- the loop that deletes from the map
  unfoldable pub sweep : ℕ → ℕ → List (String × Client L) → List (String × Client L)
  sweep now ttl [] = []
  sweep now ttl ((k, c) ∷ m) =
      let rest = sweep now ttl m in if is_stale now ttl c then rest else (k, c) ∷ rest

  -- `if now.After(s.nextCleanup) { … }`
  unfoldable pub cleanup : ℕ → Store L → Store L
  cleanup now s =
      if ltb s.next_cleanup now
      then record s {
        clients = sweep now s.client_ttl s.clients;
        next_cleanup = now + s.client_ttl;
      }
      else s

  abbrev pub limiter_or : L → Option (Client L) → L
  limiter_or fresh none = fresh
  limiter_or fresh (some c) = c.limiter

  -- get, where `fresh` is the limiter that rate.NewLimiter makes for this rule
  unfoldable pub get_limiter : String → L → ℕ → Store L → L × Store L
  get_limiter key fresh now s =
      let swept = cleanup now s in
      let limiter = limiter_or fresh (lookup key swept.clients) in
      (
        limiter,
        record swept {
          clients = insert key (record { limiter = limiter; last_seen = now }) swept.clients;
        },
      )

  kept :
      (key : String) (c : Client L) (now ttl : ℕ) (m : List (String × Client L))
      → lookup key m ≡ some c
      → now ≤ c.last_seen + ttl
      → lookup key (sweep now ttl m) ≡ some c
  unfolding lookup sweep
  kept key c now ttl [] h live = cc
  kept key c now ttl ((k, d) ∷ m) h live = ground (arith, eq_iff k key, kept key c now ttl m)

  kept_by_cleanup :
      (key : String) (c : Client L) (now : ℕ) (s : Store L)
      → lookup key s.clients ≡ some c
      → now ≤ c.last_seen + s.client_ttl
      → lookup key (cleanup now s).clients ≡ some c
  unfolding cleanup
  kept_by_cleanup key c now s h live = elim (Bool-cases (ltb s.next_cleanup now)) [
    | inl due ↦ rw due (kept key c now s.client_ttl s.clients h live)
    | inr early ↦ rw early h
  ]

  written :
      (key : String) (c : Client L) (m : List (String × Client L))
      → lookup key (insert key c m) ≡ some c
  written key c m = ground (arith, lookup-insert key key c m, eq_iff key key)

  -- A client that was seen within the lifetime keeps its limiter, and so its used-up tokens, whether
  -- or not the call cleans up; its time is renewed.
  pub get_limiter_kept :
      (key : String) (fresh : L) (now : ℕ) (s : Store L) (c : Client L)
      → lookup key s.clients ≡ some c
      → now ≤ c.last_seen + s.client_ttl
      → ((get_limiter key fresh now s).0 ≡ c.limiter)
        × (lookup key (get_limiter key fresh now s).1.clients
            ≡ some (record { limiter = c.limiter; last_seen = now }))
  unfolding get_limiter
  get_limiter_kept key fresh now s c h live =
      let found : limiter_or fresh (lookup key (cleanup now s).clients) ≡ c.limiter =
        ap (limiter_or fresh) (kept_by_cleanup key c now s h live) in
      (
        found,
        written key _ (cleanup now s).clients
            ∙ ap (λ l. some (record { limiter = l; last_seen = now })) found,
      )

  elsewhere :
      (key other : String) (c : Client L) (m : List (String × Client L))
      → key ≢ other
      → lookup other (insert key c m) ≡ lookup other m
  elsewhere key other c m n = ground (arith, lookup-insert key other c m, eq_iff key other)

  swept_live :
      (now ttl : ℕ) (m : List (String × Client L)) (k : String) (c : Client L)
      → lookup k (sweep now ttl m) ≡ some c
      → now ≤ c.last_seen + ttl
  unfolding lookup sweep
  swept_live now ttl [] k c h = cc
  swept_live now ttl ((j, d) ∷ m) k c h = ground (arith, swept_live now ttl m k c)

  -- A call that cleans up leaves no other client that was last seen longer ago than the lifetime.
  pub get_limiter_live :
      (key other : String) (fresh : L) (now : ℕ) (s : Store L) (c : Client L)
      → s.next_cleanup < now
      → key ≢ other
      → lookup other (get_limiter key fresh now s).1.clients ≡ some c
      → now ≤ c.last_seen + s.client_ttl
  unfolding get_limiter cleanup
  get_limiter_live key other fresh now s c due n h =
      let d : ltb s.next_cleanup now ≡ true = ground arith in
      let fresh_entry : Client L = record {
        limiter = limiter_or fresh (lookup key (cleanup now s).clients);
        last_seen = now;
      } in
      let swept : (cleanup now s).clients ≡ sweep now s.client_ttl s.clients = rw d refl in
      let away : lookup other (insert key fresh_entry (cleanup now s).clients)
          ≡ lookup other (cleanup now s).clients =
        elsewhere key other fresh_entry (cleanup now s).clients n in
      swept_live now s.client_ttl s.clients other c (sym (ap (lookup other) swept) ∙ sym away ∙ h)
