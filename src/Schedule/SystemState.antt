-- ===== src/Schedule/SystemState.antt =====
-- internal/schedule/repository.go: GetSystemState, over the database of Store. The clock is an
-- argument.
use ispo_shedule_backend.Prelude.{
  ◌≡◌, ◌⊎◌, Option, none, some, string_eq, nat_eq, pair_eq, int_eq, refl, sym, subst, ◌∙◌, ap, inl,
  inr, some_inj,
}
use ispo_shedule_backend.Prelude.Results.{Result, ok, err}
use ispo_shedule_backend.Prelude.Transaction.{Step, pure, ◌>>=◌, and_then-ok, pure-ok}
use ispo_shedule_backend.Schedule.Models.{Time}
use ispo_shedule_backend.Schedule.Errors.{Error, wrapped}
use ispo_shedule_backend.Schedule.Store.{Database, IsDatabase}
use ispo_shedule_backend.Schedule.Rooms.Defs.{query}
use ispo_shedule_backend.Schedule.Rooms.Free.{query-ok}

-- `if err2 := r.db.Create(&st).Error; err2 != nil { … }`
unfoldable pub init_answer :
    {S : Type 0} → Time → Result Error (Unit {0} × S) → Result Error (Time × S)
init_answer now (err e) = err (wrapped "init system_state" e)
init_answer now (ok (_, t)) = ok (now, t)

module _ (db : Database) where
  -- the row is created if it is missing
  unfoldable pub state_or_init : Time → Option Time → Step Error db.State Time
  unfolding init_answer
  state_or_init now (some version) s = pure version s
  state_or_init now none s = init_answer now (db.create_system_state now s)

  -- GetSystemState, which answers with the schedule version
  unfoldable pub get_system_state : Time → Step Error db.State Time
  unfolding state_or_init
  get_system_state now = query db (λ t. t.schedule_version) >>= state_or_init now

  init_answer-ok :
      (now version : Time) (s t : db.State) (r : Result Error (Unit {0} × db.State))
      → db.create_system_state now s ≡ r
      → init_answer now r ≡ ok (version, t)
      → (now ≡ version) × (db.create_system_state now s ≡ ok (tt, t))
  unfolding init_answer
  init_answer-ok now version s t (err e) p h = cc
  init_answer-ok now version s t (ok (_, u)) p h =
      let (a, b) = pure-ok now version u t h in
      (a, subst (λ k. db.create_system_state now s ≡ ok (tt, k)) b p)

  module _ (law : IsDatabase db) where
    -- the version is that of the table, or a row with it is created
    abbrev pub Answered : Time → db.State → db.State → Type 0
    Answered version s t =
        (((db.tables s).schedule_version ≡ some version) × (t ≡ s))
        ⊎ (((db.tables s).schedule_version ≡ none)
            × (db.tables t ≡ record (db.tables s) { schedule_version = some version }))

    state_or_init-Answered :
        (now version : Time) (row : Option Time) (s t : db.State)
        → row ≡ (db.tables s).schedule_version
        → state_or_init now row s ≡ ok (version, t)
        → Answered version s t
    unfolding state_or_init
    state_or_init-Answered now version (some v) s t e h =
        let (a, b) = pure-ok v version s t h in inl (sym e ∙ ap some a, sym b)
    state_or_init-Answered now version none s t e h =
        let (a, b) = init_answer-ok now version s t _ refl h in
        inr (
          sym e,
          subst (λ v. db.tables t ≡ record (db.tables s) { schedule_version = some v }) a
              (law.create_system_state_ok now s t b),
        )

    pub get_system_state-Answered :
        (now version : Time) (s t : db.State)
        → get_system_state now s ≡ ok (version, t)
        → Answered version s t
    unfolding get_system_state
    get_system_state-Answered now version s t h =
        let (row, u, read, h₁) = and_then-ok _ _ h in
        let (found, same) = query-ok db _ s u row read in
        state_or_init-Answered now version row s t found
          (subst (λ k. state_or_init now row k ≡ ok (version, t)) same h₁)

    -- the version is in the table then
    pub version_held :
        (version : Time) (s t : db.State)
        → Answered version s t
        → (db.tables t).schedule_version ≡ some version
    version_held version s t (inl (found, same)) =
        subst (λ k. (db.tables k).schedule_version ≡ some version) (sym same) found
    version_held version s t (inr (missing, made)) = ap (λ u. u.schedule_version) made

    -- a later call answers the same and changes nothing
    pub get_system_state_again :
        (now later version next : Time) (s t u : db.State)
        → get_system_state now s ≡ ok (version, t)
        → get_system_state later t ≡ ok (next, u)
        → (next ≡ version) × (u ≡ t)
    get_system_state_again now later version next s t u h k =
        let held = version_held version s t (get_system_state-Answered now version s t h) in
        elim (get_system_state-Answered later next t u k) [
          | inl (found, same) ↦ (some_inj (sym found ∙ held), same)
          | inr (missing, made) ↦ cc (sym missing ∙ held)
        ]
