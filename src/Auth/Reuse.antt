-- ===== src/Auth/Reuse.antt =====
-- internal/httpapi/handlers_auth.go: a refresh token is used once, and a revoked one that comes back
-- ends every session of its user.
use ispo_shedule_backend.Prelude.{
  ℕ, ℤ, String, Bool, true, false, ◌≡◌, ◌≢◌, refl, ap, ◌∙◌, Option, none, some, List, [], ◌∷◌, ◌++◌,
  ◌==◌, string_eq, int_eq, int_beq_iff, eq_iff, find, any, arith, is_positive,
}
use ispo_shedule_backend.Prelude.Results.{ok}
use ispo_shedule_backend.Auth.Tokens.{
  RefreshToken, TokenDb, IsTokenDb, hash_refresh_token, get_refresh_token_by_hash, update_rows,
  is_active_id, is_active_of, revoked, revoke_refresh_token, revoke_all_refresh_tokens_for_user,
}
use ispo_shedule_backend.Auth.Handlers.{
  answered, refused, Tools, RefreshResponse, ignore_error, present_found, present_token,
  handle_refresh,
}
use ispo_shedule_backend.Auth.Rotation.{handle_refresh-Rotated}

-- The user has a token in force.
unfoldable pub has_session : ℤ → List RefreshToken → Bool
has_session user_id rows = any (is_active_of user_id) rows

no_session :
    (user_id : ℤ) (later : ℕ) (rows : List RefreshToken)
    → has_session user_id (update_rows (is_active_of user_id) (revoked none later) rows) ≡ false
unfolding has_session
no_session user_id later [] = refl
no_session user_id later (r ∷ rows) = ground (arith, no_session user_id later rows)

-- the first row of a digest
unfoldable by_hash : String → List RefreshToken → Option RefreshToken
by_hash h rows = find (λ r. r.token_hash == h) rows

by_hash-append :
    (h : String) (rows more : List RefreshToken) (row : RefreshToken)
    → by_hash h rows ≡ some row
    → by_hash h (rows ++ more) ≡ some row
unfolding by_hash
by_hash-append h [] more row e = cc
by_hash-append h (r ∷ rows) more row e = ground (arith, by_hash-append h rows more row)

by_hash-revoke :
    (h : String) (id : ℤ) (later : ℕ) (rows : List RefreshToken) (row : RefreshToken)
    → by_hash h rows ≡ some row
    → row.revoked_at ≡ none
    → by_hash h (update_rows (is_active_id row.id) (revoked (some id) later) rows)
      ≡ some (revoked (some id) later row)
unfolding by_hash
by_hash-revoke h id later [] row e live = cc
by_hash-revoke h id later (r ∷ rows) row e live =
    ground (arith, int_beq_iff row.id row.id, by_hash-revoke h id later rows row)

lookup-by_hash :
    (db : TokenDb) (h : String) (s : db.State) (row : RefreshToken)
    → get_refresh_token_by_hash db h s ≡ ok row
    → (h ≢ "") × (db.read_error s ≡ none) × (by_hash h (db.tokens s) ≡ some row)
unfolding get_refresh_token_by_hash by_hash
lookup-by_hash db h s row e = ground (arith, eq_iff h "")

by_hash-lookup :
    (db : TokenDb) (h : String) (s : db.State) (row : RefreshToken)
    → h ≢ ""
    → db.read_error s ≡ none
    → by_hash h (db.tokens s) ≡ some row
    → get_refresh_token_by_hash db h s ≡ ok row
unfolding get_refresh_token_by_hash by_hash
by_hash-lookup db h s row n e f = ground (arith, eq_iff h "")

-- A connection on which no UPDATE of the token table fails.
abbrev pub Writes : TokenDb → Type 0
Writes db =
    (p : RefreshToken → Bool) (f : RefreshToken → RefreshToken) (s : db.State)
    → (t : db.State) × (db.update_tokens p f s ≡ ok t)

module _ (db : TokenDb) (tools : Tools) (law : IsTokenDb db) (writes : Writes db) where
  revoke_all-no_session :
      (user_id : ℤ) (later : ℕ) (s : db.State)
      → is_positive user_id ≡ true
      → has_session user_id
          (db.tokens (ignore_error (revoke_all_refresh_tokens_for_user db user_id later s) s))
        ≡ false
  unfolding revoke_all_refresh_tokens_for_user
  revoke_all-no_session user_id later s good =
      let (t, run) = writes (is_active_of user_id) (revoked none later) s in
      let rows = (law.update_tokens_ok _ _ s t run).0 in
      rw (good, revoke_all_refresh_tokens_for_user)
        (rw run (rw rows (no_session user_id later (db.tokens s))))

  refresh_revoked :
      (token : String) (random : Option String) (now later : ℕ) (s : db.State) (row : RefreshToken)
      (at : ℕ)
      → token ≢ ""
      → get_refresh_token_by_hash db (tools.digest token) s ≡ ok row
      → row.revoked_at ≡ some at
      → handle_refresh db tools token random now later s ≡ (
        refused 401 "unauthorized" "refresh_token" "invalid refresh_token",
        ignore_error (revoke_all_refresh_tokens_for_user db row.user_id later s) s,
      )
  unfolding handle_refresh hash_refresh_token present_found present_token
  refresh_revoked token random now later s row at n found gone = ground (arith, eq_iff token "")

  -- If no UPDATE of the token table fails, presenting a revoked token is refused with 401, and
  -- afterwards no token of its user, whose identifier is positive, is in force.
  pub handle_refresh_revoked :
      (token : String) (random : Option String) (now later : ℕ) (s : db.State) (row : RefreshToken)
      (at : ℕ)
      → token ≢ ""
      → is_positive row.user_id ≡ true
      → get_refresh_token_by_hash db (tools.digest token) s ≡ ok row
      → row.revoked_at ≡ some at
      → (t : db.State) × (handle_refresh db tools token random now later s
          ≡ (refused 401 "unauthorized" "refresh_token" "invalid refresh_token", t))
        × (has_session row.user_id (db.tokens t) ≡ false)
  handle_refresh_revoked token random now later s row at n good found gone = (
    _,
    refresh_revoked token random now later s row at n found gone,
    revoke_all-no_session row.user_id later s good,
  )

  revoke_one :
      (id new : ℤ) (later : ℕ) (s : db.State)
      → (db.tokens (ignore_error (revoke_refresh_token db id (some new) later s) s)
          ≡ update_rows (is_active_id id) (revoked (some new) later) (db.tokens s))
        × (db.read_error (ignore_error (revoke_refresh_token db id (some new) later s) s)
            ≡ db.read_error s)
  unfolding revoke_refresh_token
  revoke_one id new later s =
      let (t, run) = writes (is_active_id id) (revoked (some new) later) s in
      let (rows, reads) = law.update_tokens_ok _ _ s t run in (rw run rows, rw run reads)

  -- If no UPDATE of the token table fails, a refresh token is good for one refresh: after a success
  -- the same token is refused with 401, and presenting it again leaves no token of its user in
  -- force, the new one included, if the user's identifier is positive.
  pub handle_refresh_once :
      (token : String) (random random' : Option String) (now later now' later' : ℕ) (s t : db.State)
      (reply : RefreshResponse)
      → token ≢ ""
      → handle_refresh db tools token random now later s ≡ (answered reply, t)
      → (row : RefreshToken) × (u : db.State) × (get_refresh_token_by_hash db (tools.digest token) s
          ≡ ok row)
        × (handle_refresh db tools token random' now' later' t
            ≡ (refused 401 "unauthorized" "refresh_token" "invalid refresh_token", u))
        × (is_positive row.user_id ≡ true → has_session row.user_id (db.tokens u) ≡ false)
  handle_refresh_once token random random' now later now' later' s t reply n e =
      let r = handle_refresh-Rotated db tools law token random now later s t reply e in
      let h = tools.digest token in
      let (n₁, reads, first) = lookup-by_hash db h s r.row r.found in
      let gone : RefreshToken = revoked (some r.issued.row.id) later r.row in
      let (rows, reads₁) = revoke_one r.row.id r.issued.row.id later r.issued.state in
      let grown : by_hash h (db.tokens r.issued.state) ≡ some r.row =
        ap (by_hash h) r.made.rows ∙ by_hash-append h (db.tokens s) _ r.row first in
      let found : by_hash h (db.tokens t) ≡ some gone =
        ap (λ v. by_hash h (db.tokens v)) r.after
        ∙ ap (by_hash h) rows
        ∙ by_hash-revoke h r.issued.row.id later (db.tokens r.issued.state) r.row grown
            r.unrevoked in
      let clear : db.read_error t ≡ none =
        ap (λ v. db.read_error v) r.after ∙ reads₁ ∙ r.made.reads ∙ reads in
      let again = by_hash-lookup db h t gone n₁ clear found in
      (
        r.row,
        _,
        r.found,
        refresh_revoked token random' now' later' t gone later n again refl,
        λ good. revoke_all-no_session r.row.user_id later' t good,
      )
