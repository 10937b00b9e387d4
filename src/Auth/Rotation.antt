-- ===== src/Auth/Rotation.antt =====
-- internal/httpapi/handlers_auth.go: what a successful refresh has checked and written.
use ispo_shedule_backend.Prelude.{
  ℕ, ◌+◌, ◌≤◌, ℤ, String, ◌≡◌, refl, ap, Option, none, some, [], ◌∷◌, ◌++◌, string_eq, int_eq,
  arith,
}
use ispo_shedule_backend.Prelude.Results.{Result, ok, err}
use ispo_shedule_backend.Auth.Tokens.{
  User, RefreshToken, TokenDb, IsTokenDb, DbError, not_found, invalid, failed, hash_refresh_token,
  create_refresh_token, new_token, get_refresh_token_by_hash, revoke_refresh_token,
}
use ispo_shedule_backend.Auth.Handlers.{
  Reply, answered, refused, Tools, Issued, issue, RefreshResponse, ignore_error, rotate_token,
  present_token, present_found, answer_rotated, handle_refresh,
}

module _ (db : TokenDb) (tools : Tools) (law : IsTokenDb db) where
  -- What an issued pair promises: one new row for the user, under the digest of the raw token, in
  -- force until the configured lifetime is over.
  pub record IsIssued (u : User) (now : ℕ) (s : db.State) (i : Issued db tools) : Type 0 where
    pub user : i.row.user_id ≡ u.id
    pub hash : i.row.token_hash ≡ tools.digest i.raw
    pub expiry : i.row.expires_at ≡ now + tools.refresh_ttl
    pub live : i.row.revoked_at ≡ none
    pub rows : db.tokens i.state ≡ db.tokens s ++ i.row ∷ []
    pub reads : db.read_error i.state ≡ db.read_error s

  inserted :
      (user_id : ℤ) (h : String) (expires_at : ℕ) (row : RefreshToken) (s t : db.State)
      → create_refresh_token db user_id h expires_at s ≡ ok (row, t)
      → db.insert_token (new_token user_id h expires_at) s ≡ ok (row, t)
  unfolding create_refresh_token
  inserted user_id h expires_at row s t e = ground arith

  issue_call :
      (u : User) (random : Option String) (now : ℕ) (s : db.State) (i : Issued db tools)
      → issue db tools u random now s ≡ answered i
      → create_refresh_token db u.id (tools.digest i.raw) (now + tools.refresh_ttl) s
        ≡ ok (i.row, i.state)
  unfolding issue hash_refresh_token
  issue_call u random now s i e = ground arith

  pub issue-IsIssued :
      (u : User) (random : Option String) (now : ℕ) (s : db.State) (i : Issued db tools)
      → issue db tools u random now s ≡ answered i
      → IsIssued u now s i
  issue-IsIssued u random now s i e =
      let (row, rows, reads) =
        law.insert_token_ok _ i.row s i.state
          (inserted u.id _ _ i.row s i.state (issue_call u random now s i e)) in
      record {
        user = ap (λ r. r.user_id) row;
        hash = ap (λ r. r.token_hash) row;
        expiry = ap (λ r. r.expires_at) row;
        live = ap (λ r. r.revoked_at) row;
        rows = rows;
        reads = reads;
      }

  -- A successful refresh, taken apart.
  pub record Rotated (token : String) (now later : ℕ) (s : db.State) (reply : RefreshResponse)
      (t : db.State) : Type 0 where
    pub row : RefreshToken
    pub issued : Issued db tools
    pub user : User
    pub found : get_refresh_token_by_hash db (tools.digest token) s ≡ ok row
    pub unrevoked : row.revoked_at ≡ none
    pub in_time : now ≤ row.expires_at
    pub owner : user.id ≡ row.user_id
    pub made : IsIssued user now s issued
    pub sent : reply.refresh_token ≡ issued.raw
    pub after :
        t
        ≡ ignore_error
            (revoke_refresh_token db row.id (some issued.row.id) later issued.state)
            issued.state

  looked_up :
      (token : String) (random : Option String) (now later : ℕ) (s t : db.State)
      (reply : RefreshResponse)
      → handle_refresh db tools token random now later s ≡ (answered reply, t)
      → present_found db tools
          (get_refresh_token_by_hash db (tools.digest token) s)
          random
          now
          later
          s
        ≡ (answered reply, t)
  unfolding handle_refresh hash_refresh_token
  looked_up token random now later s t reply e = ground arith

  presented :
      (lookup : Result DbError RefreshToken) (random : Option String) (now later : ℕ)
      (s t : db.State) (reply : RefreshResponse)
      → present_found db tools lookup random now later s ≡ (answered reply, t)
      → (row : RefreshToken) × (lookup ≡ ok row)
        × (present_token db tools row random now later s ≡ (answered reply, t))
  unfolding present_found
  presented (ok row) random now later s t reply e = (row, refl, e)
  presented (err not_found) random now later s t reply e = cc
  presented (err (invalid x)) random now later s t reply e = cc
  presented (err (failed x)) random now later s t reply e = cc

  usable :
      (row : RefreshToken) (random : Option String) (now later : ℕ) (s t : db.State)
      (reply : RefreshResponse)
      → present_token db tools row random now later s ≡ (answered reply, t)
      → (row.revoked_at ≡ none)
        × (now ≤ row.expires_at)
        × (rotate_token db tools row random now later s (db.user_by_id row.user_id s)
            ≡ (answered reply, t))
  unfolding present_token
  usable row random now later s t reply e = ground arith

  answered_by :
      (row : RefreshToken) (now later : ℕ) (s t : db.State) (reply : RefreshResponse)
      (made : Reply (Issued db tools))
      → answer_rotated db tools row now later s made ≡ (answered reply, t)
      → (i : Issued db tools) × (made ≡ answered i)
        × (reply.refresh_token ≡ i.raw)
        × (t ≡ ignore_error (revoke_refresh_token db row.id (some i.row.id) later i.state) i.state)
  unfolding answer_rotated
  answered_by row now later s t reply (refused status code field text) e = cc
  answered_by row now later s t reply (answered i) e = (i, refl, cc, cc)

  rotated :
      (row : RefreshToken) (random : Option String) (now later : ℕ) (s t : db.State)
      (reply : RefreshResponse) (user : Result DbError User)
      → rotate_token db tools row random now later s user ≡ (answered reply, t)
      → (u : User) × (user ≡ ok u)
        × (answer_rotated db tools row now later s (issue db tools u random now s)
            ≡ (answered reply, t))
  unfolding rotate_token
  rotated row random now later s t reply (err x) e = cc
  rotated row random now later s t reply (ok u) e = (u, refl, e)

  -- A successful refresh was made with a token whose row is neither revoked nor expired; it adds one
  -- row, in force for the same user and for the configured lifetime, under the digest of the token
  -- that it sends, and then asks for the revocation of the old row in favour of the new one.
  pub handle_refresh-Rotated :
      (token : String) (random : Option String) (now later : ℕ) (s t : db.State)
      (reply : RefreshResponse)
      → handle_refresh db tools token random now later s ≡ (answered reply, t)
      → Rotated token now later s reply t
  handle_refresh-Rotated token random now later s t reply e =
      let (row, found, e₁) =
        presented _ random now later s t reply (looked_up token random now later s t reply e) in
      let (unrevoked, in_time, e₂) = usable row random now later s t reply e₁ in
      let (u, known, e₃) = rotated row random now later s t reply _ e₂ in
      let (i, run, sent, after) = answered_by row now later s t reply _ e₃ in
      record {
        row = row;
        issued = i;
        user = u;
        found = found;
        unrevoked = unrevoked;
        in_time = in_time;
        owner = law.user_by_id_ok row.user_id s u known;
        made = issue-IsIssued u random now s i run;
        sent = sent;
        after = after;
      }
