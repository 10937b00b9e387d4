-- ===== src/Auth/Tokens.antt =====
-- internal/auth/refresh_tokens.go, user.go and internal/schedule/repository_refresh_tokens.go: the
-- rows of refresh tokens, and the repository's operations on them. The table behind gorm is a
-- parameter; an instant is a natural number of nanoseconds.
use ispo_shedule_backend.Prelude.{
  ℕ, ℤ, pos, String, Bool, not, ◌&&◌, ◌≡◌, Option, none, some, List, [], ◌∷◌, ◌++◌, ◌==◌, string_eq,
  int_eq, is_positive, if◌then◌else◌, find,
}
use ispo_shedule_backend.Prelude.Results.{Result, ok, err}

pub data Role : Type 0 where
  student dispatcher admin viewer teacher : Role
  other_role : String → Role

pub record User : Type 0 where
  pub id : ℤ
  pub login : String
  pub password_hash : String
  pub role : Role
  pub group_id : Option ℤ
  pub teacher_id : Option ℤ
  pub subgroup : Option ℤ

pub record RefreshToken : Type 0 where
  pub id : ℤ
  pub user_id : ℤ
  pub token_hash : String
  pub expires_at : ℕ
  pub revoked_at : Option ℕ
  pub replaced_by_token_id : Option ℤ

pub data DbError : Type 0 where
  not_found : DbError
  invalid : String → DbError
  failed : String → DbError

-- the rows that an UPDATE with this WHERE clause leaves
abbrev pub update_rows :
    (RefreshToken → Bool) → (RefreshToken → RefreshToken) → List RefreshToken → List RefreshToken
update_rows p f [] = []
update_rows p f (r ∷ rows) = (if p r then f r else r) ∷ update_rows p f rows

-- The tables of tokens and users behind gorm.
pub record TokenDb : Type 1 where
  pub State : Type 0
  pub tokens : State → List RefreshToken
  pub read_error : State → Option String
  pub user_by_id : ℤ → State → Result DbError User
  pub user_by_login : String → State → Result DbError User
  pub insert_token : RefreshToken → State → Result String (RefreshToken × State)
  pub update_tokens :
      (RefreshToken → Bool) → (RefreshToken → RefreshToken) → State → Result String State

-- The documented behaviour of gorm and of the primary keys.
pub record IsTokenDb (db : TokenDb) : Type 0 where
  pub user_by_id_ok : (id : ℤ) (s : db.State) (u : User) → db.user_by_id id s ≡ ok u → u.id ≡ id
  pub insert_token_ok :
      (row out : RefreshToken) (s t : db.State)
      → db.insert_token row s ≡ ok (out, t)
      → (out ≡ record row { id = out.id })
        × (db.tokens t ≡ db.tokens s ++ out ∷ [])
        × (db.read_error t ≡ db.read_error s)
  pub update_tokens_ok :
      (p : RefreshToken → Bool) (f : RefreshToken → RefreshToken) (s t : db.State)
      → db.update_tokens p f s ≡ ok t
      → (db.tokens t ≡ update_rows p f (db.tokens s)) × (db.read_error t ≡ db.read_error s)

abbrev pub is_none {ℓ} : {A : Type ℓ} → Option A → Bool
is_none none = Bool.true
is_none (some a) = Bool.false

-- HashRefreshToken, with the digest of SHA-256 in hexadecimal as an argument; `none` is its error
unfoldable pub hash_refresh_token : (String → String) → String → Option String
hash_refresh_token digest raw = if raw == "" then none else some (digest raw)

abbrev pub new_token : ℤ → String → ℕ → RefreshToken
new_token user_id token_hash expires_at = record {
  id = pos 0;
  user_id = user_id;
  token_hash = token_hash;
  expires_at = expires_at;
  revoked_at = none;
  replaced_by_token_id = none;
}

-- `id = ? AND revoked_at IS NULL`
abbrev pub is_active_id : ℤ → RefreshToken → Bool
is_active_id id row = row.id == id && is_none row.revoked_at

-- `user_id = ? AND revoked_at IS NULL`
abbrev pub is_active_of : ℤ → RefreshToken → Bool
is_active_of user_id row = row.user_id == user_id && is_none row.revoked_at

-- the map `updates` of RevokeRefreshToken, applied to a row
abbrev pub revoked : Option ℤ → ℕ → RefreshToken → RefreshToken
revoked none now row = record row { revoked_at = some now }
revoked (some id) now row = record row { revoked_at = some now; replaced_by_token_id = some id }

module _ (db : TokenDb) where
  -- CreateRefreshToken
  unfoldable pub create_refresh_token :
      ℤ → String → ℕ → db.State → Result String (RefreshToken × db.State)
  create_refresh_token user_id token_hash expires_at s =
      if not (is_positive user_id)
      then err "user_id required"
      else if token_hash == ""
      then err "token_hash required"
      else db.insert_token (new_token user_id token_hash expires_at) s

  -- the query of GetRefreshTokenByHash
  abbrev pub first_by_hash : String → db.State → Result DbError RefreshToken
  first_by_hash token_hash s = elim (find (λ r. r.token_hash == token_hash) (db.tokens s)) [
    | none ↦ err not_found
    | some row ↦ ok row
  ]

  -- GetRefreshTokenByHash
  unfoldable pub get_refresh_token_by_hash : String → db.State → Result DbError RefreshToken
  get_refresh_token_by_hash token_hash s =
      if token_hash == ""
      then err (invalid "token_hash required")
      else elim (db.read_error s) [ none ↦ first_by_hash token_hash s | some e ↦ err (failed e) ]

  -- RevokeRefreshToken
  unfoldable pub revoke_refresh_token : ℤ → Option ℤ → ℕ → db.State → Result String db.State
  revoke_refresh_token id replaced_by_id now s =
      db.update_tokens (is_active_id id) (revoked replaced_by_id now) s

  -- RevokeAllRefreshTokensForUser
  unfoldable pub revoke_all_refresh_tokens_for_user : ℤ → ℕ → db.State → Result String db.State
  revoke_all_refresh_tokens_for_user user_id now s =
      if not (is_positive user_id)
      then err "user_id required"
      else db.update_tokens (is_active_of user_id) (revoked none now) s
