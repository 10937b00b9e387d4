-- ===== src/Auth/Handlers.antt =====
-- internal/httpapi/handlers_auth.go: handleLogin, handleRefresh and handleLogout. What they take from
-- elsewhere is `Tools`; each reading of the clock and of the random source is an argument.
use ispo_shedule_backend.Prelude.{
  ℕ, ◌+◌, ℤ, String, Bool, not, ◌||◌, Option, none, some, ◌==◌, string_eq, if◌then◌else◌, ltb,
}
use ispo_shedule_backend.Prelude.Results.{Result, ok, err}
use ispo_shedule_backend.Auth.Tokens.{
  Role, User, RefreshToken, DbError, not_found, invalid, failed, TokenDb, hash_refresh_token,
  create_refresh_token, get_refresh_token_by_hash, revoke_refresh_token,
  revoke_all_refresh_tokens_for_user,
}

-- the answer of a handler: a body, or the status, code, field and message of writeError
pub data Reply (A : Type 0) : Type 0 where
  answered : A → Reply A
  refused : ℕ → String → String → String → Reply A

-- The JWT library, bcrypt and SHA-256, and the configured lifetime of a refresh token.
pub record Tools : Type 0 where
  pub issue_access_token : User → ℕ → Option (String × ℕ)
  pub verify_password : String → String → Bool
  pub digest : String → String
  pub refresh_ttl : ℕ

pub record LoginResponse : Type 0 where
  pub access_token : String
  pub expires_at : ℕ
  pub refresh_token : String
  pub refresh_expires_at : ℕ
  pub role : Role
  pub group_id : Option ℤ
  pub teacher_id : Option ℤ
  pub subgroup : Option ℤ

pub record RefreshResponse : Type 0 where
  pub access_token : String
  pub expires_at : ℕ
  pub refresh_token : String
  pub refresh_expires_at : ℕ

-- `_ = write`: the error of a write is dropped
abbrev pub ignore_error : {S : Type 0} → Result String S → S → S
ignore_error (ok t) s = t
ignore_error (err e) s = s

abbrev pub login_response : User → String × ℕ → String → ℕ → LoginResponse
login_response u (access, expires_at) raw refresh_exp = record {
  access_token = access;
  expires_at = expires_at;
  refresh_token = raw;
  refresh_expires_at = refresh_exp;
  role = u.role;
  group_id = u.group_id;
  teacher_id = u.teacher_id;
  subgroup = u.subgroup;
}

abbrev pub refresh_response : String × ℕ → String → ℕ → RefreshResponse
refresh_response (access, expires_at) raw refresh_exp = record {
  access_token = access;
  expires_at = expires_at;
  refresh_token = raw;
  refresh_expires_at = refresh_exp;
}

module _ (db : TokenDb) (tools : Tools) where
  -- A token pair for a user, as handleLogin and handleRefresh issue it: the access token, the raw
  -- refresh token and its row.
  pub record Issued : Type 0 where
    pub access : String × ℕ
    pub raw : String
    pub row : RefreshToken
    pub state : db.State

  unfoldable pub issue : User → Option String → ℕ → db.State → Reply Issued
  issue u random now s = elim (tools.issue_access_token u now) [
    | none ↦ refused 500 "token_error" "" "token error"
    | some access ↦ elim random [
      | none ↦ refused 500 "token_error" "" "token error"
      | some raw ↦ elim (hash_refresh_token tools.digest raw) [
        | none ↦ refused 500 "token_error" "" "token error"
        | some h ↦ elim (create_refresh_token db u.id h (now + tools.refresh_ttl) s) [
          | err e ↦ refused 500 "db_error" "" "db error"
          | ok (row, t) ↦ answered (record { access = access; raw = raw; row = row; state = t })
        ]
      ]
    ]
  ]

  -- handleLogin, from the user that was found
  unfoldable pub login_user :
      User → String → Option String → ℕ → db.State → Reply LoginResponse × db.State
  login_user u password random now s =
      if not (tools.verify_password u.password_hash password)
      then (refused 401 "unauthorized" "" "invalid credentials", s)
      else elim (issue u random now s) [
        | refused status code field text ↦ (refused status code field text, s)
        | answered i ↦
            (answered (login_response u i.access i.raw (now + tools.refresh_ttl)), i.state)
      ]

  -- handleLogin
  unfoldable pub handle_login :
      String → String → Option String → ℕ → db.State → Reply LoginResponse × db.State
  handle_login login password random now s =
      if login == "" || password == ""
      then (refused 400 "validation_error" "" "login and password required", s)
      else elim (db.user_by_login login s) [
        | err not_found ↦ (refused 401 "unauthorized" "" "invalid credentials", s)
        | err (invalid e) ↦ (refused 500 "db_error" "" "db error", s)
        | err (failed e) ↦ (refused 500 "db_error" "" "db error", s)
        | ok u ↦ login_user u password random now s
      ]

  -- the last lines of handleRefresh, from the outcome of issuing the new pair
  unfoldable pub answer_rotated :
      RefreshToken → ℕ → ℕ → db.State → Reply Issued → Reply RefreshResponse × db.State
  answer_rotated row now later s (refused status code field text) =
      (refused status code field text, s)
  answer_rotated row now later s (answered i) = (
    answered (refresh_response i.access i.raw (now + tools.refresh_ttl)),
    ignore_error (revoke_refresh_token db row.id (some i.row.id) later i.state) i.state,
  )

  -- handleRefresh, from the user of a token that may be used
  unfoldable pub rotate_token :
      RefreshToken
      → Option String
      → ℕ
      → ℕ
      → db.State
      → Result DbError User
      → Reply RefreshResponse × db.State
  rotate_token row random now later s (err e) = (refused 401 "unauthorized" "" "unknown user", s)
  rotate_token row random now later s (ok u) = answer_rotated row now later s (issue u random now s)

  -- handleRefresh, from the row of the token
  unfoldable pub present_token :
      RefreshToken → Option String → ℕ → ℕ → db.State → Reply RefreshResponse × db.State
  present_token row random now later s = elim row.revoked_at [
    | some _ ↦ (
      refused 401 "unauthorized" "refresh_token" "invalid refresh_token",
      ignore_error (revoke_all_refresh_tokens_for_user db row.user_id later s) s,
    )
    | none ↦
        if ltb row.expires_at now
        then (
          refused 401 "unauthorized" "refresh_token" "refresh_token expired",
          ignore_error (revoke_refresh_token db row.id none later s) s,
        )
        else rotate_token row random now later s (db.user_by_id row.user_id s)
  ]

  -- handleRefresh, from the outcome of looking the token up
  unfoldable pub present_found :
      Result DbError RefreshToken
      → Option String
      → ℕ
      → ℕ
      → db.State
      → Reply RefreshResponse × db.State
  present_found (err not_found) random now later s =
      (refused 401 "unauthorized" "refresh_token" "invalid refresh_token", s)
  present_found (err (invalid e)) random now later s = (refused 500 "db_error" "" "db error", s)
  present_found (err (failed e)) random now later s = (refused 500 "db_error" "" "db error", s)
  present_found (ok row) random now later s = present_token row random now later s

  -- handleRefresh
  unfoldable pub handle_refresh :
      String → Option String → ℕ → ℕ → db.State → Reply RefreshResponse × db.State
  handle_refresh token random now later s =
      if token == ""
      then (refused 400 "validation_error" "refresh_token" "refresh_token required", s)
      else elim (hash_refresh_token tools.digest token) [
        | none ↦ (refused 400 "validation_error" "refresh_token" "invalid refresh_token", s)
        | some h ↦ present_found (get_refresh_token_by_hash db h s) random now later s
      ]

  -- handleLogout; its answers other than the refusals are the empty 204
  unfoldable pub handle_logout : String → ℕ → db.State → Reply (Unit {0}) × db.State
  handle_logout token later s =
      if token == ""
      then (refused 400 "validation_error" "refresh_token" "refresh_token required", s)
      else elim (hash_refresh_token tools.digest token) [
        | none ↦ (refused 400 "validation_error" "refresh_token" "invalid refresh_token", s)
        | some h ↦ elim (get_refresh_token_by_hash db h s) [
          | err e ↦ (answered tt, s)
          | ok row ↦ (answered tt, ignore_error (revoke_refresh_token db row.id none later s) s)
        ]
      ]
