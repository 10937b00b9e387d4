-- ===== src/Auth/Tests.antt =====
-- internal/httpapi/handlers_auth.go: the theorems about refresh tokens on a table in memory.
use ispo_shedule_backend.Prelude.{
  ℕ, suc, ℤ, pos, String, true, false, ◌≡◌, refl, Option, none, some, List, [], ◌∷◌, ◌++◌, length,
  is_positive,
}
use ispo_shedule_backend.Prelude.Results.{ok}
use ispo_shedule_backend.Auth.Tokens.{
  student, User, RefreshToken, TokenDb, IsTokenDb, update_rows, hash_refresh_token,
  create_refresh_token, get_refresh_token_by_hash, revoke_refresh_token,
}
use ispo_shedule_backend.Auth.Handlers.{
  answered, refused, Tools, issue, RefreshResponse, answer_rotated, rotate_token, present_token,
  present_found, handle_refresh,
}
use ispo_shedule_backend.Auth.Rotation.{Rotated, handle_refresh-Rotated}
use ispo_shedule_backend.Auth.Reuse.{
  has_session, Writes, handle_refresh_revoked, handle_refresh_once,
}

abbrev user_of : ℤ → User
user_of id = record {
  id = id;
  login = "ivanov";
  password_hash = "";
  role = student;
  group_id = none;
  teacher_id = none;
  subgroup = none;
}

abbrev table : TokenDb
table = record {
  State = List RefreshToken;
  tokens = λ s. s;
  read_error = λ s. none;
  user_by_id = λ id s. ok (user_of id);
  user_by_login = λ login s. ok (user_of (pos 3));
  insert_token =
      λ row s. let out = record row { id = pos (suc (length s)) } in ok (out, s ++ out ∷ []);
  update_tokens = λ p f s. ok (update_rows p f s);
}

table-IsTokenDb : IsTokenDb table
table-IsTokenDb = record {
  user_by_id_ok = λ id s u h. cc;
  insert_token_ok = λ row out s t h. (cc, cc, refl);
  update_tokens_ok = λ p f s t h. (cc, refl);
}

table_writes : Writes table
table_writes p f s = (update_rows p f s, refl)

abbrev tools : Tools
tools = record {
  issue_access_token = λ u now. some ("access", now);
  verify_password = λ hash password. true;
  digest = λ raw. raw;
  refresh_ttl = 100;
}

abbrev token_row : ℤ → String → ℕ → Option ℕ → Option ℤ → RefreshToken
token_row id token_hash expires_at revoked_at replaced_by = record {
  id = id;
  user_id = pos 3;
  token_hash = token_hash;
  expires_at = expires_at;
  revoked_at = revoked_at;
  replaced_by_token_id = replaced_by;
}

abbrev before : List RefreshToken
before = token_row (pos 1) "old" 50 none none ∷ []

abbrev after : List RefreshToken
after =
    token_row (pos 1) "old" 50 (some 12) (some (pos 2)) ∷ token_row (pos 2) "new" 110 none none ∷ []

abbrev reply : RefreshResponse
reply = record {
  access_token = "access";
  expires_at = 10;
  refresh_token = "new";
  refresh_expires_at = 110;
}

refreshes : handle_refresh table tools "old" (some "new") 10 12 before ≡ (answered reply, after)
unfolding hash_refresh_token create_refresh_token get_refresh_token_by_hash revoke_refresh_token
    issue answer_rotated rotate_token present_token present_found handle_refresh
refreshes = refl

old_revoked :
    get_refresh_token_by_hash table "old" after
    ≡ ok (token_row (pos 1) "old" 50 (some 12) (some (pos 2)))
unfolding get_refresh_token_by_hash
old_revoked = refl

handle_refresh-Rotated_example : Rotated table tools table-IsTokenDb "old" 10 12 before reply after
handle_refresh-Rotated_example =
    handle_refresh-Rotated table tools table-IsTokenDb "old" (some "new") 10 12 before after reply
      refreshes

handle_refresh_revoked_example :
    (t : List RefreshToken) × (handle_refresh table tools "old" none 20 21 after
      ≡ (refused 401 "unauthorized" "refresh_token" "invalid refresh_token", t))
    × (has_session (pos 3) t ≡ false)
handle_refresh_revoked_example =
    handle_refresh_revoked table tools table-IsTokenDb table_writes "old" none 20 21 after
      (token_row (pos 1) "old" 50 (some 12) (some (pos 2))) 12 (λ e. cc) refl old_revoked refl

handle_refresh_once_example :
    (row : RefreshToken) × (u : List RefreshToken) × (get_refresh_token_by_hash table "old" before
      ≡ ok row)
    × (handle_refresh table tools "old" none 20 21 after
        ≡ (refused 401 "unauthorized" "refresh_token" "invalid refresh_token", u))
    × (is_positive row.user_id ≡ true → has_session row.user_id u ≡ false)
handle_refresh_once_example =
    handle_refresh_once table tools table-IsTokenDb table_writes "old" (some "new") none 10 12 20 21
      before after reply (λ e. cc) refreshes
