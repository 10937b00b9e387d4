-- ===== src/Http/Tests.antt =====
-- internal/httpapi: the theorems about the middlewares and helpers at concrete requests.
use ispo_shedule_backend.Prelude.{
  ℕ, ℤ, pos, String, true, ◌≡◌, ◌≢◌, ◌↔◌, ◌+◌, ◌≤◌, refl, none, some, [], ◌∷◌, lookup, insert,
  arith, string_eq, ◌==◌, eq_iff, int_eq, ◌⊎◌, Option, if◌then◌else◌,
}
use ispo_shedule_backend.Prelude.Text.{trim_space, equal_fold}
use ispo_shedule_backend.Prelude.Results.{ok}
use ispo_shedule_backend.Auth.Tokens.{admin, dispatcher, User}
use ispo_shedule_backend.Http.Permissions.{
  schedule_write, next, require_any_permission, IsStaff, require_any_permission_iff,
}
use ispo_shedule_backend.Http.Authentication.{
  passed, split_space, bearer, subject_bits, parse_subject_id, pass_user, pass_subject, pass_token,
  auth_middleware, admin_gate_middleware, HasToken, admin_gate_middleware-HasToken,
}
use ispo_shedule_backend.Http.RateLimit.{
  Store, sweep, cleanup, get_limiter, get_limiter_kept, get_limiter_live,
}
use ispo_shedule_backend.Http.Pagination.{
  LimitOffset, atoi, parsed_limit, parsed_offset, completed, parse_limit_offset, IsLimit, IsOffset,
  parse_limit_offset-IsOffset,
}
use ispo_shedule_backend.Http.Audit.{
  Json, text, object, no_members, member, sanitize, is_clean, sanitize-is_clean,
}

abbrev clerk : User
clerk = record {
  id = pos 2;
  login = "clerk";
  password_hash = "";
  role = dispatcher;
  group_id = none;
  teacher_id = none;
  subgroup = none;
}

require_any_permission_iff_example :
    (require_any_permission (schedule_write ∷ []) (some clerk) ≡ next) ↔ IsStaff dispatcher
require_any_permission_iff_example = require_any_permission_iff clerk

-- Two clients: one seen at 95, one at 10, with a lifetime of 20 and a cleanup due at 90.
abbrev limiters : Store ℕ
limiters = record {
  clients =
      ("b|1", record { limiter = 1; last_seen = 95 })
      ∷ ("b|2", record { limiter = 2; last_seen = 10 })
      ∷ [];
  client_ttl = 20;
  next_cleanup = 90;
}

found_one : lookup "b|1" limiters.clients ≡ some (record { limiter = 1; last_seen = 95 })
unfolding lookup
found_one = refl

kept_one :
    lookup "b|1" (get_limiter "b|3" 3 100 limiters).1.clients
    ≡ some (record { limiter = 1; last_seen = 95 })
unfolding lookup insert sweep cleanup get_limiter
kept_one = refl

three_apart : ◌≢◌ {A = String} "b|3" "b|1"
three_apart e = let b : ◌==◌ {A = String} "b|3" "b|1" ≡ true = (eq_iff "b|3" "b|1").1 e in cc

get_limiter_kept_example :
    ((get_limiter "b|1" 9 100 limiters).0 ≡ 1)
    × (lookup "b|1" (get_limiter "b|1" 9 100 limiters).1.clients
        ≡ some (record { limiter = 1; last_seen = 100 }))
get_limiter_kept_example =
    get_limiter_kept "b|1" 9 100 limiters (record { limiter = 1; last_seen = 95 }) found_one
      (omega arith)

get_limiter_live_example : 100 ≤ 95 + 20
get_limiter_live_example =
    get_limiter_live "b|3" "b|1" 3 100 limiters (record { limiter = 1; last_seen = 95 })
      (omega arith) three_apart kept_one

abbrev payload : Json
payload = object (member "login" (text "clerk") (member "Api Key" (text "secret") no_members))

sanitize-is_clean_example :
    (is_clean (sanitize payload) ≡ true) × (sanitize (sanitize payload) ≡ sanitize payload)
sanitize-is_clean_example = sanitize-is_clean payload

abbrev page : LimitOffset
page = record { limit = some (pos 200); offset = some (pos 40) }

parses : parse_limit_offset "500" " 40" none (pos 200) ≡ ok page
unfolding trim_space atoi parsed_limit parsed_offset completed parse_limit_offset
parses = refl

parse_limit_offset-IsOffset_example :
    IsLimit (pos 200) (some (pos 200)) × IsOffset (some (pos 200)) (some (pos 40))
parse_limit_offset-IsOffset_example =
    parse_limit_offset-IsOffset "500" " 40" none (pos 200) page tt parses

-- One user, with the identifier 2, and one token, whose subject is that identifier.
abbrev subjects : String → Option String
subjects token = if token == "t" then some "2" else none

abbrev users : ℤ → Option User
users id = if id == pos 2 then some clerk else none

admits : admin_gate_middleware subjects users "key" "" "bearer t" ≡ passed clerk
unfolding equal_fold split_space bearer subject_bits parse_subject_id pass_user pass_subject
    pass_token auth_middleware admin_gate_middleware
admits = refl

admin_gate_middleware-HasToken_example :
    (◌≢◌ {A = String} "key" "" × ◌≡◌ {A = String} "" "key" × (clerk.role ≡ admin))
    ⊎ HasToken subjects users "bearer t" clerk
admin_gate_middleware-HasToken_example =
    admin_gate_middleware-HasToken subjects users "key" "" "bearer t" clerk admits
