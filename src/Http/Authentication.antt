-- ===== src/Http/Authentication.antt =====
-- internal/httpapi/mw_auth.go: authMiddleware, parseSubjectID and
-- adminGateMiddleware. The JWT library and the table of users are arguments.
use ispo_shedule_backend.Prelude.{
  ℕ, ◌+◌, ◌-◌, ◌*◌, ◌%◌, ℤ, pos, negsuc, String, ◌&&◌, ◌≡◌, ◌≢◌, ◌⊎◌, inl, inr, refl, Option, none,
  some, ◌==◌, string_eq, leb, ltb, if◌then◌else◌, Bool-cases, eq_iff,
}
use ispo_shedule_backend.Prelude.Text.{equal_fold}
use ispo_shedule_backend.Auth.Tokens.{admin, User}
use Prim.Native.Char.{code}

-- What the middleware leaves: the user in the context, or an aborted request.
pub data Gate : Type 0 where
  passed : User → Gate
  stopped : ℕ → Gate

-- `strings.SplitN(ah, " ", 2)`, where it gives two parts: the text before the first space and the
-- text after it
unfoldable pub split_space : String → Option (String × String)
split_space String.[] = none
split_space (String.◌∷◌ c s) =
    let rest = split_space s in
    if leb (code c) 32 && leb 32 (code c)
    then some (String.[], s)
    else elim rest [ none ↦ none | some (a, b) ↦ some (String.◌∷◌ c a, b) ]

-- the token of a header that names the scheme
unfoldable pub bearer : Option (String × String) → Option String
bearer none = none
bearer (some (scheme, token)) = if equal_fold scheme "Bearer" then some token else none

abbrev modulus : ℕ
modulus = 18446744073709551616

-- the digits of parseSubjectID, on the bits of an int64; `none` is the early `return 0`
unfoldable pub subject_bits : String → ℕ → Option ℕ
subject_bits String.[] acc = some acc
subject_bits (String.◌∷◌ c s) acc =
    let rest = subject_bits s ((acc * 10 + (code c - 48)) % modulus) in
    if leb 48 (code c) && leb (code c) 57 then rest else none

-- an int64 of these bits
abbrev signed : ℕ → ℤ
signed n = if ltb n 9223372036854775808 then pos n else negsuc (modulus - 1 - n)

-- parseSubjectID
unfoldable pub parse_subject_id : String → ℤ
parse_subject_id sub = elim (subject_bits sub 0) [ none ↦ pos 0 | some n ↦ signed n ]

module _ (subject_of : String → Option String) (user_by_id : ℤ → Option User) where
  unfoldable pub pass_user : Option User → Gate
  pass_user none = stopped 401
  pass_user (some u) = passed u

  unfoldable pub pass_subject : Option String → Gate
  pass_subject none = stopped 401
  pass_subject (some sub) = pass_user (user_by_id (parse_subject_id sub))

  unfoldable pub pass_token : Option String → Gate
  pass_token none = stopped 401
  pass_token (some token) = pass_subject (subject_of token)

  -- authMiddleware, on the Authorization header
  unfoldable pub auth_middleware : String → Gate
  auth_middleware header =
      if header == "" then stopped 401 else pass_token (bearer (split_space header))

  -- the synthetic user of adminGateMiddleware
  abbrev pub api_key_user : User
  api_key_user = record {
    id = pos 0;
    login = "api_key";
    password_hash = "";
    role = admin;
    group_id = none;
    teacher_id = none;
    subgroup = none;
  }

  -- adminGateMiddleware, on the X-Admin-Key and Authorization headers
  unfoldable pub admin_gate_middleware : String → String → String → Gate
  admin_gate_middleware api_key key_header header =
      if api_key == ""
      then auth_middleware header
      else if key_header == api_key
      then passed api_key_user
      else auth_middleware header

  -- The header carries a valid token whose subject is this user.
  abbrev pub HasToken : String → User → Type 0
  HasToken header u =
      (token : String) × (sub : String) × (bearer (split_space header) ≡ some token)
      × (subject_of token ≡ some sub)
      × (user_by_id (parse_subject_id sub) ≡ some u)

  user_passed : (o : Option User) (u : User) → pass_user o ≡ passed u → o ≡ some u
  unfolding pass_user
  user_passed none u h = cc
  user_passed (some v) u h = cc

  subject_passed :
      (o : Option String) (u : User)
      → pass_subject o ≡ passed u
      → (sub : String) × (o ≡ some sub) × (user_by_id (parse_subject_id sub) ≡ some u)
  unfolding pass_subject
  subject_passed none u h = cc
  subject_passed (some sub) u h = (sub, refl, user_passed _ u h)

  token_passed :
      (o : Option String) (u : User)
      → pass_token o ≡ passed u
      → (token : String) × (sub : String) × (o ≡ some token)
        × (subject_of token ≡ some sub)
        × (user_by_id (parse_subject_id sub) ≡ some u)
  unfolding pass_token
  token_passed none u h = cc
  token_passed (some token) u h =
      let (sub, found, user) = subject_passed (subject_of token) u h in
      (token, sub, refl, found, user)

  auth_passed : (header : String) (u : User) → auth_middleware header ≡ passed u → HasToken header u
  unfolding auth_middleware
  auth_passed header u h = elim (Bool-cases (header == "")) [
    | inl missing ↦
        let h₁ : stopped 401 ≡ passed u = rw (missing, auth_middleware) at h in absurd (cc)
    | inr given ↦ token_passed (bearer (split_space header)) u (rw (given, auth_middleware) at h)
  ]

  -- A request passes the gate of the administration only with the configured key, which is not
  -- empty, and then as an administrator, or with a valid token, and then as the user that the
  -- token's subject names.
  pub admin_gate_middleware-HasToken :
      (api_key key_header header : String) (u : User)
      → admin_gate_middleware api_key key_header header ≡ passed u
      → ((api_key ≢ "") × (key_header ≡ api_key) × (u.role ≡ admin)) ⊎ HasToken header u
  unfolding admin_gate_middleware
  admin_gate_middleware-HasToken api_key key_header header u h = elim (Bool-cases (api_key == "")) [
    | inl unset ↦ inr (auth_passed header u (rw (unset, admin_gate_middleware) at h))
    | inr set ↦ elim (Bool-cases (key_header == api_key)) [
      | inl matches ↦
          let h₁ : passed api_key_user ≡ passed u = rw (set, matches, admin_gate_middleware) at h in
          inl (λ e. cc ((eq_iff api_key "").1 e), (eq_iff key_header api_key).0 matches, cc)
      | inr other ↦ inr (auth_passed header u (rw (set, other, admin_gate_middleware) at h))
    ]
  ]
