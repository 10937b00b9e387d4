-- ===== src/Http/Audit.antt =====
-- internal/httpapi/audit_sanitize.go: secrets are taken out of what the audit log stores. A JSON
-- value is what encoding/json decodes; an object is the list of its members.
use ispo_shedule_backend.Prelude.{
  String, Bool, true, false, ◌&&◌, ◌≡◌, refl, ap, [], ◌∷◌, ◌==◌, string_eq, nat_eq, if◌then◌else◌,
  contains, arith, Bool-cases, inl, inr, eq_iff,
}
use ispo_shedule_backend.Prelude.Text.{to_lower}
use Prim.Native.Char.{code}

mutual
  pub data Json : Type 0 where
    null : Json
    boolean : Bool → Json
    number : String → Json
    text : String → Json
    array : JsonList → Json
    object : JsonMembers → Json

  pub data JsonList : Type 0 where
    no_items : JsonList
    item : Json → JsonList → JsonList

  pub data JsonMembers : Type 0 where
    no_members : JsonMembers
    member : String → Json → JsonMembers → JsonMembers

-- the two calls of strings.ReplaceAll
unfoldable pub underscored : String → String
underscored String.[] = String.[]
underscored (String.◌∷◌ c s) =
    let rest = underscored s in
    if code c == 45
    then String.◌∷◌ "_" rest
    else if code c == 32
    then String.◌∷◌ "_" rest
    else String.◌∷◌ c rest

-- isSensitiveKey
unfoldable pub is_sensitive_key : String → Bool
is_sensitive_key k = contains (underscored (to_lower k)) (
    "password" ∷ "password_hash" ∷ "access_token" ∷ "refresh_token" ∷ "jwt_secret" ∷ "api_key"
    ∷ "admin_key" ∷ "x_admin_key" ∷ "authorization" ∷ [])

-- sanitizeAny
unfoldable mutual
  pub sanitize : Json → Json
  sanitize null = null
  sanitize (boolean b) = boolean b
  sanitize (number n) = number n
  sanitize (text s) = text s
  sanitize (array items) = array (sanitize_items items)
  sanitize (object ms) = object (sanitize_members ms)

  pub sanitize_items : JsonList → JsonList
  sanitize_items no_items = no_items
  sanitize_items (item v items) = item (sanitize v) (sanitize_items items)

  pub sanitize_members : JsonMembers → JsonMembers
  sanitize_members no_members = no_members
  sanitize_members (member k v ms) =
      let clean = sanitize v in
      member k (if is_sensitive_key k then text "<redacted>" else clean) (sanitize_members ms)

abbrev is_redacted : Json → Bool
is_redacted (text s) = s == "<redacted>"
is_redacted null = false
is_redacted (boolean b) = false
is_redacted (number n) = false
is_redacted (array items) = false
is_redacted (object ms) = false

redacted_value : (v : Json) → is_redacted v ≡ true → v ≡ text "<redacted>"
redacted_value (text s) h = ap text ((eq_iff s "<redacted>").0 h)
redacted_value null h = cc
redacted_value (boolean b) h = cc
redacted_value (number n) h = cc
redacted_value (array items) h = cc
redacted_value (object ms) h = cc

-- At every depth, the value of a sensitive key is the placeholder.
unfoldable mutual
  pub is_clean : Json → Bool
  is_clean null = true
  is_clean (boolean b) = true
  is_clean (number n) = true
  is_clean (text s) = true
  is_clean (array items) = are_clean items
  is_clean (object ms) = members_clean ms

  pub are_clean : JsonList → Bool
  are_clean no_items = true
  are_clean (item v items) = is_clean v && are_clean items

  pub members_clean : JsonMembers → Bool
  members_clean no_members = true
  members_clean (member k v ms) =
      let inner = is_clean v in
      (if is_sensitive_key k then is_redacted v else inner) && members_clean ms

mutual
  unfolding is_clean are_clean members_clean sanitize sanitize_items sanitize_members

  clean_value : (v : Json) → is_clean (sanitize v) ≡ true
  clean_value null = refl
  clean_value (boolean b) = refl
  clean_value (number n) = refl
  clean_value (text s) = refl
  clean_value (array items) = clean_items items
  clean_value (object ms) = clean_members ms

  clean_items : (items : JsonList) → are_clean (sanitize_items items) ≡ true
  clean_items no_items = refl
  clean_items (item v items) = rw (clean_value v, clean_items items) refl

  clean_members : (ms : JsonMembers) → members_clean (sanitize_members ms) ≡ true
  clean_members no_members = refl
  clean_members (member k v ms) = elim (Bool-cases (is_sensitive_key k)) [
    | inl secret ↦ rw (secret, clean_members ms) refl
    | inr open_key ↦ rw (open_key, clean_value v, clean_members ms) refl
  ]

mutual
  unfolding is_clean are_clean members_clean sanitize sanitize_items sanitize_members

  stable_value : (v : Json) → is_clean v ≡ true → sanitize v ≡ v
  stable_value null h = refl
  stable_value (boolean b) h = refl
  stable_value (number n) h = refl
  stable_value (text s) h = refl
  stable_value (array items) h = ap array (stable_items items h)
  stable_value (object ms) h = ap object (stable_members ms h)

  stable_items : (items : JsonList) → are_clean items ≡ true → sanitize_items items ≡ items
  stable_items no_items h = refl
  stable_items (item v items) h = ground (arith, stable_value v, stable_items items)

  stable_members : (ms : JsonMembers) → members_clean ms ≡ true → sanitize_members ms ≡ ms
  stable_members no_members h = refl
  stable_members (member k v ms) h =
      ground (arith, redacted_value v, stable_value v, stable_members ms)

-- Whatever is logged, no value of a sensitive key is left in it, at any depth, and sanitizing it
-- again changes nothing.
pub sanitize-is_clean :
    (v : Json) → (is_clean (sanitize v) ≡ true) × (sanitize (sanitize v) ≡ sanitize v)
sanitize-is_clean v = (clean_value v, stable_value (sanitize v) (clean_value v))
