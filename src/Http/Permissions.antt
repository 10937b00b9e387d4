-- ===== src/Http/Permissions.antt =====
-- internal/httpapi/mw_permissions.go: the permissions of the roles, and the middleware that asks for
-- one of a list.
use ispo_shedule_backend.Prelude.{
  ℕ, Bool, true, false, ◌≡◌, ◌↔◌, ◌⊎◌, inl, inr, refl, Option, none, some, List, [], ◌∷◌, any,
  arith,
}
use ispo_shedule_backend.Auth.Tokens.{
  Role, student, dispatcher, admin, viewer, teacher, other_role, User,
}

pub data Permission : Type 0 where
  admin_read dict_write schedule_write import_templates : Permission

-- rolePermissions, by the membership test that its caller makes
unfoldable pub role_permits : Role → Permission → Bool
role_permits admin p = true
role_permits dispatcher p = true
role_permits viewer admin_read = true
role_permits viewer dict_write = false
role_permits viewer schedule_write = false
role_permits viewer import_templates = false
role_permits student p = false
role_permits teacher p = false
role_permits (other_role name) p = false

-- What a middleware does: the next handler runs, or the request is aborted with a status.
pub data Outcome : Type 0 where
  next : Outcome
  aborted : ℕ → Outcome

-- requireAnyPermission, for the user that the authentication put into the context, if it did
unfoldable pub require_any_permission : List Permission → Option User → Outcome
require_any_permission perms none = aborted 401
require_any_permission perms (some u) = elim (any (role_permits u.role) perms) [
  | true ↦ next
  | false ↦ aborted 403
]

-- The roles that may change anything.
abbrev pub IsStaff : Role → Type 0
IsStaff role = (role ≡ admin) ⊎ (role ≡ dispatcher)

staff_permits : (role : Role) (p : Permission) → IsStaff role → role_permits role p ≡ true
unfolding role_permits
staff_permits role p h = ground (arith, h)

role_permits-IsStaff : (role : Role) → role_permits role schedule_write ≡ true → IsStaff role
unfolding role_permits
role_permits-IsStaff admin h = inl refl
role_permits-IsStaff dispatcher h = inr refl
role_permits-IsStaff viewer h = cc
role_permits-IsStaff student h = cc
role_permits-IsStaff teacher h = cc
role_permits-IsStaff (other_role name) h = cc

-- A route that asks for the permission to write schedules is open to the users whose role is
-- administrator or dispatcher, and to no one else.
pub require_any_permission_iff :
    (u : User) → (require_any_permission (schedule_write ∷ []) (some u) ≡ next) ↔ IsStaff u.role
unfolding require_any_permission
require_any_permission_iff u =
    ground (arith, staff_permits u.role schedule_write, role_permits-IsStaff u.role)
