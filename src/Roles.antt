-- ===== src/Roles.antt =====
-- The assignment of roles: backend/internal/httpapi/rbac.go.
use open_sso.Prelude.{
  ℕ, Text, select, exists, count, map, order_by, ◌==◌, ◌&&◌, not, Bool, true, Option, none, some,
  if◌then◌else◌, List, ◌∷◌,
}
use open_sso.Store.{Db, Role, RoleAssignment, Target}
use open_sso.Web.{
  Handler, ◌>>=◌, ◌>>◌, pure, or_stop, check, ask, query, exec_count, try_exec, respond, problem,
  empty, created, named,
}
use open_sso.Audit.{audit}
use open_sso.Session.{Principal}
use open_sso.Groups.{named_role}

unfoldable pub list_roles : Handler
list_roles = do
  before ← ask (λ e. e.before)
  rs ←
      or_stop (← query (λ db. order_by (λ r s. before r.name s.name) db.roles))
        (problem 500 "database error")
  pure (respond 200 (named (map named_role rs)))

abbrev is_assigned : ℕ → ℕ → RoleAssignment → Bool
is_assigned user_id role_id a = a.user_id == user_id && a.role_id == role_id

-- The roles of a user, in the order of their names.
unfoldable pub roles_of : (Text → Text → Bool) → ℕ → Db → List Role
roles_of before user_id db =
    order_by (λ r s. before r.name s.name)
      (select (λ r. exists (is_assigned user_id r.id) db.role_assignments) db.roles)

unfoldable pub list_user_roles : ℕ → Handler
unfolding roles_of
list_user_roles user_id = do
  before ← ask (λ e. e.before)
  rs ← or_stop (← query (roles_of before user_id)) (problem 500 "database error")
  pure (respond 200 (named (map named_role rs)))

-- `INSERT INTO role_assignments … ON CONFLICT DO NOTHING`: the user and the role have to exist.
unfoldable pub add_role : ℕ → ℕ → Db → Option Db
add_role user_id role_id db =
    if exists (is_assigned user_id role_id) db.role_assignments
    then some db
    else if exists (λ u. u.id == user_id) db.users && exists (λ r. r.id == role_id) db.roles
    then some (record db {
      role_assignments = record { user_id = user_id; role_id = role_id } ∷ db.role_assignments;
    })
    else none

unfoldable pub assign_role : Principal → ℕ → ℕ → Handler
unfolding add_role
assign_role actor user_id role_id = do
  stored ← try_exec (add_role user_id role_id)
  check stored (problem 400 "invalid user or role")
  audit (some actor.user_id) "ROLE_CHANGED" (Target.user user_id) true
  pure (respond 200 (created role_id))

-- `DELETE FROM role_assignments WHERE user_id=$1 AND role_id=$2`.
unfoldable pub take_role : ℕ → ℕ → Db → Db
take_role user_id role_id db = record db {
  role_assignments = select (λ a. not (is_assigned user_id role_id a)) db.role_assignments;
}

unfoldable pub remove_role : Principal → ℕ → ℕ → Handler
unfolding take_role
remove_role actor user_id role_id = do
  n ←
      or_stop
        (← exec_count (λ db. count (is_assigned user_id role_id) db.role_assignments)
          (take_role user_id role_id))
        (problem 500 "database error")
  check (not (n == 0)) (problem 404 "role assignment not found")
  audit (some actor.user_id) "ROLE_CHANGED" (Target.user user_id) true
  pure (respond 204 empty)
