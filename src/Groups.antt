-- ===== src/Groups.antt =====
-- Groups and roles: `createGroup` and `addGroupMember` of backend/internal/httpapi/server.go,
-- groups.go and rbac.go.
use open_sso.Prelude.{
  ℕ, suc, Text, text_eq, is_empty, trim_space, find, select, exists, count, update_where, map,
  order_by, limit, ◌==◌, ◌&&◌, not, Bool, true, false, Option, none, some, if◌then◌else◌, List, [],
  ◌∷◌,
}
use open_sso.Store.{Db, User, Role, Group, Membership, RoleAssignment, Target}
use open_sso.Web.{
  Env, Handler, Person, Named, ◌>>=◌, ◌>>◌, pure, or_stop, check, ask, found, query, query_row,
  exec_count, try_exec, try_exec_count, insert_returning, respond, problem, empty, created, people,
  named,
}
use open_sso.Audit.{audit}
use open_sso.Session.{Principal}
pub mod Cascade

abbrev pub named_group : Group → Named
named_group g = record { id = g.id; name = g.name; description = g.description }

abbrev pub named_role : Role → Named
named_role r = record { id = r.id; name = r.name; description = r.description }

-- `INSERT INTO groups`: the name is unique.
unfoldable pub insert_group : Text → Text → Db → Option Db
insert_group name description db =
    if exists (λ g. text_eq g.name name) db.groups
    then none
    else some (record db {
      groups = record { id = db.next_id; name = name; description = description } ∷ db.groups;
      next_id = suc db.next_id;
    })

unfoldable pub create_group : Principal → Text → Text → Handler
unfolding insert_group
create_group actor name description = do
  id ←
      or_stop
        (← insert_returning (λ db. db.next_id)
          (insert_group (trim_space name) (trim_space description)))
        (problem 409 "group already exists")
  audit (some actor.user_id) "GROUP_CREATED" (Target.group id) true
  pure (respond 201 (created id))

-- `listGroups`.
unfoldable pub list_groups : Handler
list_groups = do
  before ← ask (λ e. e.before)
  gs ←
      or_stop (← query (λ db. limit 500 (order_by (λ g h. before g.name h.name) db.groups)))
        (problem 500 "database error")
  pure (respond 200 (named (map named_group gs)))

unfoldable pub get_group : ℕ → Handler
get_group id = do
  g ←
      or_stop (found (← query_row (λ db. find (λ g. g.id == id) db.groups)))
        (problem 404 "group not found")
  pure (respond 200 (named (named_group g ∷ [])))

abbrev group_rows : ℕ → Db → ℕ
group_rows id db = count (λ g. g.id == id) db.groups

-- `UPDATE groups SET name=$1,description=$2 WHERE id=$3`.
unfoldable pub edit_group : ℕ → Text → Text → Db → Option Db
edit_group id name description db =
    if exists (λ g. g.id == id) db.groups
      && exists (λ g. not (g.id == id) && text_eq g.name name) db.groups
    then none
    else some (record db {
      groups =
          update_where (λ g. g.id == id) (λ g. record g { name = name; description = description })
            db.groups;
    })

unfoldable pub update_group : Principal → ℕ → Text → Text → Handler
unfolding edit_group
update_group actor id name description = do
  check (not (is_empty (trim_space name))) (problem 400 "group name is required")
  n ←
      or_stop
        (← try_exec_count (group_rows id)
          (edit_group id (trim_space name) (trim_space description)))
        (problem 409 "group name already exists or update failed")
  check (not (n == 0)) (problem 404 "group not found")
  audit (some actor.user_id) "GROUP_UPDATED" (Target.group id) true
  pure (
      respond 200 (
        named
          (record { id = id; name = trim_space name; description = trim_space description } ∷ [])))

-- `DELETE FROM groups WHERE id=$1`, with the rows that the deletion cascades to.
unfoldable pub remove_group : ℕ → Db → Db
remove_group id db =
    if exists (λ g. g.id == id) db.groups
    then record db {
      groups = select (λ g. not (g.id == id)) db.groups;
      memberships = select (λ m. not (m.group_id == id)) db.memberships;
      group_assignments = select (λ a. not (a.group_id == id)) db.group_assignments;
      group_mfa_policies = select (λ p. not (p.group_id == id)) db.group_mfa_policies;
    }
    else db

unfoldable pub delete_group : Principal → ℕ → Handler
unfolding remove_group
delete_group actor id = do
  n ← or_stop (← exec_count (group_rows id) (remove_group id)) (problem 500 "database error")
  check (not (n == 0)) (problem 404 "group not found")
  audit (some actor.user_id) "GROUP_DELETED" (Target.group id) true
  pure (respond 204 empty)

abbrev is_member : ℕ → ℕ → Membership → Bool
is_member group_id user_id m = m.group_id == group_id && m.user_id == user_id

-- `INSERT INTO group_memberships … ON CONFLICT DO NOTHING`.
unfoldable pub add_member : ℕ → ℕ → Db → Option Db
add_member group_id user_id db =
    if exists (is_member group_id user_id) db.memberships
    then some db
    else if exists (λ g. g.id == group_id) db.groups && exists (λ u. u.id == user_id) db.users
    then some (record db {
      memberships = record { group_id = group_id; user_id = user_id } ∷ db.memberships;
    })
    else none

unfoldable pub add_group_member : Principal → ℕ → ℕ → Handler
unfolding add_member
add_group_member actor group_id user_id = do
  valid ←
      or_stop
        (← query (λ db.
          exists (λ g. g.id == group_id) db.groups && exists (λ u. u.id == user_id) db.users))
        (problem 400 "invalid group or user identifier")
  check valid (problem 404 "group or user not found")
  stored ← try_exec (add_member group_id user_id)
  check stored (problem 500 "failed to add group membership")
  audit (some actor.user_id) "GROUP_MEMBERSHIP_ADDED" (Target.group group_id) true
  pure (respond 204 empty)

unfoldable pub remove_group_member : Principal → ℕ → ℕ → Handler
remove_group_member actor group_id user_id = do
  n ←
      or_stop
        (← exec_count (λ db. count (is_member group_id user_id) db.memberships)
          (λ db. record db {
            memberships = select (λ m. not (is_member group_id user_id m)) db.memberships;
          }))
        (problem 500 "database error")
  check (not (n == 0)) (problem 404 "group membership not found")
  audit (some actor.user_id) "GROUP_MEMBERSHIP_REMOVED" (Target.group group_id) true
  pure (respond 204 empty)

abbrev pub person_of : User → Person
person_of u = record {
  id = u.id;
  username = u.username;
  email = u.email;
  display_name = u.display_name;
  active = some u.active;
}

unfoldable pub list_group_members : ℕ → Handler
list_group_members id = do
  before ← ask (λ e. e.before)
  us ←
      or_stop
        (← query (λ db.
          order_by (λ u v. before u.username v.username)
            (select (λ u. exists (is_member id u.id) db.memberships) db.users)))
        (problem 500 "database error")
  pure (respond 200 (people (map person_of us)))
