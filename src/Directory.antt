-- ===== src/Directory.antt =====
-- `bootstrap` and `createUser` of backend/internal/httpapi/server.go.
use open_sso.Prelude.{
  ℕ, suc, Text, codes, text_eq, byte_len, is_empty, trim_space, select, exists, map, ltb, ◌==◌,
  ◌&&◌, ◌||◌, not, Bool, true, false, Option, none, some, if◌then◌else◌, ◌∷◌, ◌++◌,
}
use open_sso.Store.{Db, User, Role, RoleAssignment, Target}
use open_sso.Web.{
  Handler, ◌>>=◌, ◌>>◌, pure, or_stop, or_answer, check, ask, query, exec, try_exec,
  insert_returning, commit, transaction, respond, problem, created,
}
use open_sso.Audit.{audit_tx}
use open_sso.Session.{Principal}
use open_sso.Password.{hash_password}
use open_sso.Users.{check_policy, has_at}

-- The defaults of the columns that an insert does not name.
abbrev user_row : Text → Text → Text → Bool → ℕ → User
user_row username email display_name must_change_password id = record {
  id = id;
  username = username;
  email = email;
  display_name = display_name;
  active = true;
  must_change_password = must_change_password;
  failed_logins = 0;
  locked_until = none;
}

-- `INSERT INTO users`: the name and the address are unique.
unfoldable pub insert_user : (ℕ → User) → Db → Option Db
insert_user u db =
    if exists
      (λ v. text_eq v.username (u db.next_id).username || text_eq v.email (u db.next_id).email)
      db.users
    then none
    else some (record db { users = u db.next_id ∷ db.users; next_id = suc db.next_id })

-- `INSERT INTO password_credentials`: one for each user.
unfoldable pub insert_password : ℕ → Text → Db → Option Db
insert_password user_id hash db =
    if exists (λ c. c.user_id == user_id) db.passwords
    then none
    else some (record db {
      passwords = record { user_id = user_id; password_hash = hash } ∷ db.passwords;
    })

abbrev has_role : ℕ → ℕ → Db → Bool
has_role user_id role_id db =
    exists (λ a. a.user_id == user_id && a.role_id == role_id) db.role_assignments

abbrev pub assigned : ℕ → Role → RoleAssignment
assigned user_id r = record { user_id = user_id; role_id = r.id }

-- `INSERT INTO role_assignments(user_id,role_id) SELECT $1,id FROM roles WHERE name=…`.
unfoldable pub insert_role : ℕ → Text → Db → Option Db
insert_role user_id name db =
    let rs = select (λ r. text_eq r.name name) db.roles in
    if exists (λ r. has_role user_id r.id db) rs
    then none
    else some (record db { role_assignments = map (assigned user_id) rs ++ db.role_assignments })

-- The same with `ON CONFLICT DO NOTHING`.
unfoldable pub grant_role : ℕ → Text → Db → Db
grant_role user_id name db = record db {
  role_assignments =
      map (assigned user_id)
        (select (λ r. text_eq r.name name && not (has_role user_id r.id db)) db.roles)
      ++ db.role_assignments;
}

abbrev set_initialized : Db → Db
set_initialized db = record db { initialized = true }

-- The part of `bootstrap` in the transaction.
unfoldable pub store_bootstrap : (ℕ → User) → Text → Handler
unfolding insert_user insert_password insert_role
store_bootstrap u hash = do
  initialized ←
      or_stop (← query (λ db. db.initialized)) (problem 409 "installation already initialized")
  check (not initialized) (problem 409 "installation already initialized")
  id ←
      or_stop (← insert_returning (λ db. db.next_id) (insert_user u))
        (problem 409 "username or email already exists")
  stored ← try_exec (insert_password id hash)
  check stored (problem 500 "database error")
  granted ← try_exec (insert_role id (codes "Super Admin"))
  check granted (problem 500 "database error")
  marked ← exec set_initialized
  check marked (problem 500 "database error")
  logged ← audit_tx (some id) "USER_CREATED" (Target.user id) true
  check logged (problem 500 "audit error")
  committed ← commit
  check committed (problem 500 "database error")
  pure (respond 201 (created id))

-- `bootstrap`, with the configured token and the header of the request.
unfoldable pub bootstrap : Text → Text → Text → Text → Text → Text → Handler
unfolding check_policy hash_password store_bootstrap
bootstrap token header username email display_name password = do
  check (not (is_empty token)) (problem 403 "bootstrap is disabled")
  check (text_eq header (codes "Bearer " ++ token)) (problem 403 "invalid bootstrap credential")
  name ← ask (λ e. e.to_lower (trim_space username))
  address ← ask (λ e. e.to_lower (trim_space email))
  check (not (ltb (byte_len name) 3 || not (has_at address)))
      (problem 400 "invalid username or email")
  check_policy password
  hash ← or_answer (hash_password password) (problem 400)
  transaction (problem 500 "database error")
      (store_bootstrap (user_row name address (trim_space display_name) false) hash)

-- The part of `createUser` in the transaction.
unfoldable pub store_user : Principal → (ℕ → User) → Text → Handler
unfolding insert_user insert_password grant_role
store_user actor u hash = do
  id ←
      or_stop (← insert_returning (λ db. db.next_id) (insert_user u))
        (problem 409 "username or email already exists")
  stored ← try_exec (insert_password id hash)
  check stored (problem 500 "database error")
  granted ← exec (grant_role id (codes "User"))
  check granted (problem 500 "database error")
  logged ← audit_tx (some actor.user_id) "USER_CREATED" (Target.user id) true
  check logged (problem 500 "audit error")
  committed ← commit
  check committed (problem 500 "database error")
  pure (respond 201 (created id))

-- `createUser`.
unfoldable pub create_user : Principal → Text → Text → Text → Text → Handler
unfolding check_policy hash_password store_user
create_user actor username email display_name password = do
  check_policy password
  hash ← or_answer (hash_password password) (problem 400)
  name ← ask (λ e. e.lower (trim_space username))
  address ← ask (λ e. e.lower (trim_space email))
  transaction (problem 500 "database error")
      (store_user actor (user_row name address (trim_space display_name) true) hash)
