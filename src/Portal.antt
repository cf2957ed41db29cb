-- ===== src/Portal.antt =====
-- What a user sees and does in the portal: backend/internal/httpapi/portal.go.
use open_sso.Prelude.{
  ℕ, Text, text_eq, trim_space, find, select, exists, count, update_where, map, order_by, ltb,
  coalesce, ◌==◌, ◌&&◌, ◌||◌, not, is_some, Bool, true, Option, none, some, if◌then◌else◌, List, [],
}
use open_sso.Store.{Db, Permission, Session, Application, Target}
use open_sso.Web.{
  Handler, Person, PortalEntry, SessionInfo, ◌>>=◌, ◌>>◌, pure, or_stop, check, ask, found, query,
  query_row, exec_count, try_exec_count, respond, problem, empty, person, access, portal,
  open_sessions,
}
use open_sso.Audit.{audit}
use open_sso.Session.{Principal}
use open_sso.Groups.{person_of}
use open_sso.Roles.{roles_of}
use open_sso.Users.{change_user, rows_of, has_at}

-- The permissions of a user, in the order of their names.
unfoldable permissions_of : (Text → Text → Bool) → ℕ → Db → List Permission
permissions_of before user_id db =
    order_by (λ p q. before p.name q.name)
      (select
        (λ p.
          exists
            (λ a.
              a.user_id == user_id
              && exists (λ rp. rp.role_id == a.role_id && rp.permission_id == p.id)
                  db.role_permissions)
            db.role_assignments)
        db.permissions)

unfoldable pub my_access : Principal → Handler
unfolding roles_of permissions_of
my_access p = do
  before ← ask (λ e. e.before)
  rs ← or_stop (← query (roles_of before p.user_id)) (problem 500 "database error")
  ps ← or_stop (← query (permissions_of before p.user_id)) (problem 500 "database error")
  pure (respond 200 (access (map (λ r. r.name) rs) (map (λ q. q.name) ps)))

unfoldable pub my_profile : Principal → Handler
my_profile p = do
  u ←
      or_stop (found (← query_row (λ db. find (λ u. u.id == p.user_id) db.users)))
        (problem 404 "user not found")
  pure (respond 200 (person (record (person_of u) { active = none })))

-- `UPDATE users SET email=$1,display_name=$2 WHERE id=$3`: the address is unique.
unfoldable pub edit_profile : ℕ → Text → Text → Db → Option Db
unfolding change_user
edit_profile id email display_name db =
    if exists (λ u. u.id == id) db.users
      && exists (λ u. not (u.id == id) && text_eq u.email email) db.users
    then none
    else some (change_user id (λ u. record u { email = email; display_name = display_name }) db)

-- The answer of `updateMyProfile`, which does not show the name.
abbrev own_profile : ℕ → Text → Text → Person
own_profile id email display_name = record {
  id = id;
  username = [];
  email = email;
  display_name = display_name;
  active = none;
}

unfoldable pub update_my_profile : Principal → Text → Text → Handler
unfolding edit_profile
update_my_profile p email display_name = do
  address ← ask (λ e. e.to_lower (trim_space email))
  check (has_at address) (problem 400 "invalid email")
  n ←
      or_stop
        (← try_exec_count (rows_of p.user_id)
          (edit_profile p.user_id address (trim_space display_name)))
        (problem 409 "email already exists or profile update failed")
  check (not (n == 0)) (problem 404 "user not found")
  audit (some p.user_id) "USER_UPDATED" (Target.user p.user_id) true
  pure (respond 200 (person (own_profile p.user_id address (trim_space display_name))))

abbrev session_info : Session → SessionInfo
session_info s = record { id = s.id; last_seen_at = s.last_seen_at; expires_at = s.expires_at }

-- The sessions of a user that are neither revoked nor expired, the last one seen first.
unfoldable live_sessions : ℕ → ℕ → Db → List Session
live_sessions now user_id db =
    order_by (λ s t. not (ltb s.last_seen_at t.last_seen_at))
      (select (λ s. s.user_id == user_id && not (is_some s.revoked_at) && ltb now s.expires_at)
        db.sessions)

unfoldable pub my_sessions : Principal → Handler
unfolding live_sessions
my_sessions p = do
  now ← ask (λ e. e.db_now)
  ss ← or_stop (← query (live_sessions now p.user_id)) (problem 500 "database error")
  pure (respond 200 (open_sessions (map session_info ss)))

abbrev own_session : ℕ → ℕ → Session → Bool
own_session id user_id s = s.id == id && s.user_id == user_id && not (is_some s.revoked_at)

-- `UPDATE sessions SET revoked_at=now() WHERE id=$1 AND user_id=$2 AND revoked_at IS NULL`.
unfoldable pub end_own_session : ℕ → ℕ → ℕ → Db → Db
end_own_session now id user_id db = record db {
  sessions =
      update_where (own_session id user_id) (λ s. record s { revoked_at = some now }) db.sessions;
}

unfoldable pub revoke_my_session : Principal → ℕ → Handler
unfolding end_own_session
revoke_my_session p id = do
  now ← ask (λ e. e.db_now)
  n ←
      or_stop
        (← exec_count (λ db. count (own_session id p.user_id) db.sessions)
          (end_own_session now id p.user_id))
        (problem 500 "database error")
  check (not (n == 0)) (problem 404 "active session not found")
  audit (some p.user_id) "SESSION_REVOKED" (Target.session id) true
  pure (respond 204 empty)

-- The user is assigned, or one of the user's groups is.
unfoldable pub is_entitled : ℕ → ℕ → Db → Bool
is_entitled user_id application_id db =
    exists (λ a. a.application_id == application_id && a.user_id == user_id) db.user_assignments
    || exists
        (λ a.
          a.application_id == application_id
          && exists (λ m. m.group_id == a.group_id && m.user_id == user_id) db.memberships)
        db.group_assignments

-- The two left joins: the identifier and the URL to start at, of a client or of a SAML provider.
unfoldable entry : Db → Application → PortalEntry
entry db a =
    let c = find (λ c. c.application_id == a.id) db.oauth_clients in
    let sp = find (λ p. p.application_id == a.id) db.saml_service_providers in
    record {
      id = a.id;
      name = a.name;
      protocol = a.protocol;
      client_id = elim c [
        | some x ↦ x.client_id
        | none ↦ elim sp [ some y ↦ y.entity_id | none ↦ [] ]
      ];
      launch_url =
          coalesce (elim c [ some x ↦ x.initiate_login_uri | none ↦ none ])
            (coalesce (elim sp [ some y ↦ y.initiate_login_uri | none ↦ none ]) []);
    }

unfoldable pub entries : (Text → Text → Bool) → ℕ → Db → List PortalEntry
unfolding is_entitled entry
entries before user_id db = map (entry db) (
    order_by (λ a b. before a.name b.name)
      (select (λ a. a.enabled && is_entitled user_id a.id db) db.applications))

unfoldable pub my_applications : Principal → Handler
unfolding entries
my_applications p = do
  before ← ask (λ e. e.before)
  es ← or_stop (← query (entries before p.user_id)) (problem 500 "database error")
  pure (respond 200 (portal es))
