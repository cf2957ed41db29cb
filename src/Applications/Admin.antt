-- ===== src/Applications/Admin.antt =====
-- The assignments of an application, its client secret and its integration data:
-- backend/internal/httpapi/application_admin.go and applications.go.
use open_sso.Prelude.{
  ℕ, Text, codes, text_eq, find, select, exists, count, update_where, map, order_by, ◌==◌, ◌&&◌,
  not, Bool, true, Option, none, some, if◌then◌else◌, List, ◌∷◌,
}
use open_sso.Store.{
  Db, Application, User, Group, ClientRow, RedirectUri, UserAssignment, GroupAssignment, Target,
}
use open_sso.Web.{
  Handler, ◌>>=◌, ◌>>◌, pure, or_stop, check, ask, draw, found, query, query_row, exec, exec_count,
  try_exec, sha256_string, respond, problem, empty, secret, members, integration, Person,
}
use open_sso.Audit.{audit}
use open_sso.Session.{Principal}
use open_sso.Saml.Admin.{saml_application_integration}
use open_sso.Groups.{person_of, named_group}

abbrev user_assigned : ℕ → ℕ → UserAssignment → Bool
user_assigned id user_id a = a.application_id == id && a.user_id == user_id

abbrev group_assigned : ℕ → ℕ → GroupAssignment → Bool
group_assigned id group_id a = a.application_id == id && a.group_id == group_id

-- The two listings of `applicationAssignments`.
unfoldable assigned_users : (Text → Text → Bool) → ℕ → Db → List User
assigned_users before id db =
    order_by (λ u v. before u.username v.username)
      (select (λ u. exists (user_assigned id u.id) db.user_assignments) db.users)

unfoldable assigned_groups : (Text → Text → Bool) → ℕ → Db → List Group
assigned_groups before id db =
    order_by (λ g h. before g.name h.name)
      (select (λ g. exists (group_assigned id g.id) db.group_assignments) db.groups)

-- The listing leaves out whether a user is active.
abbrev assigned_person : User → Person
assigned_person u = record (person_of u) { active = none }

unfoldable pub application_assignments : ℕ → Handler
unfolding assigned_users assigned_groups
application_assignments id = do
  known ←
      or_stop (← query (λ db. exists (λ a. a.id == id) db.applications))
        (problem 404 "application not found")
  check known (problem 404 "application not found")
  before ← ask (λ e. e.before)
  us ← or_stop (← query (assigned_users before id)) (problem 500 "database error")
  gs ← or_stop (← query (assigned_groups before id)) (problem 500 "database error")
  pure (respond 200 (members (map assigned_person us) (map named_group gs)))

-- `INSERT INTO application_user_assignments … ON CONFLICT DO NOTHING`: both have to exist.
unfoldable pub put_user : ℕ → ℕ → Db → Option Db
put_user id user_id db =
    if exists (user_assigned id user_id) db.user_assignments
    then some db
    else if exists (λ a. a.id == id) db.applications && exists (λ u. u.id == user_id) db.users
    then some (record db {
      user_assignments = record { application_id = id; user_id = user_id } ∷ db.user_assignments;
    })
    else none

unfoldable pub put_group : ℕ → ℕ → Db → Option Db
put_group id group_id db =
    if exists (group_assigned id group_id) db.group_assignments
    then some db
    else if exists (λ a. a.id == id) db.applications && exists (λ g. g.id == group_id) db.groups
    then some (record db {
      group_assignments =
          record { application_id = id; group_id = group_id } ∷ db.group_assignments;
    })
    else none

-- The event that ends each of the four changes.
abbrev assignment_changed : Principal → ℕ → Handler
assignment_changed actor id = do
  audit (some actor.user_id) "APPLICATION_ASSIGNMENT_CHANGED" (Target.application id) true
  pure (respond 204 empty)

unfoldable pub assign_application_user : Principal → ℕ → ℕ → Handler
unfolding put_user
assign_application_user actor id user_id = do
  stored ← try_exec (put_user id user_id)
  check stored (problem 400 "invalid application or user")
  assignment_changed actor id

unfoldable pub assign_application_group : Principal → ℕ → ℕ → Handler
unfolding put_group
assign_application_group actor id group_id = do
  stored ← try_exec (put_group id group_id)
  check stored (problem 400 "invalid application or group")
  assignment_changed actor id

unfoldable pub take_user : ℕ → ℕ → Db → Db
take_user id user_id db = record db {
  user_assignments = select (λ a. not (user_assigned id user_id a)) db.user_assignments;
}

unfoldable pub take_group : ℕ → ℕ → Db → Db
take_group id group_id db = record db {
  group_assignments = select (λ a. not (group_assigned id group_id a)) db.group_assignments;
}

unfoldable pub remove_application_user : Principal → ℕ → ℕ → Handler
unfolding take_user
remove_application_user actor id user_id = do
  n ←
      or_stop
        (← exec_count (λ db. count (user_assigned id user_id) db.user_assignments)
          (take_user id user_id))
        (problem 500 "database error")
  check (not (n == 0)) (problem 404 "application assignment not found")
  assignment_changed actor id

unfoldable pub remove_application_group : Principal → ℕ → ℕ → Handler
unfolding take_group
remove_application_group actor id group_id = do
  n ←
      or_stop
        (← exec_count (λ db. count (group_assigned id group_id) db.group_assignments)
          (take_group id group_id))
        (problem 500 "database error")
  check (not (n == 0)) (problem 404 "application assignment not found")
  assignment_changed actor id

-- `UPDATE oauth_clients SET client_secret_hash=$1 WHERE application_id=$2`.
unfoldable pub put_secret : ℕ → Text → Db → Db
put_secret id hash db = record db {
  oauth_clients =
      update_where (λ c. c.application_id == id) (λ c. record c { client_secret_hash = some hash })
        db.oauth_clients;
}

abbrev client_of : ℕ → Db → Option ClientRow
client_of id db = find (λ c. c.application_id == id) db.oauth_clients

unfoldable pub rotate_client_secret : Principal → ℕ → Handler
unfolding put_secret
rotate_client_secret actor id = do
  c ← or_stop (found (← query_row (client_of id))) (problem 404 "application not found")
  check (not c.public_client) (problem 400 "public clients do not have client secrets")
  new ← or_stop (← draw) (problem 500 "entropy failure")
  hash ← ask (λ e. sha256_string e new)
  stored ← exec (put_secret id hash)
  check stored (problem 500 "database error")
  audit (some actor.user_id) "CLIENT_SECRET_ROTATED" (Target.application id) true
  pure (respond 200 (secret new))

-- The URIs of an application in a table, in order.
unfoldable uris_of : (Text → Text → Bool) → ℕ → List RedirectUri → List Text
uris_of before id us =
    order_by before (map (λ u. u.redirect_uri) (select (λ u. u.application_id == id) us))

-- The part of `applicationIntegration` for an OIDC application.
unfoldable pub oidc_integration : ℕ → Handler
unfolding uris_of
oidc_integration id = do
  a ←
      or_stop
        (found
          (← query_row (λ db. elim (client_of id db) [
            | none ↦ none
            | some c ↦ joined c (find (λ a. a.id == id) db.applications)
          ])))
        (problem 404 "application not found")
  before ← ask (λ e. e.before)
  redirects ←
      or_stop (← query (λ db. uris_of before id db.redirect_uris)) (problem 500 "database error")
  logouts ←
      or_stop (← query (λ db. uris_of before id db.post_logout_redirect_uris))
        (problem 500 "database error")
  issuer ← ask (λ e. e.public_url)
  pure (
      respond 200 (
        integration (record {
          name = a.0;
          issuer = issuer;
          client_id = a.1.client_id;
          public_client = a.1.public_client;
          initiate_login_uri = a.1.initiate_login_uri;
          scopes = a.1.allowed_scopes;
          redirect_uris = redirects;
          post_logout_redirect_uris = logouts;
        })))
  where
    joined : ClientRow → Option Application → Option (Text × ClientRow)
    joined c none = none
    joined c (some a) = some (a.name, c)

-- `applicationIntegration`; that of a SAML application is another handler.
unfoldable pub application_integration : ℕ → Handler
unfolding oidc_integration saml_application_integration
application_integration id = do
  a ←
      or_stop (found (← query_row (λ db. find (λ a. a.id == id) db.applications)))
        (problem 404 "application not found")
  (if text_eq a.protocol (codes "saml")
      then saml_application_integration id
      else if text_eq a.protocol (codes "oidc")
      then oidc_integration id
      else pure (problem 404 "unsupported application protocol"))
