-- ===== src/Applications.antt =====
-- The registration of applications: `createApplication` of backend/internal/httpapi/server.go, and
-- the tests that it shares with `updateApplication` of application_admin.go.
use open_sso.Prelude.{
  ℕ, String, suc, Text, codes, text_eq, is_empty, trim_space, join_words, find, select, exists,
  count, update_where, ◌==◌, ◌&&◌, ◌||◌, not, is_some, Bool, true, false, Option, none, some,
  if◌then◌else◌, List, [], ◌∷◌, ◌++◌, Result, ok, err,
}
use open_sso.Store.{Db, Application, ClientRow, RedirectUri, Target}
use open_sso.Web.{
  Env, M, Handler, Response, ◌>>=◌, ◌>>◌, pure, stop, or_stop, check, ask, draw, exec, try_exec,
  try_exec_count, insert_returning, commit, transaction, sha256_string, respond, problem,
  new_application,
}
use open_sso.Audit.{audit_tx}
use open_sso.Session.{Principal}
use open_sso.Scope.{contains, normalize_requested_scope}
pub mod Update
pub mod Admin
pub mod Uris

-- The body of both requests; `enabled` is that of an update, `public_client` that of a creation.
pub record ApplicationInput : Type 0 where
  pub name : Text
  pub enabled : Bool
  pub public_client : Bool
  pub initiate_login_uri : Text
  pub redirect_uris : List Text
  pub post_logout_redirect_uris : List Text
  pub allowed_scopes : List Text

-- The test on an URL: a scheme and a host, no fragment, and no asterisk.
unfoldable pub valid_url : Env → Text → Bool
valid_url e raw = elim (e.parse_url raw) [
  | none ↦ false
  | some u ↦
      not (is_empty (u.0))
      && not (is_empty ((u.1).0))
      && is_empty ((u.1).1)
      && not (exists (λ c. c == b'*') raw)
]

-- `validateApplicationURI`.
unfoldable pub validate_application_uri : Env → Text → Bool
unfolding valid_url
validate_application_uri e raw = not (is_empty raw) && valid_url e raw

-- The loop over the URIs.
unfoldable pub all_valid : (Text → Bool) → List Text → Bool
all_valid valid [] = true
all_valid valid (raw ∷ raws) = valid raw && all_valid valid raws

-- The scopes, normalized; `openid` has to be among them.
unfoldable pub checked_scopes : List Text → M Response (List Text)
unfolding normalize_requested_scope contains
checked_scopes allowed = elim (normalize_requested_scope (join_words allowed)) [
  | err x ↦ stop (problem 400 "OIDC applications must allow the openid scope")
  | ok r ↦
      check (contains (r.1) (codes "openid"))
        (problem 400 "OIDC applications must allow the openid scope")
      >> pure (r.1)
]

-- The tests that both handlers make on the URIs.
unfoldable pub check_uris : (Env → Text → Bool) → ApplicationInput → M Response (Unit {0})
unfolding all_valid
check_uris valid i = do
  uris ← ask (λ e. all_valid (valid e) (i.redirect_uris ++ i.post_logout_redirect_uris))
  check uris (problem 400 "invalid redirect URI")
  start ← ask (λ e. is_empty i.initiate_login_uri || valid e i.initiate_login_uri)
  check start (problem 400 "invalid initiate_login_uri")

-- `NULLIF($1,'')`.
abbrev pub null_if_empty : Text → Option Text
null_if_empty [] = none
null_if_empty (c ∷ s) = some (c ∷ s)

-- `INSERT INTO applications`: the name is unique.
unfoldable pub insert_application : Text → Db → Option Db
insert_application name db =
    if exists (λ a. text_eq a.name name) db.applications
    then none
    else some (record db {
      applications =
          record { id = db.next_id; name = name; protocol = codes "oidc"; enabled = true }
          ∷ db.applications;
      next_id = suc db.next_id;
    })

-- `INSERT INTO oauth_clients`, with the lifetimes that the columns default to.
unfoldable pub insert_client :
    ℕ → Text → Option Text → Bool → List Text → Option Text → Db → Option Db
insert_client id client_id secret_hash public_client scopes initiate db =
    if exists (λ c. c.application_id == id || text_eq c.client_id client_id) db.oauth_clients
    then none
    else some (record db {
      oauth_clients =
          record {
            application_id = id;
            client_id = client_id;
            client_secret_hash = secret_hash;
            public_client = public_client;
            require_pkce = true;
            allowed_scopes = scopes;
            access_token_ttl = 900;
            id_token_ttl = 900;
            refresh_token_ttl = 2_592_000;
            initiate_login_uri = initiate;
          }
          ∷ db.oauth_clients;
    })

abbrev pub is_uri : ℕ → Text → RedirectUri → Bool
is_uri id uri u = u.application_id == id && text_eq u.redirect_uri uri

-- The two inserts of an URI: each is unique for an application.
unfoldable pub insert_redirect : ℕ → Text → Db → Option Db
insert_redirect id uri db =
    if exists (is_uri id uri) db.redirect_uris
    then none
    else some (record db {
      redirect_uris = record { application_id = id; redirect_uri = uri } ∷ db.redirect_uris;
    })

unfoldable pub insert_post_logout : ℕ → Text → Db → Option Db
insert_post_logout id uri db =
    if exists (is_uri id uri) db.post_logout_redirect_uris
    then none
    else some (record db {
      post_logout_redirect_uris =
          record { application_id = id; redirect_uri = uri } ∷ db.post_logout_redirect_uris;
    })

-- The loops over the URIs to insert.
unfoldable pub insert_each : (Text → Db → Option Db) → List Text → M Response (Unit {0})
insert_each insert [] = pure tt
insert_each insert (uri ∷ uris) = do
  stored ← try_exec (insert uri)
  check stored (problem 500 "database error")
  insert_each insert uris

-- The end of both transactions.
unfoldable pub finish : Principal → ℕ → String → Response → Handler
finish actor id event response = do
  logged ← audit_tx (some actor.user_id) event (Target.application id) true
  check logged (problem 500 "audit error")
  committed ← commit
  check committed (problem 500 "database error")
  pure response

-- The part of `createApplication` in the transaction.
unfoldable pub store_application :
    Principal → ApplicationInput → List Text → Text → Text → Option Text → Handler
unfolding insert_application insert_client insert_redirect insert_post_logout insert_each finish
store_application actor i scopes client_id secret secret_hash = do
  id ←
      or_stop (← insert_returning (λ db. db.next_id) (insert_application (trim_space i.name)))
        (problem 409 "application already exists")
  stored ← try_exec (
      insert_client id client_id secret_hash i.public_client scopes
        (null_if_empty (trim_space i.initiate_login_uri)))
  check stored (problem 500 "database error")
  insert_each (insert_redirect id) i.redirect_uris
  insert_each (insert_post_logout id) i.post_logout_redirect_uris
  finish actor id "APPLICATION_CREATED" (
      respond 201 (
        new_application (record {
          id = id;
          client_id = client_id;
          client_secret = secret;
          allowed_scopes = scopes;
          initiate_login_uri = trim_space i.initiate_login_uri;
        })))

-- A secret with its hash; a public client has none.
unfoldable pub draw_secret : Bool → M Response (Text × Option Text)
draw_secret true = pure ([], none)
draw_secret false = do
  secret ← or_stop (← draw) (problem 500 "entropy failure")
  hash ← ask (λ e. sha256_string e secret)
  pure (secret, null_if_empty hash)

-- The scopes of a request that names none.
abbrev pub or_default : List Text → List Text
or_default [] = codes "openid" ∷ codes "profile" ∷ codes "email" ∷ codes "groups" ∷ []
or_default (s ∷ ss) = s ∷ ss

-- `createApplication`.
unfoldable pub create_application : Principal → ApplicationInput → Handler
unfolding check_uris valid_url checked_scopes draw_secret store_application
create_application actor i = do
  check (not (is_empty i.redirect_uris)) (problem 400 "at least one redirect URI is required")
  check_uris valid_url i
  scopes ← checked_scopes (or_default i.allowed_scopes)
  client_id ← or_stop (← draw) (problem 500 "entropy failure")
  (secret, hash) ← draw_secret i.public_client
  transaction (problem 500 "database error")
      (store_application actor i scopes client_id secret hash)
