-- ===== src/Applications/Update.antt =====
-- `updateApplication` of backend/internal/httpapi/application_admin.go.
use open_sso.Prelude.{
  ℕ, Text, text_eq, is_empty, trim_space, select, exists, count, update_where, ◌==◌, ◌&&◌, ◌||◌,
  not, Bool, Option, none, some, if◌then◌else◌, List, [],
}
use open_sso.Store.{Db}
use open_sso.Web.{
  Handler, ◌>>=◌, ◌>>◌, or_stop, check, exec, try_exec_count, transaction, respond, problem,
  new_application,
}
use open_sso.Session.{Principal}
use open_sso.Applications.{
  ApplicationInput, validate_application_uri, checked_scopes, check_uris, null_if_empty,
  insert_redirect, insert_post_logout, insert_each, finish,
}

abbrev applications_of : ℕ → Db → ℕ
applications_of id db = count (λ a. a.id == id) db.applications

-- `UPDATE applications SET name=$1,enabled=$2 WHERE id=$3`.
unfoldable pub edit_application : ℕ → Text → Bool → Db → Option Db
edit_application id name enabled db =
    if exists (λ a. a.id == id) db.applications
      && exists (λ a. not (a.id == id) && text_eq a.name name) db.applications
    then none
    else some (record db {
      applications =
          update_where (λ a. a.id == id) (λ a. record a { name = name; enabled = enabled })
            db.applications;
    })

-- `UPDATE oauth_clients SET initiate_login_uri=$1,allowed_scopes=$2 WHERE application_id=$3`.
unfoldable pub edit_client : ℕ → Option Text → List Text → Db → Db
edit_client id initiate scopes db = record db {
  oauth_clients =
      update_where (λ c. c.application_id == id)
        (λ c. record c { initiate_login_uri = initiate; allowed_scopes = scopes }) db.oauth_clients;
}

abbrev pub clear_redirects : ℕ → Db → Db
clear_redirects id db = record db {
  redirect_uris = select (λ u. not (u.application_id == id)) db.redirect_uris;
}

abbrev pub clear_post_logout : ℕ → Db → Db
clear_post_logout id db = record db {
  post_logout_redirect_uris =
      select (λ u. not (u.application_id == id)) db.post_logout_redirect_uris;
}

-- The part of `updateApplication` in the transaction; the answer names the application.
unfoldable pub store_update : Principal → ℕ → ApplicationInput → List Text → Handler
unfolding edit_application edit_client insert_redirect insert_post_logout insert_each finish
store_update actor id i scopes = do
  n ←
      or_stop
        (← try_exec_count (applications_of id) (edit_application id (trim_space i.name) i.enabled))
        (problem 409 "application name already exists or update failed")
  check (not (n == 0)) (problem 404 "application not found")
  stored ← exec (edit_client id (null_if_empty i.initiate_login_uri) scopes)
  check stored (problem 500 "database error")
  cleared ← exec (clear_redirects id)
  check cleared (problem 500 "database error")
  insert_each (insert_redirect id) i.redirect_uris
  emptied ← exec (clear_post_logout id)
  check emptied (problem 500 "database error")
  insert_each (insert_post_logout id) i.post_logout_redirect_uris
  finish actor id "APPLICATION_UPDATED" (
      respond 200 (
        new_application (record {
          id = id;
          client_id = [];
          client_secret = [];
          allowed_scopes = scopes;
          initiate_login_uri = i.initiate_login_uri;
        })))

-- `updateApplication`.
unfoldable pub update_application : Principal → ℕ → ApplicationInput → Handler
unfolding check_uris validate_application_uri checked_scopes store_update
update_application actor id i = do
  check (not (is_empty (trim_space i.name) || is_empty i.redirect_uris))
      (problem 400 "application name and at least one redirect URI are required")
  check_uris validate_application_uri i
  check (not (is_empty i.allowed_scopes)) (problem 400 "at least one allowed scope is required")
  scopes ← checked_scopes i.allowed_scopes
  transaction (problem 500 "database error") (store_update actor id i scopes)
