-- ===== src/History/Registration.antt =====
-- What the handlers of applications keep.
use open_sso.Prelude.{
  ℕ, Text, Bool, true, false, Option, codes, join_words, List, [], ◌∷◌, Result, ok, err,
}
use open_sso.Web.{◌>>◌, Response, pure, stop, check, problem}
use open_sso.Store.{Db}
use open_sso.Session.{Principal}
use open_sso.Applications.{
  ApplicationInput, check_uris, checked_scopes, create_application, draw_secret, finish,
  insert_application, insert_client, insert_each, insert_post_logout, insert_redirect,
  store_application,
}
use open_sso.Applications.Admin.{
  application_assignments, assign_application_group, assign_application_user, put_group, put_secret,
  put_user, remove_application_group, remove_application_user, rotate_client_secret, take_group,
  take_user,
}
use open_sso.Applications.Update.{edit_application, edit_client, store_update, update_application}
use open_sso.Scope.{ScopeError, contains, normalize_requested_scope}
use open_sso.History.Keeps.{Keeps, Stores}
use open_sso.History.Shared.{keeping}

accepted-Keeps :
    (r : Result ScopeError (Text × List Text))
    → Keeps {E = Response} (elim r [
      | err x ↦ stop (problem 400 "OIDC applications must allow the openid scope")
      | ok v ↦
          check
            (contains (v.1) (codes "openid"))
            (problem 400 "OIDC applications must allow the openid scope")
          >> pure (v.1)
    ])
accepted-Keeps (err x) = search keeping
accepted-Keeps (ok v) = search keeping

pub checked_scopes-Keeps : (allowed : List Text) → Keeps (checked_scopes allowed)
unfolding checked_scopes
checked_scopes-Keeps allowed = accepted-Keeps (normalize_requested_scope (join_words allowed))

pub draw_secret-Keeps : (public_client : Bool) → Keeps (draw_secret public_client)
unfolding draw_secret
draw_secret-Keeps true = search keeping depth 20
draw_secret-Keeps false = search keeping depth 20

pub insert_each-Keeps :
    (insert : Text → Db → Option Db) (h : (uri : Text) (a : Db) → Stores a (insert uri a))
    (uris : List Text)
    → Keeps (insert_each insert uris)
unfolding insert_each
insert_each-Keeps insert h [] = search keeping depth 20
insert_each-Keeps insert h (uri ∷ uris) =
    search (keeping, h uri, insert_each-Keeps insert h uris) depth 40

pub create_application-Keeps :
    (actor : Principal) (i : ApplicationInput) → Keeps (create_application actor i)
unfolding create_application check_uris store_application insert_application insert_client
    insert_redirect insert_post_logout finish
create_application-Keeps actor i =
    search (keeping, checked_scopes-Keeps, draw_secret-Keeps, insert_each-Keeps) depth 40

pub update_application-Keeps :
    (actor : Principal) (id : ℕ) (i : ApplicationInput) → Keeps (update_application actor id i)
unfolding update_application check_uris store_update edit_application edit_client insert_redirect
    insert_post_logout finish
update_application-Keeps actor id i =
    search (keeping, checked_scopes-Keeps, insert_each-Keeps) depth 40

pub application_assignments-Keeps : (id : ℕ) → Keeps (application_assignments id)
unfolding application_assignments
application_assignments-Keeps id = search keeping depth 40

pub assign_application_user-Keeps :
    (actor : Principal) (id user_id : ℕ) → Keeps (assign_application_user actor id user_id)
unfolding assign_application_user put_user
assign_application_user-Keeps actor id user_id = search keeping depth 40

pub assign_application_group-Keeps :
    (actor : Principal) (id group_id : ℕ) → Keeps (assign_application_group actor id group_id)
unfolding assign_application_group put_group
assign_application_group-Keeps actor id group_id = search keeping depth 40

pub remove_application_user-Keeps :
    (actor : Principal) (id user_id : ℕ) → Keeps (remove_application_user actor id user_id)
unfolding remove_application_user take_user
remove_application_user-Keeps actor id user_id = search keeping depth 40

pub remove_application_group-Keeps :
    (actor : Principal) (id group_id : ℕ) → Keeps (remove_application_group actor id group_id)
unfolding remove_application_group take_group
remove_application_group-Keeps actor id group_id = search keeping depth 40

pub rotate_client_secret-Keeps :
    (actor : Principal) (id : ℕ) → Keeps (rotate_client_secret actor id)
unfolding rotate_client_secret put_secret
rotate_client_secret-Keeps actor id = search keeping depth 40
