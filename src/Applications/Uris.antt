-- ===== src/Applications/Uris.antt =====
-- Which URIs the handlers of applications register.
pub mod Steps
mod Create
mod Edit
use open_sso.Prelude.{
  ℕ, String, Text, is_empty, exists, select, trim_space, ◌==◌, ◌≡◌, refl, sym, ◌∙◌, Bool, true,
  false, ◌&&◌, ◌||◌, not, text_eq, Option, none, some, List, [], ◌∷◌, ◌++◌, All, arith, Bool-cases,
  inl, inr,
}
use open_sso.Store.{Db, RedirectUri, Target}
use open_sso.Web.{
  Env, World, M, Handler, Response, exec, check, or_stop, draw, transaction, problem, run, ◌>>=◌,
  ◌>>◌,
}
use open_sso.Web.Invariants.{
  exec-Preserves, bind-Preserves, bind_when-Preserves, check-Preserves, Preserves, Stores, Held,
  held, preserves, preserving,
}
use open_sso.Web.Rules.{Post}
use open_sso.Session.{Principal}
use open_sso.Audit.{audit_tx, insert_event}
use open_sso.Applications.{
  ApplicationInput, valid_url, validate_application_uri, all_valid, check_uris, checked_scopes,
  insert_redirect, insert_post_logout, insert_each, is_uri, insert_application, insert_client,
  finish, store_application, or_default, draw_secret, create_application,
}
use open_sso.Applications.Update.{
  store_update, update_application, edit_application, edit_client, clear_redirects,
  clear_post_logout,
}
use open_sso.Applications.Uris.Steps.{ValidUris}
use open_sso.Applications.Uris.Create.{create_application-Keeps}
use open_sso.Applications.Uris.Edit.{update_application-Keeps}

-- The request of `createApplication`, or that of `updateApplication` for an application.
abbrev pub registering : Principal → Option ℕ → ApplicationInput → Handler
registering actor none i = create_application actor i
registering actor (some id) i = update_application actor id i

-- The creation and the update of an application, whatever they ask for and whichever statement
-- fails, leave URIs for the login and the logout that all have a scheme and a host, no fragment
-- and no asterisk, if they were so before and no transaction was open.
pub registering-ValidUris :
    (actor : Principal) (id : Option ℕ) (i : ApplicationInput) (e : Env) (w : World)
    → w.saved ≡ none
    → ValidUris e w.db
    → ValidUris e (run (registering actor id i) e w).1.db
registering-ValidUris actor none i e w closed h =
    (held (ValidUris e) e (create_application actor i) (create_application-Keeps e actor i) w
      (h, rw closed h)).0
registering-ValidUris actor (some id) i e w closed h =
    (held (ValidUris e) e (update_application actor id i) (update_application-Keeps e actor id i) w
      (h, rw closed h)).0
