-- ===== src/History/Saml.antt =====
-- What the handlers and the storage of SAML keep, and the handlers of the login page.
use open_sso.Prelude.{
  ℕ, Text, String, text_eq, exists, not, is_some, ◌==◌, ◌||◌, Bool, true, Option, none, some,
  update_where, ◌≡◌, ◌∷◌, refl, arith, Bool-cases, inl, inr, Result, ok, err,
}
use open_sso.Store.{Db, SamlRequest, SamlCertificate, LoginUi}
use open_sso.Web.{Row, failed, no_rows, row}
use open_sso.Session.{Principal}
use open_sso.Applications.{finish}
use open_sso.Applications.Admin.{application_integration, oidc_integration}
use open_sso.Branding.{
  public_login_ui, admin_login_ui, update_login_ui, reset_login_ui, store_login_ui, put_login_ui,
}
use open_sso.Saml.Requests.{
  AuthnRequest, SamlError, not_found, not_completed, storage_failure, denied, insert_saml_request,
  answer_request, complete_request, or_not_found, one_written, lookup, take_found, bind_found,
  take_request, bind_request, auth_request_by_id, finalize_auth_request, create_auth_request,
}
use open_sso.Saml.Certificates.{
  generate_saml, new_certificate, encrypt_saml_key, replace_certificate, store_certificate,
  rotate_certificate, use_certificate, active_certificate, list_certificates, retire_certificates,
  insert_certificate,
}
use open_sso.Saml.Admin.{
  SamlInput, or_bad_request, check_saml_input, insert_saml_application, insert_provider,
  store_saml_application, create_saml_application, edit_saml_application, edit_provider,
  store_saml_update, update_saml_application, saml_application_integration, saml_certificates,
  rotate_saml_certificate, refuse_continue, continue_saml,
}
use open_sso.History.Flags.{flagged-update, flagged-insert}
use open_sso.History.Guarded.{Guarded, answers-Guarded, is_answered}
use open_sso.History.Keeps.{Keeps, Stores, quiet}
use open_sso.History.Shared.{keeping}

-- An update of requests that answers some, or none.
update_requests :
    (q : SamlRequest → Bool) (g : SamlRequest → SamlRequest)
    → ((r : SamlRequest) → (g r).request_key ≡ r.request_key)
    → ((r : SamlRequest) → not (is_some r.consumed_at) || is_some (g r).consumed_at ≡ true)
    → (a : Db) → Guarded a (record a { saml_requests = update_where q g a.saml_requests })
unfolding is_answered
update_requests q g same mono a = answers-Guarded a (update_where q g a.saml_requests) (λ x.
    flagged-update (λ r. r.request_key) (λ r. is_some r.consumed_at) q g same mono x
      a.saml_requests)

answer_request-Guarded : (key : Text) (now : ℕ) (a : Db) → Guarded a (answer_request key now a)
unfolding answer_request
answer_request-Guarded key now a =
    update_requests _ (λ r. record r { consumed_at = some now }) (λ r. refl) (λ r. ground arith) a

complete_request-Guarded :
    (key : Text) (user_id now : ℕ) (a : Db) → Guarded a (complete_request key user_id now a)
unfolding complete_request
complete_request-Guarded key user_id now a =
    update_requests _ (λ r. record r { user_id = some user_id; completed_at = some now })
      (λ r. refl) (λ r. ground arith) a

insert_saml_request-Stores : (q : SamlRequest) (a : Db) → Stores a (insert_saml_request q a)
unfolding insert_saml_request is_answered
insert_saml_request-Stores q a =
    elim (Bool-cases (exists (λ p. text_eq p.request_key q.request_key) a.saml_requests)) [
      | inl h ↦ rw (h, ◌||◌) tt
      | inr h ↦
          elim (Bool-cases (
            exists (λ p. text_eq p.saml_request_id q.saml_request_id) a.saml_requests
            || not (exists (λ x. x.id == q.application_id) a.applications))) [
              | inl i ↦ rw (h, i, ◌||◌) tt
              | inr i ↦
                  rw (h, i, ◌||◌)
                    (answers-Guarded a (q ∷ a.saml_requests) (λ x.
                      flagged-insert (λ p. p.request_key) (λ p. is_some p.consumed_at) q x
                        a.saml_requests h))
            ]
    ]

or_not_found-Keeps : (r : Row SamlRequest) → Keeps (or_not_found r)
or_not_found-Keeps failed = search keeping
or_not_found-Keeps no_rows = search keeping
or_not_found-Keeps (row q) = search keeping

one_written-Keeps : (n : Option ℕ) → Keeps (one_written n)
one_written-Keeps none = search keeping
one_written-Keeps (some n) = search keeping depth 20

ruleset of_requests = (
  keeping, answer_request-Guarded, complete_request-Guarded, insert_saml_request-Stores,
  or_not_found-Keeps, one_written-Keeps,
)

pub create_auth_request-Keeps :
    (request : Option AuthnRequest) (acs_url binding relay_state : Text) (application_id : ℕ)
    → Keeps (create_auth_request request acs_url binding relay_state application_id)
unfolding create_auth_request
create_auth_request-Keeps request acs_url binding relay_state application_id =
    search of_requests depth 60

pub auth_request_by_id-Keeps : (key : Text) → Keeps (auth_request_by_id key)
unfolding auth_request_by_id take_request take_found lookup
auth_request_by_id-Keeps key = search of_requests depth 40

finalize_auth_request-Keeps : (key : Text) (user_id : ℕ) → Keeps (finalize_auth_request key user_id)
unfolding finalize_auth_request bind_request bind_found lookup
finalize_auth_request-Keeps key user_id = search of_requests depth 40

generate_saml-Keeps : Keeps generate_saml
generate_saml-Keeps = quiet (λ e w. (refl, refl))

new_certificate-Keeps : Keeps new_certificate
unfolding new_certificate encrypt_saml_key
new_certificate-Keeps = search (keeping, generate_saml-Keeps) depth 60

pub rotate_certificate-Keeps : Keeps rotate_certificate
unfolding rotate_certificate replace_certificate store_certificate insert_certificate
    retire_certificates
rotate_certificate-Keeps = search (keeping, new_certificate-Keeps) depth 60

use_certificate-Keeps : (r : Row SamlCertificate) → Keeps (use_certificate r)
unfolding use_certificate
use_certificate-Keeps failed = search keeping
use_certificate-Keeps no_rows = rotate_certificate-Keeps
use_certificate-Keeps (row c) = search (keeping, rotate_certificate-Keeps) depth 20

pub active_certificate-Keeps : Keeps active_certificate
unfolding active_certificate
active_certificate-Keeps = search (keeping, use_certificate-Keeps)

or_bad_request-Keeps : {A : Type 0} (r : Result String A) → Keeps (or_bad_request r)
or_bad_request-Keeps (err x) = search keeping
or_bad_request-Keeps (ok a) = search keeping

check_saml_input-Keeps : (i : SamlInput) → Keeps (check_saml_input i)
unfolding check_saml_input
check_saml_input-Keeps i = search (keeping, or_bad_request-Keeps) depth 20

pub create_saml_application-Keeps :
    (actor : Principal) (i : SamlInput) → Keeps (create_saml_application actor i)
unfolding create_saml_application store_saml_application insert_saml_application insert_provider
    finish
create_saml_application-Keeps actor i = search (keeping, check_saml_input-Keeps) depth 60

pub update_saml_application-Keeps :
    (actor : Principal) (id : ℕ) (i : SamlInput) → Keeps (update_saml_application actor id i)
unfolding update_saml_application store_saml_update edit_saml_application edit_provider finish
update_saml_application-Keeps actor id i = search (keeping, check_saml_input-Keeps) depth 60

pub saml_application_integration-Keeps : (id : ℕ) → Keeps (saml_application_integration id)
unfolding saml_application_integration
saml_application_integration-Keeps id = search keeping depth 40

pub saml_certificates-Keeps : Keeps saml_certificates
unfolding saml_certificates list_certificates
saml_certificates-Keeps = search keeping depth 40

pub rotate_saml_certificate-Keeps : (actor : Principal) → Keeps (rotate_saml_certificate actor)
unfolding rotate_saml_certificate list_certificates
rotate_saml_certificate-Keeps actor = search (keeping, rotate_certificate-Keeps) depth 40

refuse_continue-Keeps : (actor : Principal) (x : SamlError) → Keeps (refuse_continue actor x)
unfolding refuse_continue
refuse_continue-Keeps actor not_found = search keeping
refuse_continue-Keeps actor (denied id) = search keeping
refuse_continue-Keeps actor not_completed = search keeping
refuse_continue-Keeps actor storage_failure = search keeping

pub continue_saml-Keeps : (actor : Principal) (raw : Text) → Keeps (continue_saml actor raw)
unfolding continue_saml
continue_saml-Keeps actor raw =
    search (keeping, finalize_auth_request-Keeps, refuse_continue-Keeps) depth 40

oidc_integration-Keeps : (id : ℕ) → Keeps (oidc_integration id)
unfolding oidc_integration
oidc_integration-Keeps id = search keeping depth 40

pub application_integration-Keeps : (id : ℕ) → Keeps (application_integration id)
unfolding application_integration
application_integration-Keeps id =
    search (keeping, oidc_integration-Keeps, saml_application_integration-Keeps) depth 40

pub public_login_ui-Keeps : Keeps public_login_ui
unfolding public_login_ui
public_login_ui-Keeps = search keeping depth 40

pub admin_login_ui-Keeps : Keeps admin_login_ui
unfolding admin_login_ui
admin_login_ui-Keeps = search keeping depth 40

store_login_ui-Keeps :
    (actor : Principal) (r : Result String LoginUi) → Keeps (store_login_ui actor r)
unfolding store_login_ui put_login_ui
store_login_ui-Keeps actor (err x) = search keeping
store_login_ui-Keeps actor (ok i) = search keeping depth 40

pub update_login_ui-Keeps : (actor : Principal) (i : LoginUi) → Keeps (update_login_ui actor i)
unfolding update_login_ui
update_login_ui-Keeps actor i = search (keeping, store_login_ui-Keeps) depth 40

pub reset_login_ui-Keeps : (actor : Principal) → Keeps (reset_login_ui actor)
unfolding reset_login_ui put_login_ui
reset_login_ui-Keeps actor = search keeping depth 40
