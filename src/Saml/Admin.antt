-- ===== src/Saml/Admin.antt =====
-- The handlers of backend/internal/httpapi/saml_admin.go.
use open_sso.Prelude.{
  ℕ, suc, String, Text, codes, text_eq, is_empty, trim_space, trim_slashes, byte_len, find, exists,
  count, update_where, ltb, ◌==◌, ◌&&◌, ◌||◌, not, Bool, true, false, Option, none, some,
  if◌then◌else◌, ◌∷◌, ◌++◌, Result, ok, err,
}
use open_sso.Store.{Db, Application, SamlProvider, Target}
use open_sso.Web.{
  Env, M, Handler, Response, ◌>>=◌, ◌>>◌, pure, stop, or_stop, or_else, attempt, check, ask, found,
  query_row, try_exec, try_exec_count, insert_returning, transaction, respond, problem,
  saml_application, saml_integration, certificates, callback_url,
}
use open_sso.Audit.{audit}
use open_sso.Session.{Principal}
use open_sso.Applications.{null_if_empty, finish}
use open_sso.Saml.Metadata.{validate_metadata}
use open_sso.Saml.Requests.{
  SamlError, not_found, not_completed, storage_failure, denied, finalize_auth_request,
}
use open_sso.Saml.Certificates.{rotate_certificate, list_certificates}

-- The body of both requests; `enabled` is that of an update.
pub record SamlInput : Type 0 where
  pub name : Text
  pub enabled : Bool
  pub initiate_login_uri : Text
  pub metadata_xml : Text
  pub require_signed : Bool

-- `validateSAMLInitiateLoginURI`: whether it returns no error.
unfoldable valid_initiate_uri : Env → Text → Bool
valid_initiate_uri e raw =
    let s = trim_space raw in
    is_empty s || elim (e.parse_url s) [
      | none ↦ false
      | some u ↦ not (is_empty u.0) && not (is_empty (u.1).0) && is_empty (u.1).1
    ]

-- The error of a validation is answered with 400.
abbrev pub or_bad_request : {A : Type 0} → Result String A → M Response A
or_bad_request (err x) = stop (problem 400 x)
or_bad_request (ok a) = pure a

-- The tests that both handlers make; the entity id.
unfoldable pub check_saml_input : SamlInput → M Response Text
unfolding valid_initiate_uri validate_metadata
check_saml_input i = do
  check (not (is_empty (trim_space i.name))) (problem 400 "application name is required")
  valid ← ask (λ e. valid_initiate_uri e (trim_space i.initiate_login_uri))
  check valid (problem 400 "invalid initiate_login_uri")
  or_bad_request (← ask (λ e. validate_metadata e i.metadata_xml))

-- `INSERT INTO applications(name,protocol) VALUES($1,'saml')`: the name is unique.
unfoldable pub insert_saml_application : Text → Db → Option Db
insert_saml_application name db =
    if exists (λ a. text_eq a.name name) db.applications
    then none
    else some (record db {
      applications =
          record { id = db.next_id; name = name; protocol = codes "saml"; enabled = true }
          ∷ db.applications;
      next_id = suc db.next_id;
    })

-- `INSERT INTO saml_service_providers`: one for an application, and the entity id is unique.
unfoldable pub insert_provider : SamlProvider → Db → Option Db
insert_provider sp db =
    if exists (λ p. p.application_id == sp.application_id || text_eq p.entity_id sp.entity_id)
      db.saml_service_providers
    then none
    else some (record db { saml_service_providers = sp ∷ db.saml_service_providers })

-- The row for an input.
unfoldable provider_row : SamlInput → Text → ℕ → SamlProvider
provider_row i entity_id id = record {
  application_id = id;
  entity_id = entity_id;
  metadata_xml = i.metadata_xml;
  require_signed = i.require_signed;
  initiate_login_uri = null_if_empty (trim_space i.initiate_login_uri);
}

-- The answer of both handlers.
abbrev registered_reply : SamlInput → Text → ℕ → Option Bool → Response
registered_reply i entity_id id enabled =
    respond (elim enabled [ none ↦ 201 | some _ ↦ 200 ])
      (saml_application (record {
        id = id;
        entity_id = entity_id;
        enabled = enabled;
        require_signed = i.require_signed;
        initiate_login_uri = trim_space i.initiate_login_uri;
      }))

-- The part of `createSAMLApplication` in the transaction.
unfoldable pub store_saml_application : Principal → SamlInput → Text → Handler
unfolding insert_saml_application insert_provider provider_row finish
store_saml_application actor i entity_id = do
  id ←
      or_stop (← insert_returning (λ db. db.next_id) (insert_saml_application (trim_space i.name)))
        (problem 409 "application name already exists")
  stored ← try_exec (insert_provider (provider_row i entity_id id))
  check stored (problem 409 "SAML entityID already exists or metadata cannot be stored")
  finish actor id "SAML_APPLICATION_CREATED" (registered_reply i entity_id id none)

unfoldable pub create_saml_application : Principal → SamlInput → Handler
unfolding check_saml_input store_saml_application
create_saml_application actor i = do
  entity_id ← check_saml_input i
  transaction (problem 500 "database error") (store_saml_application actor i entity_id)

-- `… WHERE id=$3 AND protocol='saml'`.
abbrev is_saml : ℕ → Application → Bool
is_saml id a = a.id == id && text_eq a.protocol (codes "saml")

-- `UPDATE applications`: the name of another application must not be taken.
unfoldable pub edit_saml_application : ℕ → Text → Bool → Db → Option Db
edit_saml_application id name enabled db =
    if exists (is_saml id) db.applications
      && exists (λ a. text_eq a.name name && not (a.id == id)) db.applications
    then none
    else some (record db {
      applications =
          update_where (is_saml id) (λ a. record a { name = name; enabled = enabled })
            db.applications;
    })

-- `UPDATE saml_service_providers`: the entity id of another one must not be taken.
unfoldable pub edit_provider : SamlProvider → Db → Option Db
edit_provider sp db =
    if exists (λ p. p.application_id == sp.application_id) db.saml_service_providers
      && exists
          (λ p. text_eq p.entity_id sp.entity_id && not (p.application_id == sp.application_id))
          db.saml_service_providers
    then none
    else some (record db {
      saml_service_providers =
          update_where (λ p. p.application_id == sp.application_id) (λ _. sp)
            db.saml_service_providers;
    })

-- The part of `updateSAMLApplication` in the transaction.
unfoldable pub store_saml_update : Principal → ℕ → SamlInput → Text → Handler
unfolding edit_saml_application edit_provider provider_row finish
store_saml_update actor id i entity_id = do
  n ←
      or_stop
        (← try_exec_count (λ db. count (is_saml id) db.applications)
          (edit_saml_application id (trim_space i.name) i.enabled))
        (problem 409 "application name already exists or update failed")
  check (n == 1) (problem 404 "SAML application not found")
  stored ← try_exec (edit_provider (provider_row i entity_id id))
  check stored (problem 409 "SAML entityID already exists or update failed")
  finish actor id "SAML_APPLICATION_UPDATED" (registered_reply i entity_id id (some i.enabled))

unfoldable pub update_saml_application : Principal → ℕ → SamlInput → Handler
unfolding check_saml_input store_saml_update
update_saml_application actor id i = do
  entity_id ← check_saml_input i
  transaction (problem 500 "database error") (store_saml_update actor id i entity_id)

-- The join of `samlApplicationIntegration`.
unfoldable find_saml : ℕ → Db → Option (Application × SamlProvider)
find_saml id db = elim (find (is_saml id) db.applications) [
  | none ↦ none
  | some a ↦ elim (find (λ p. p.application_id == id) db.saml_service_providers) [
    | none ↦ none
    | some p ↦ some (a, p)
  ]
]

unfoldable pub saml_application_integration : ℕ → Handler
unfolding find_saml
saml_application_integration id = do
  r ← or_stop (found (← query_row (find_saml id))) (problem 404 "SAML application not found")
  pure (
      respond 200 (
        saml_integration (record {
          id = id;
          name = r.0.name;
          enabled = r.0.enabled;
          sp_entity_id = r.1.entity_id;
          sp_metadata_xml = r.1.metadata_xml;
          require_signed = r.1.require_signed;
          initiate_login_uri = r.1.initiate_login_uri;
        })))

unfoldable pub saml_certificates : Handler
unfolding list_certificates
saml_certificates = do
  items ← or_stop (← list_certificates) (problem 500 "failed to read SAML certificate metadata")
  pure (respond 200 (certificates items))

unfoldable pub rotate_saml_certificate : Principal → Handler
unfolding rotate_certificate list_certificates
rotate_saml_certificate actor = do
  _ ←
      or_stop (← attempt rotate_certificate)
        (problem 500 "SAML signing certificate rotation failed")
  audit (some actor.user_id) "SAML_CERTIFICATE_ROTATED" Target.saml_certificate true
  items ←
      or_stop (← list_certificates)
        (problem 500 "SAML certificate rotated but metadata lookup failed")
  pure (respond 201 (certificates items))

-- What `continueSAML` answers to each error of `FinalizeAuthRequest`.
unfoldable pub refuse_continue : Principal → SamlError → M Response ℕ
refuse_continue actor not_found =
    stop (problem 404 "SAML authentication request not found or expired")
refuse_continue actor (denied id) = do
  audit (some actor.user_id) "SAML_LOGIN_DENIED" (Target.application id) false
  stop (problem 403 "user is not assigned to this SAML application")
refuse_continue actor not_completed =
    stop (problem 500 "failed to finalize SAML authentication request")
refuse_continue actor storage_failure =
    stop (problem 500 "failed to finalize SAML authentication request")

-- `continueSAML`, with the URL of `CallbackURL`.
unfoldable pub continue_saml : Principal → Text → Handler
unfolding refuse_continue finalize_auth_request
continue_saml actor raw = do
  check (not actor.must_change_password) (problem 403 "password change required")
  key ← pure (trim_space raw)
  check (not (is_empty key || ltb 256 (byte_len key))) (problem 400 "invalid SAML request ID")
  id ← or_else (finalize_auth_request key actor.user_id) (refuse_continue actor)
  audit (some actor.user_id) "SAML_LOGIN_CONTINUED" (Target.application id) true
  base ← ask (λ e. trim_slashes e.public_url)
  pure (respond 200 (callback_url (base ++ codes "/saml/callback?id=" ++ key)))
