-- ===== src/Routes.antt =====
-- The routes: `Handler` of backend/internal/httpapi/server.go, in its table of routes.
use open_sso.Prelude.{ℕ, Text, codes, Bool, Option}
use open_sso.Store.{SecurityPolicy, LoginUi}
use open_sso.Web.{Handler}
use open_sso.Session.{with_principal_raw, with_principal, require, logout}
use open_sso.Applications.{ApplicationInput, create_application}
use open_sso.Applications.Admin.{
  application_integration, application_assignments, assign_application_group,
  assign_application_user, remove_application_group, remove_application_user, rotate_client_secret,
}
use open_sso.Branding.{admin_login_ui, public_login_ui, reset_login_ui, update_login_ui}
use open_sso.Saml.Admin.{
  SamlInput, create_saml_application, update_saml_application, saml_application_integration,
  saml_certificates, rotate_saml_certificate, continue_saml,
}
use open_sso.Applications.Update.{update_application}
use open_sso.Directory.{bootstrap, create_user}
use open_sso.Groups.{
  add_group_member, create_group, delete_group, get_group, list_group_members, list_groups,
  remove_group_member, update_group,
}
use open_sso.Listings.{get_user, list_applications, list_sessions, list_users, me, setup_status}
use open_sso.Login.{login}
use open_sso.Mfa.Admin.{
  admin_user_mfa_status, application_mfa_policy, group_mfa_policy, reset_user_mfa,
  update_application_mfa_policy, update_group_mfa_policy,
}
use open_sso.Mfa.Handlers.{
  begin_totp_enrollment, begin_webauthn_authentication, begin_webauthn_registration,
  confirm_totp_enrollment, delete_webauthn_credential, disable_totp_factor,
  finish_webauthn_authentication, finish_webauthn_registration, my_mfa_status, regenerate_codes,
  verify_mfa_factor,
}
use open_sso.OAuth.Authorize.{AuthorizeForm, authorize}
use open_sso.OAuth.Client.{TokenForm}
use open_sso.OAuth.Consent.{ConsentForm, authorize_consent}
use open_sso.OAuth.Endpoints.{token_endpoint, userinfo}
use open_sso.OAuth.Logout.{LogoutForm, oauth_logout, rotate_signing_key}
use open_sso.OAuth.Revocation.{introspect_token, revoke_token}
use open_sso.Policy.{show_security_policy, update_security_policy}
use open_sso.Portal.{
  my_access, my_applications, my_profile, my_sessions, revoke_my_session, update_my_profile,
}
use open_sso.Roles.{assign_role, list_roles, list_user_roles, remove_role}
use open_sso.Users.{
  change_own_password, reset_user_password, revoke_all_sessions, revoke_session,
  revoke_user_sessions, unlock_user, update_user,
}

-- A request that a route matches, with what its handler reads of the path, the query, the body and
-- the address.
pub data Request : Type 0 where
  exchange : (f : TokenForm) → Request
  revoke : (f : TokenForm) → Request
  introspect : (f : TokenForm) → Request
  read_userinfo : (raw : Text) → Request
  begin_authorization : (q : AuthorizeForm) → Request
  consent : (f : ConsentForm) → Request
  end_login : (f : LogoutForm) → Request
  read_setup : Request
  first_user : (token header username email display_name password : Text) → Request
  sign_in : (ip username password : Text) → Request
  sign_out : Request
  check_own_factor : (ip method code : Text) → Request
  begin_key_login : (ip : Text) → Request
  finish_key_login : (ip token request : Text) → Request
  read_me : Request
  read_factors : Request
  enrol_totp : (ip : Text) → Request
  finish_totp : (ip code : Text) → Request
  erase_totp : Request
  new_recovery_codes : (ip : Text) → Request
  begin_key : (ip kind : Text) → Request
  finish_key : (ip token display_name request : Text) → Request
  delete_own_key : (id : ℕ) → Request
  read_access : Request
  read_profile : Request
  patch_profile : (email display_name : Text) → Request
  new_password : (current password : Text) → Request
  read_applications : Request
  read_sessions : Request
  delete_own_session : (id : ℕ) → Request
  read_users : Request
  read_user : (id : ℕ) → Request
  post_user : (username email display_name password : Text) → Request
  patch_user : (id : ℕ) (email display_name : Text) (active : Option Bool) → Request
  unlock : (id : ℕ) → Request
  reset_password : (id : ℕ) (password : Text) → Request
  end_sessions_of : (id : ℕ) → Request
  read_factors_of : (id : ℕ) → Request
  reset_factors_of : (id : ℕ) → Request
  read_groups : Request
  post_group : (name description : Text) → Request
  read_group : (id : ℕ) → Request
  patch_group : (id : ℕ) (name description : Text) → Request
  remove_a_group : (id : ℕ) → Request
  read_members : (id : ℕ) → Request
  post_member : (id user_id : ℕ) → Request
  delete_member : (id user_id : ℕ) → Request
  read_group_policy : (id : ℕ) → Request
  set_policy_of_group : (id : ℕ) (needed : Bool) → Request
  read_all_applications : Request
  post_application : (i : ApplicationInput) → Request
  put_application : (id : ℕ) (i : ApplicationInput) → Request
  post_secret : (id : ℕ) → Request
  read_assignments : (id : ℕ) → Request
  assign_user : (id user_id : ℕ) → Request
  unassign_user : (id user_id : ℕ) → Request
  assign_group : (id group_id : ℕ) → Request
  unassign_group : (id group_id : ℕ) → Request
  read_application_policy : (id : ℕ) → Request
  set_policy_of_application : (id : ℕ) (needed : Bool) → Request
  read_roles : Request
  read_roles_of : (id : ℕ) → Request
  post_role : (id role_id : ℕ) → Request
  delete_role : (id role_id : ℕ) → Request
  read_all_sessions : Request
  end_a_session : (id : ℕ) → Request
  end_all_sessions : Request
  read_policy : Request
  put_policy : (v : SecurityPolicy) → Request
  post_key : Request
  read_integration : (id : ℕ) → Request
  read_login_ui : Request
  read_branding : Request
  put_branding : (i : LoginUi) → Request
  reset_branding : Request
  post_saml : (i : SamlInput) → Request
  put_saml : (id : ℕ) (i : SamlInput) → Request
  read_saml : (id : ℕ) → Request
  read_certificates : Request
  post_certificate : Request
  continue_login : (request_id : Text) → Request

-- The handler of each route, for a session cookie; the cookie of the request is the one that
-- the forms carry.
unfoldable pub dispatch : Option Text → Request → Handler
dispatch cookie (exchange f) = token_endpoint f
dispatch cookie (revoke f) = revoke_token f
dispatch cookie (introspect f) = introspect_token f
dispatch cookie (read_userinfo raw) = userinfo raw
dispatch cookie (begin_authorization q) = authorize (record q { session = cookie })
dispatch cookie (consent f) = authorize_consent (record f { session = cookie })
dispatch cookie (end_login f) = oauth_logout (record f { session = cookie })
dispatch cookie read_setup = setup_status
dispatch cookie (first_user token header username email display_name password) =
    bootstrap token header username email display_name password
dispatch cookie (sign_in ip username password) = login ip username password
dispatch cookie sign_out = with_principal_raw cookie (λ p. logout cookie p)
dispatch cookie (check_own_factor ip method code) =
    with_principal_raw cookie (λ p. verify_mfa_factor p ip method code)
dispatch cookie (begin_key_login ip) =
    with_principal_raw cookie (λ p. begin_webauthn_authentication p ip)
dispatch cookie (finish_key_login ip token request) =
    with_principal_raw cookie (λ p. finish_webauthn_authentication p ip token request)
dispatch cookie read_me = with_principal_raw cookie (λ p. me p)
dispatch cookie read_factors = with_principal_raw cookie (λ p. my_mfa_status p)
dispatch cookie (enrol_totp ip) = with_principal_raw cookie (λ p. begin_totp_enrollment p ip)
dispatch cookie (finish_totp ip code) =
    with_principal_raw cookie (λ p. confirm_totp_enrollment p ip code)
dispatch cookie erase_totp = with_principal_raw cookie (λ p. disable_totp_factor p)
dispatch cookie (new_recovery_codes ip) = with_principal_raw cookie (λ p. regenerate_codes p ip)
dispatch cookie (begin_key ip kind) =
    with_principal_raw cookie (λ p. begin_webauthn_registration p ip kind)
dispatch cookie (finish_key ip token display_name request) =
    with_principal_raw cookie (λ p. finish_webauthn_registration p ip token display_name request)
dispatch cookie (delete_own_key id) =
    with_principal_raw cookie (λ p. delete_webauthn_credential p id)
dispatch cookie read_access = with_principal cookie (λ p. my_access p)
dispatch cookie read_profile = with_principal cookie (λ p. my_profile p)
dispatch cookie (patch_profile email display_name) =
    with_principal cookie (λ p. update_my_profile p email display_name)
dispatch cookie (new_password current password) =
    with_principal_raw cookie (λ p. change_own_password p current password)
dispatch cookie read_applications = with_principal cookie (λ p. my_applications p)
dispatch cookie read_sessions = with_principal cookie (λ p. my_sessions p)
dispatch cookie (delete_own_session id) = with_principal cookie (λ p. revoke_my_session p id)
dispatch cookie read_users = require cookie (codes "users.read") (λ p. list_users)
dispatch cookie (read_user id) = require cookie (codes "users.read") (λ p. get_user id)
dispatch cookie (post_user username email display_name password) =
    require cookie (codes "users.write") (λ p. create_user p username email display_name password)
dispatch cookie (patch_user id email display_name active) =
    require cookie (codes "users.write") (λ p. update_user p id email display_name active)
dispatch cookie (unlock id) = require cookie (codes "users.write") (λ p. unlock_user p id)
dispatch cookie (reset_password id password) =
    require cookie (codes "users.write") (λ p. reset_user_password p id password)
dispatch cookie (end_sessions_of id) =
    require cookie (codes "sessions.write") (λ p. revoke_user_sessions p id)
dispatch cookie (read_factors_of id) =
    require cookie (codes "mfa.read") (λ p. admin_user_mfa_status id)
dispatch cookie (reset_factors_of id) =
    require cookie (codes "mfa.write") (λ p. reset_user_mfa p id)
dispatch cookie read_groups = require cookie (codes "groups.read") (λ p. list_groups)
dispatch cookie (post_group name description) =
    require cookie (codes "groups.write") (λ p. create_group p name description)
dispatch cookie (read_group id) = require cookie (codes "groups.read") (λ p. get_group id)
dispatch cookie (patch_group id name description) =
    require cookie (codes "groups.write") (λ p. update_group p id name description)
dispatch cookie (remove_a_group id) = require cookie (codes "groups.write") (λ p. delete_group p id)
dispatch cookie (read_members id) =
    require cookie (codes "groups.read") (λ p. list_group_members id)
dispatch cookie (post_member id user_id) =
    require cookie (codes "groups.write") (λ p. add_group_member p id user_id)
dispatch cookie (delete_member id user_id) =
    require cookie (codes "groups.write") (λ p. remove_group_member p id user_id)
dispatch cookie (read_group_policy id) =
    require cookie (codes "mfa.read") (λ p. group_mfa_policy id)
dispatch cookie (set_policy_of_group id needed) =
    require cookie (codes "mfa.write") (λ p. update_group_mfa_policy p id needed)
dispatch cookie read_all_applications =
    require cookie (codes "applications.read") (λ p. list_applications)
dispatch cookie (post_application i) =
    require cookie (codes "applications.write") (λ p. create_application p i)
dispatch cookie (put_application id i) =
    require cookie (codes "applications.write") (λ p. update_application p id i)
dispatch cookie (post_secret id) =
    require cookie (codes "applications.write") (λ p. rotate_client_secret p id)
dispatch cookie (read_assignments id) =
    require cookie (codes "applications.read") (λ p. application_assignments id)
dispatch cookie (assign_user id user_id) =
    require cookie (codes "applications.write") (λ p. assign_application_user p id user_id)
dispatch cookie (unassign_user id user_id) =
    require cookie (codes "applications.write") (λ p. remove_application_user p id user_id)
dispatch cookie (assign_group id group_id) =
    require cookie (codes "applications.write") (λ p. assign_application_group p id group_id)
dispatch cookie (unassign_group id group_id) =
    require cookie (codes "applications.write") (λ p. remove_application_group p id group_id)
dispatch cookie (read_application_policy id) =
    require cookie (codes "mfa.read") (λ p. application_mfa_policy id)
dispatch cookie (set_policy_of_application id needed) =
    require cookie (codes "mfa.write") (λ p. update_application_mfa_policy p id needed)
dispatch cookie read_roles = require cookie (codes "users.read") (λ p. list_roles)
dispatch cookie (read_roles_of id) = require cookie (codes "users.read") (λ p. list_user_roles id)
dispatch cookie (post_role id role_id) =
    require cookie (codes "rbac.write") (λ p. assign_role p id role_id)
dispatch cookie (delete_role id role_id) =
    require cookie (codes "rbac.write") (λ p. remove_role p id role_id)
dispatch cookie read_all_sessions = require cookie (codes "sessions.read") (λ p. list_sessions)
dispatch cookie (end_a_session id) =
    require cookie (codes "sessions.write") (λ p. revoke_session p id)
dispatch cookie end_all_sessions =
    require cookie (codes "sessions.write") (λ p. revoke_all_sessions p)
dispatch cookie read_policy = require cookie (codes "policies.read") (λ p. show_security_policy)
dispatch cookie (put_policy v) =
    require cookie (codes "policies.write") (λ p. update_security_policy p v)
dispatch cookie post_key = require cookie (codes "signing_keys.rotate") (λ p. rotate_signing_key p)
dispatch cookie (read_integration id) =
    require cookie (codes "applications.read") (λ p. application_integration id)
dispatch cookie read_login_ui = public_login_ui
dispatch cookie read_branding = require cookie (codes "branding.read") (λ p. admin_login_ui)
dispatch cookie (put_branding i) =
    require cookie (codes "branding.write") (λ p. update_login_ui p i)
dispatch cookie reset_branding = require cookie (codes "branding.write") (λ p. reset_login_ui p)
dispatch cookie (post_saml i) =
    require cookie (codes "saml.write") (λ p. create_saml_application p i)
dispatch cookie (put_saml id i) =
    require cookie (codes "saml.write") (λ p. update_saml_application p id i)
dispatch cookie (read_saml id) =
    require cookie (codes "saml.read") (λ p. saml_application_integration id)
dispatch cookie read_certificates = require cookie (codes "saml.read") (λ p. saml_certificates)
dispatch cookie post_certificate =
    require cookie (codes "saml.rotate") (λ p. rotate_saml_certificate p)
dispatch cookie (continue_login request_id) =
    with_principal cookie (λ p. continue_saml p request_id)
