-- ===== src/History/Dispatch.antt =====
-- Every route keeps what is guarded.
use open_sso.Prelude.{Text, codes, Option, none, some}
use open_sso.Session.{logout}
use open_sso.Web.{Handler}
use open_sso.Applications.{create_application}
use open_sso.Applications.Admin.{
  application_assignments, assign_application_group, assign_application_user,
  remove_application_group, remove_application_user, rotate_client_secret,
}
use open_sso.Applications.Update.{update_application}
use open_sso.Directory.{create_user}
use open_sso.Groups.{
  add_group_member, create_group, delete_group, get_group, list_group_members, list_groups,
  remove_group_member, update_group,
}
use open_sso.Listings.{get_user, list_applications, list_sessions, list_users, me}
use open_sso.Mfa.Admin.{
  admin_user_mfa_status, application_mfa_policy, group_mfa_policy, reset_user_mfa,
  update_application_mfa_policy, update_group_mfa_policy,
}
use open_sso.Mfa.Handlers.{
  begin_totp_enrollment, begin_webauthn_authentication, begin_webauthn_registration,
  confirm_totp_enrollment, delete_webauthn_credential, disable_totp_factor,
  finish_webauthn_authentication, finish_webauthn_registration, my_mfa_status, regenerate_codes,
  verify_mfa_factor,
}
use open_sso.OAuth.Logout.{rotate_signing_key}
use open_sso.Policy.{show_security_policy, update_security_policy}
use open_sso.Portal.{
  my_access, my_applications, my_profile, my_sessions, revoke_my_session, update_my_profile,
}
use open_sso.Roles.{assign_role, list_roles, list_user_roles, remove_role}
use open_sso.Users.{
  change_own_password, reset_user_password, revoke_all_sessions, revoke_session,
  revoke_user_sessions, unlock_user, update_user,
}
use open_sso.Routes.{
  exchange, revoke, introspect, read_userinfo, begin_authorization, consent, end_login, read_setup,
  first_user, sign_in, sign_out, check_own_factor, begin_key_login, finish_key_login, read_me,
  read_factors, enrol_totp, finish_totp, erase_totp, new_recovery_codes, begin_key, finish_key,
  delete_own_key, read_access, read_profile, patch_profile, new_password, read_applications,
  read_sessions, delete_own_session, read_users, read_user, post_user, patch_user, unlock,
  reset_password, end_sessions_of, read_factors_of, reset_factors_of, read_groups, post_group,
  read_group, patch_group, remove_a_group, read_members, post_member, delete_member,
  read_group_policy, set_policy_of_group, read_all_applications, post_application, put_application,
  post_secret, read_assignments, assign_user, unassign_user, assign_group, unassign_group,
  read_application_policy, set_policy_of_application, read_roles, read_roles_of, post_role,
  delete_role, read_all_sessions, end_a_session, end_all_sessions, read_policy, put_policy,
  post_key, read_integration, read_login_ui, read_branding, put_branding, reset_branding, post_saml,
  put_saml, read_saml, read_certificates, post_certificate, continue_login, Request, dispatch,
}
use open_sso.Middleware.{Http, middleware, check_host, serve}
use open_sso.Applications.Admin.{application_integration}
use open_sso.Branding.{admin_login_ui, reset_login_ui, update_login_ui}
use open_sso.Saml.Admin.{
  create_saml_application, update_saml_application, saml_application_integration, saml_certificates,
  rotate_saml_certificate, continue_saml,
}
use open_sso.History.Saml.{
  application_integration-Keeps, public_login_ui-Keeps, admin_login_ui-Keeps, update_login_ui-Keeps,
  reset_login_ui-Keeps, create_saml_application-Keeps, update_saml_application-Keeps,
  saml_application_integration-Keeps, saml_certificates-Keeps, rotate_saml_certificate-Keeps,
  continue_saml-Keeps,
}
use open_sso.History.Keeps.{Keeps, steps}
use open_sso.History.Shared.{with_principal_raw-Keeps, with_principal-Keeps, require-Keeps}
use open_sso.History.Accounts.{
  bootstrap-Keeps, change_own_password-Keeps, create_user-Keeps, login-Keeps, logout-Keeps,
  reset_user_password-Keeps, revoke_all_sessions-Keeps, revoke_session-Keeps,
  revoke_user_sessions-Keeps, show_security_policy-Keeps, unlock_user-Keeps,
  update_security_policy-Keeps, update_user-Keeps,
}
use open_sso.History.Consents.{
  authorize-Keeps, authorize_consent-Keeps, introspect_token-Keeps, oauth_logout-Keeps,
  revoke_token-Keeps, rotate_signing_key-Keeps,
}
use open_sso.History.Enrolment.{
  admin_user_mfa_status-Keeps, application_mfa_policy-Keeps, begin_totp_enrollment-Keeps,
  begin_webauthn_authentication-Keeps, begin_webauthn_registration-Keeps,
  confirm_totp_enrollment-Keeps, delete_webauthn_credential-Keeps, disable_totp_factor-Keeps,
  finish_webauthn_authentication-Keeps, finish_webauthn_registration-Keeps, group_mfa_policy-Keeps,
  my_mfa_status-Keeps, regenerate_codes-Keeps, reset_user_mfa-Keeps,
  update_application_mfa_policy-Keeps, update_group_mfa_policy-Keeps, verify_mfa_factor-Keeps,
}
use open_sso.History.Listings.{
  get_user-Keeps, list_applications-Keeps, list_sessions-Keeps, list_users-Keeps, me-Keeps,
  setup_status-Keeps,
}
use open_sso.History.Management.{
  add_group_member-Keeps, assign_role-Keeps, create_group-Keeps, delete_group-Keeps,
  get_group-Keeps, list_group_members-Keeps, list_groups-Keeps, list_roles-Keeps,
  list_user_roles-Keeps, my_access-Keeps, my_applications-Keeps, my_profile-Keeps,
  my_sessions-Keeps, remove_group_member-Keeps, remove_role-Keeps, revoke_my_session-Keeps,
  update_group-Keeps, update_my_profile-Keeps,
}
use open_sso.History.Registration.{
  application_assignments-Keeps, assign_application_group-Keeps, assign_application_user-Keeps,
  create_application-Keeps, remove_application_group-Keeps, remove_application_user-Keeps,
  rotate_client_secret-Keeps, update_application-Keeps,
}
use open_sso.History.Tokens.{token_endpoint-Keeps, userinfo-Keeps}

dispatch-Keeps : (cookie : Option Text) (r : Request) → Keeps (dispatch cookie r)
unfolding dispatch
dispatch-Keeps cookie (exchange f) = token_endpoint-Keeps f
dispatch-Keeps cookie (revoke f) = revoke_token-Keeps f
dispatch-Keeps cookie (introspect f) = introspect_token-Keeps f
dispatch-Keeps cookie (read_userinfo raw) = userinfo-Keeps raw
dispatch-Keeps cookie (begin_authorization q) = authorize-Keeps (record q { session = cookie })
dispatch-Keeps cookie (consent f) = authorize_consent-Keeps (record f { session = cookie })
dispatch-Keeps cookie (end_login f) = oauth_logout-Keeps (record f { session = cookie })
dispatch-Keeps cookie read_setup = setup_status-Keeps
dispatch-Keeps cookie (first_user token header username email display_name password) =
    bootstrap-Keeps token header username email display_name password
dispatch-Keeps cookie (sign_in ip username password) = login-Keeps ip username password
dispatch-Keeps cookie sign_out =
    with_principal_raw-Keeps (λ p. logout cookie p) (λ p. logout-Keeps cookie p) cookie
dispatch-Keeps cookie (check_own_factor ip method code) =
    with_principal_raw-Keeps (λ p. verify_mfa_factor p ip method code)
      (λ p. verify_mfa_factor-Keeps p ip method code) cookie
dispatch-Keeps cookie (begin_key_login ip) =
    with_principal_raw-Keeps (λ p. begin_webauthn_authentication p ip)
      (λ p. begin_webauthn_authentication-Keeps p ip) cookie
dispatch-Keeps cookie (finish_key_login ip token request) =
    with_principal_raw-Keeps (λ p. finish_webauthn_authentication p ip token request)
      (λ p. finish_webauthn_authentication-Keeps p ip token request) cookie
dispatch-Keeps cookie read_me = with_principal_raw-Keeps (λ p. me p) (λ p. me-Keeps p) cookie
dispatch-Keeps cookie read_factors =
    with_principal_raw-Keeps (λ p. my_mfa_status p) (λ p. my_mfa_status-Keeps p) cookie
dispatch-Keeps cookie (enrol_totp ip) =
    with_principal_raw-Keeps (λ p. begin_totp_enrollment p ip)
      (λ p. begin_totp_enrollment-Keeps p ip) cookie
dispatch-Keeps cookie (finish_totp ip code) =
    with_principal_raw-Keeps (λ p. confirm_totp_enrollment p ip code)
      (λ p. confirm_totp_enrollment-Keeps p ip code) cookie
dispatch-Keeps cookie erase_totp =
    with_principal_raw-Keeps (λ p. disable_totp_factor p) (λ p. disable_totp_factor-Keeps p) cookie
dispatch-Keeps cookie (new_recovery_codes ip) =
    with_principal_raw-Keeps (λ p. regenerate_codes p ip) (λ p. regenerate_codes-Keeps p ip) cookie
dispatch-Keeps cookie (begin_key ip kind) =
    with_principal_raw-Keeps (λ p. begin_webauthn_registration p ip kind)
      (λ p. begin_webauthn_registration-Keeps p ip kind) cookie
dispatch-Keeps cookie (finish_key ip token display_name request) =
    with_principal_raw-Keeps (λ p. finish_webauthn_registration p ip token display_name request)
      (λ p. finish_webauthn_registration-Keeps p ip token display_name request) cookie
dispatch-Keeps cookie (delete_own_key id) =
    with_principal_raw-Keeps (λ p. delete_webauthn_credential p id)
      (λ p. delete_webauthn_credential-Keeps p id) cookie
dispatch-Keeps cookie read_access =
    with_principal-Keeps (λ p. my_access p) (λ p. my_access-Keeps p) cookie
dispatch-Keeps cookie read_profile =
    with_principal-Keeps (λ p. my_profile p) (λ p. my_profile-Keeps p) cookie
dispatch-Keeps cookie (patch_profile email display_name) =
    with_principal-Keeps (λ p. update_my_profile p email display_name)
      (λ p. update_my_profile-Keeps p email display_name) cookie
dispatch-Keeps cookie (new_password current password) =
    with_principal_raw-Keeps (λ p. change_own_password p current password)
      (λ p. change_own_password-Keeps p current password) cookie
dispatch-Keeps cookie read_applications =
    with_principal-Keeps (λ p. my_applications p) (λ p. my_applications-Keeps p) cookie
dispatch-Keeps cookie read_sessions =
    with_principal-Keeps (λ p. my_sessions p) (λ p. my_sessions-Keeps p) cookie
dispatch-Keeps cookie (delete_own_session id) =
    with_principal-Keeps (λ p. revoke_my_session p id) (λ p. revoke_my_session-Keeps p id) cookie
dispatch-Keeps cookie read_users =
    require-Keeps (λ p. list_users) (λ p. list_users-Keeps) cookie (codes "users.read")
dispatch-Keeps cookie (read_user id) =
    require-Keeps (λ p. get_user id) (λ p. get_user-Keeps id) cookie (codes "users.read")
dispatch-Keeps cookie (post_user username email display_name password) =
    require-Keeps (λ p. create_user p username email display_name password)
      (λ p. create_user-Keeps p username email display_name password) cookie (codes "users.write")
dispatch-Keeps cookie (patch_user id email display_name active) =
    require-Keeps (λ p. update_user p id email display_name active)
      (λ p. update_user-Keeps p id email display_name active) cookie (codes "users.write")
dispatch-Keeps cookie (unlock id) =
    require-Keeps (λ p. unlock_user p id) (λ p. unlock_user-Keeps p id) cookie (codes "users.write")
dispatch-Keeps cookie (reset_password id password) =
    require-Keeps (λ p. reset_user_password p id password)
      (λ p. reset_user_password-Keeps p id password) cookie (codes "users.write")
dispatch-Keeps cookie (end_sessions_of id) =
    require-Keeps (λ p. revoke_user_sessions p id) (λ p. revoke_user_sessions-Keeps p id) cookie
      (codes "sessions.write")
dispatch-Keeps cookie (read_factors_of id) =
    require-Keeps (λ p. admin_user_mfa_status id) (λ p. admin_user_mfa_status-Keeps id) cookie
      (codes "mfa.read")
dispatch-Keeps cookie (reset_factors_of id) =
    require-Keeps (λ p. reset_user_mfa p id) (λ p. reset_user_mfa-Keeps p id) cookie
      (codes "mfa.write")
dispatch-Keeps cookie read_groups =
    require-Keeps (λ p. list_groups) (λ p. list_groups-Keeps) cookie (codes "groups.read")
dispatch-Keeps cookie (post_group name description) =
    require-Keeps (λ p. create_group p name description)
      (λ p. create_group-Keeps p name description) cookie (codes "groups.write")
dispatch-Keeps cookie (read_group id) =
    require-Keeps (λ p. get_group id) (λ p. get_group-Keeps id) cookie (codes "groups.read")
dispatch-Keeps cookie (patch_group id name description) =
    require-Keeps (λ p. update_group p id name description)
      (λ p. update_group-Keeps p id name description) cookie (codes "groups.write")
dispatch-Keeps cookie (remove_a_group id) =
    require-Keeps (λ p. delete_group p id) (λ p. delete_group-Keeps p id) cookie
      (codes "groups.write")
dispatch-Keeps cookie (read_members id) =
    require-Keeps (λ p. list_group_members id) (λ p. list_group_members-Keeps id) cookie
      (codes "groups.read")
dispatch-Keeps cookie (post_member id user_id) =
    require-Keeps (λ p. add_group_member p id user_id) (λ p. add_group_member-Keeps p id user_id)
      cookie (codes "groups.write")
dispatch-Keeps cookie (delete_member id user_id) =
    require-Keeps (λ p. remove_group_member p id user_id)
      (λ p. remove_group_member-Keeps p id user_id) cookie (codes "groups.write")
dispatch-Keeps cookie (read_group_policy id) =
    require-Keeps (λ p. group_mfa_policy id) (λ p. group_mfa_policy-Keeps id) cookie
      (codes "mfa.read")
dispatch-Keeps cookie (set_policy_of_group id needed) =
    require-Keeps (λ p. update_group_mfa_policy p id needed)
      (λ p. update_group_mfa_policy-Keeps p id needed) cookie (codes "mfa.write")
dispatch-Keeps cookie read_all_applications =
    require-Keeps (λ p. list_applications) (λ p. list_applications-Keeps) cookie
      (codes "applications.read")
dispatch-Keeps cookie (post_application i) =
    require-Keeps (λ p. create_application p i) (λ p. create_application-Keeps p i) cookie
      (codes "applications.write")
dispatch-Keeps cookie (put_application id i) =
    require-Keeps (λ p. update_application p id i) (λ p. update_application-Keeps p id i) cookie
      (codes "applications.write")
dispatch-Keeps cookie (post_secret id) =
    require-Keeps (λ p. rotate_client_secret p id) (λ p. rotate_client_secret-Keeps p id) cookie
      (codes "applications.write")
dispatch-Keeps cookie (read_assignments id) =
    require-Keeps (λ p. application_assignments id) (λ p. application_assignments-Keeps id) cookie
      (codes "applications.read")
dispatch-Keeps cookie (assign_user id user_id) =
    require-Keeps (λ p. assign_application_user p id user_id)
      (λ p. assign_application_user-Keeps p id user_id) cookie (codes "applications.write")
dispatch-Keeps cookie (unassign_user id user_id) =
    require-Keeps (λ p. remove_application_user p id user_id)
      (λ p. remove_application_user-Keeps p id user_id) cookie (codes "applications.write")
dispatch-Keeps cookie (assign_group id group_id) =
    require-Keeps (λ p. assign_application_group p id group_id)
      (λ p. assign_application_group-Keeps p id group_id) cookie (codes "applications.write")
dispatch-Keeps cookie (unassign_group id group_id) =
    require-Keeps (λ p. remove_application_group p id group_id)
      (λ p. remove_application_group-Keeps p id group_id) cookie (codes "applications.write")
dispatch-Keeps cookie (read_application_policy id) =
    require-Keeps (λ p. application_mfa_policy id) (λ p. application_mfa_policy-Keeps id) cookie
      (codes "mfa.read")
dispatch-Keeps cookie (set_policy_of_application id needed) =
    require-Keeps (λ p. update_application_mfa_policy p id needed)
      (λ p. update_application_mfa_policy-Keeps p id needed) cookie (codes "mfa.write")
dispatch-Keeps cookie read_roles =
    require-Keeps (λ p. list_roles) (λ p. list_roles-Keeps) cookie (codes "users.read")
dispatch-Keeps cookie (read_roles_of id) =
    require-Keeps (λ p. list_user_roles id) (λ p. list_user_roles-Keeps id) cookie
      (codes "users.read")
dispatch-Keeps cookie (post_role id role_id) =
    require-Keeps (λ p. assign_role p id role_id) (λ p. assign_role-Keeps p id role_id) cookie
      (codes "rbac.write")
dispatch-Keeps cookie (delete_role id role_id) =
    require-Keeps (λ p. remove_role p id role_id) (λ p. remove_role-Keeps p id role_id) cookie
      (codes "rbac.write")
dispatch-Keeps cookie read_all_sessions =
    require-Keeps (λ p. list_sessions) (λ p. list_sessions-Keeps) cookie (codes "sessions.read")
dispatch-Keeps cookie (end_a_session id) =
    require-Keeps (λ p. revoke_session p id) (λ p. revoke_session-Keeps p id) cookie
      (codes "sessions.write")
dispatch-Keeps cookie end_all_sessions =
    require-Keeps (λ p. revoke_all_sessions p) (λ p. revoke_all_sessions-Keeps p) cookie
      (codes "sessions.write")
dispatch-Keeps cookie read_policy =
    require-Keeps (λ p. show_security_policy) (λ p. show_security_policy-Keeps) cookie
      (codes "policies.read")
dispatch-Keeps cookie (put_policy v) =
    require-Keeps (λ p. update_security_policy p v) (λ p. update_security_policy-Keeps p v) cookie
      (codes "policies.write")
dispatch-Keeps cookie post_key =
    require-Keeps (λ p. rotate_signing_key p) (λ p. rotate_signing_key-Keeps p) cookie
      (codes "signing_keys.rotate")
dispatch-Keeps cookie (read_integration id) =
    require-Keeps (λ p. application_integration id) (λ p. application_integration-Keeps id) cookie
      (codes "applications.read")
dispatch-Keeps cookie read_login_ui = public_login_ui-Keeps
dispatch-Keeps cookie read_branding =
    require-Keeps (λ p. admin_login_ui) (λ p. admin_login_ui-Keeps) cookie (codes "branding.read")
dispatch-Keeps cookie (put_branding i) =
    require-Keeps (λ p. update_login_ui p i) (λ p. update_login_ui-Keeps p i) cookie
      (codes "branding.write")
dispatch-Keeps cookie reset_branding =
    require-Keeps (λ p. reset_login_ui p) (λ p. reset_login_ui-Keeps p) cookie
      (codes "branding.write")
dispatch-Keeps cookie (post_saml i) =
    require-Keeps (λ p. create_saml_application p i) (λ p. create_saml_application-Keeps p i) cookie
      (codes "saml.write")
dispatch-Keeps cookie (put_saml id i) =
    require-Keeps (λ p. update_saml_application p id i) (λ p. update_saml_application-Keeps p id i)
      cookie (codes "saml.write")
dispatch-Keeps cookie (read_saml id) =
    require-Keeps (λ p. saml_application_integration id)
      (λ p. saml_application_integration-Keeps id) cookie (codes "saml.read")
dispatch-Keeps cookie read_certificates =
    require-Keeps (λ p. saml_certificates) (λ p. saml_certificates-Keeps) cookie (codes "saml.read")
dispatch-Keeps cookie post_certificate =
    require-Keeps (λ p. rotate_saml_certificate p) (λ p. rotate_saml_certificate-Keeps p) cookie
      (codes "saml.rotate")
dispatch-Keeps cookie (continue_login request_id) =
    with_principal-Keeps (λ p. continue_saml p request_id) (λ p. continue_saml-Keeps p request_id)
      cookie

check_host-Keeps : (h : Http) (url : Option (Text × (Text × Text))) → Keeps (check_host h url)
check_host-Keeps h none = search steps
check_host-Keeps h (some u) = search steps depth 10

middleware-Keeps : (h : Http) (next : Handler) → Keeps next → Keeps (middleware h next)
unfolding middleware
middleware-Keeps h next k = search (steps, check_host-Keeps, k) depth 20

pub serve-Keeps : (h : Http) (r : Request) → Keeps (serve h r)
unfolding serve
serve-Keeps h r = middleware-Keeps h (dispatch h.session r) (dispatch-Keeps h.session r)
