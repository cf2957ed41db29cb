-- ===== src/History/Enrolment.antt =====
-- What the handlers of backend/internal/httpapi/mfa.go keep.
use open_sso.Prelude.{ℕ, Text, Bool}
use open_sso.Session.{Principal}
use open_sso.Mfa.Admin.{
  admin_user_mfa_status, application_mfa_policy, group_mfa_policy, reset_user_mfa,
  update_application_mfa_policy, update_group_mfa_policy,
}
use open_sso.Mfa.Handlers.{
  begin_totp_enrollment, begin_webauthn_authentication, begin_webauthn_registration,
  confirm_totp_enrollment, delete_webauthn_credential, disable_totp_factor,
  finish_webauthn_authentication, finish_webauthn_registration, mfa_error, my_mfa_status,
  regenerate_codes, verify_mfa_factor,
}
use open_sso.Mfa.Policy.{
  application_policy, group_policy, put_application_policy, put_group_policy,
  set_application_policy, set_group_policy,
}
use open_sso.History.Keeps.{Keeps}
use open_sso.History.Shared.{keeping}
use open_sso.History.Factors.{factor_steps}
use open_sso.History.Webauthn.{key_steps}

pub my_mfa_status-Keeps : (actor : Principal) → Keeps (my_mfa_status actor)
unfolding my_mfa_status
my_mfa_status-Keeps actor = search (keeping, factor_steps, key_steps) depth 40

pub begin_totp_enrollment-Keeps :
    (actor : Principal) (ip : Text) → Keeps (begin_totp_enrollment actor ip)
unfolding begin_totp_enrollment mfa_error
begin_totp_enrollment-Keeps actor ip = search (keeping, factor_steps, key_steps) depth 40

pub confirm_totp_enrollment-Keeps :
    (actor : Principal) (ip code : Text) → Keeps (confirm_totp_enrollment actor ip code)
unfolding confirm_totp_enrollment
confirm_totp_enrollment-Keeps actor ip code = search (keeping, factor_steps, key_steps) depth 40

pub disable_totp_factor-Keeps : (actor : Principal) → Keeps (disable_totp_factor actor)
unfolding disable_totp_factor
disable_totp_factor-Keeps actor = search (keeping, factor_steps, key_steps) depth 40

pub regenerate_codes-Keeps : (actor : Principal) (ip : Text) → Keeps (regenerate_codes actor ip)
unfolding regenerate_codes
regenerate_codes-Keeps actor ip = search (keeping, factor_steps, key_steps) depth 40

pub begin_webauthn_registration-Keeps :
    (actor : Principal) (ip kind : Text) → Keeps (begin_webauthn_registration actor ip kind)
unfolding begin_webauthn_registration
begin_webauthn_registration-Keeps actor ip kind = search (keeping, factor_steps, key_steps) depth 40

pub finish_webauthn_registration-Keeps :
    (actor : Principal) (ip token display_name request : Text)
    → Keeps (finish_webauthn_registration actor ip token display_name request)
unfolding finish_webauthn_registration
finish_webauthn_registration-Keeps actor ip token display_name request =
    search (keeping, factor_steps, key_steps) depth 40

pub delete_webauthn_credential-Keeps :
    (actor : Principal) (id : ℕ) → Keeps (delete_webauthn_credential actor id)
unfolding delete_webauthn_credential
delete_webauthn_credential-Keeps actor id = search (keeping, factor_steps, key_steps) depth 40

pub verify_mfa_factor-Keeps :
    (actor : Principal) (ip method code : Text) → Keeps (verify_mfa_factor actor ip method code)
unfolding verify_mfa_factor
verify_mfa_factor-Keeps actor ip method code = search (keeping, factor_steps, key_steps) depth 40

pub begin_webauthn_authentication-Keeps :
    (actor : Principal) (ip : Text) → Keeps (begin_webauthn_authentication actor ip)
unfolding begin_webauthn_authentication
begin_webauthn_authentication-Keeps actor ip = search (keeping, factor_steps, key_steps) depth 40

pub finish_webauthn_authentication-Keeps :
    (actor : Principal) (ip token request : Text)
    → Keeps (finish_webauthn_authentication actor ip token request)
unfolding finish_webauthn_authentication
finish_webauthn_authentication-Keeps actor ip token request =
    search (keeping, factor_steps, key_steps) depth 40

pub admin_user_mfa_status-Keeps : (id : ℕ) → Keeps (admin_user_mfa_status id)
unfolding admin_user_mfa_status
admin_user_mfa_status-Keeps id = search (keeping, factor_steps, key_steps) depth 40

pub reset_user_mfa-Keeps : (actor : Principal) (id : ℕ) → Keeps (reset_user_mfa actor id)
unfolding reset_user_mfa
reset_user_mfa-Keeps actor id = search (keeping, factor_steps, key_steps) depth 40

pub group_mfa_policy-Keeps : (id : ℕ) → Keeps (group_mfa_policy id)
unfolding group_mfa_policy group_policy
group_mfa_policy-Keeps id = search (keeping, factor_steps, key_steps) depth 40

pub update_group_mfa_policy-Keeps :
    (actor : Principal) (id : ℕ) (needed : Bool) → Keeps (update_group_mfa_policy actor id needed)
unfolding update_group_mfa_policy set_group_policy put_group_policy
update_group_mfa_policy-Keeps actor id needed = search (keeping, factor_steps, key_steps) depth 40

pub application_mfa_policy-Keeps : (id : ℕ) → Keeps (application_mfa_policy id)
unfolding application_mfa_policy application_policy
application_mfa_policy-Keeps id = search (keeping, factor_steps, key_steps) depth 40

pub update_application_mfa_policy-Keeps :
    (actor : Principal) (id : ℕ) (needed : Bool)
    → Keeps (update_application_mfa_policy actor id needed)
unfolding update_application_mfa_policy set_application_policy put_application_policy
update_application_mfa_policy-Keeps actor id needed =
    search (keeping, factor_steps, key_steps) depth 40
