-- ===== src/Mfa/Admin.antt =====
-- The handlers of backend/internal/httpapi/mfa.go for administrators: the factors of a user, and the
-- policies of groups and applications.
use open_sso.Prelude.{ℕ, Bool, true, none, some}
use open_sso.Store.{Target}
use open_sso.Web.{
  Handler, ◌>>=◌, ◌>>◌, pure, or_stop, or_answer, respond, problem, empty, flag, factors_of,
}
use open_sso.Audit.{audit}
use open_sso.Session.{Principal}
use open_sso.Mfa.Policy.{
  status, group_policy, application_policy, set_group_policy, set_application_policy,
}
use open_sso.Mfa.Recovery.{reset_user}
use open_sso.Mfa.Webauthn.{list_keys}

unfoldable pub admin_user_mfa_status : ℕ → Handler
unfolding status list_keys
admin_user_mfa_status user_id = do
  st ← or_stop (← status user_id none) (problem 500 "MFA status lookup failed")
  keys ← or_stop (← list_keys user_id) (problem 500 "WebAuthn credential lookup failed")
  pure (respond 200 (factors_of none st keys))

unfoldable pub reset_user_mfa : Principal → ℕ → Handler
unfolding reset_user
reset_user_mfa p user_id = do
  or_answer (reset_user user_id) (λ _. problem 500 "failed to reset MFA")
  audit (some p.user_id) "MFA_RESET" (Target.user user_id) true
  pure (respond 204 empty)

unfoldable pub group_mfa_policy : ℕ → Handler
unfolding group_policy
group_mfa_policy id = do
  needed ← or_stop (← group_policy id) (problem 500 "MFA policy lookup failed")
  pure (respond 200 (flag needed))

unfoldable pub update_group_mfa_policy : Principal → ℕ → Bool → Handler
unfolding set_group_policy
update_group_mfa_policy p id needed = do
  or_answer (set_group_policy id needed) (λ _. problem 400 "failed to update group MFA policy")
  audit (some p.user_id) "MFA_POLICY_CHANGED" (Target.group id) true
  pure (respond 200 (flag needed))

unfoldable pub application_mfa_policy : ℕ → Handler
unfolding application_policy
application_mfa_policy id = do
  needed ← or_stop (← application_policy id) (problem 500 "MFA policy lookup failed")
  pure (respond 200 (flag needed))

unfoldable pub update_application_mfa_policy : Principal → ℕ → Bool → Handler
unfolding set_application_policy
update_application_mfa_policy p id needed = do
  or_answer (set_application_policy id needed)
      (λ _. problem 400 "failed to update application MFA policy")
  audit (some p.user_id) "MFA_POLICY_CHANGED" (Target.application id) true
  pure (respond 200 (flag needed))
