-- ===== src/History/Factors.antt =====
-- What the handlers of second factors keep.
use open_sso.Prelude.{ℕ, zero, suc, Text, Bool, true, false, refl}
use open_sso.Web.{Response, MfaError, Row, failed, no_rows, row}
use open_sso.Store.{TotpCredential}
use open_sso.Session.{Principal}
use open_sso.Mfa.Box.{encrypt}
use open_sso.Mfa.Handlers.{allow_mfa_mutation, challenge_failed, limit_mfa, mark_session}
use open_sso.Mfa.Recovery.{
  ensure_recovery_codes, exec_all, generate_recovery_codes, insert_recovery, redeem_recovery,
  regenerate_recovery_codes, reset_user, use_recovery, verify_recovery_code,
}
use open_sso.Mfa.Totp.{
  activate, activate_totp, begin_totp, check_code, check_pending, confirm_totp, disable_totp,
  keep_factor, known, new_secret, put_totp, totp_secret, use_totp, verify_factor, verify_totp,
}
use open_sso.History.Keeps.{Keeps, quiet}
use open_sso.History.Shared.{keeping}

pub allow_mfa_mutation-Keeps : (actor : Principal) → Keeps (allow_mfa_mutation actor)
unfolding allow_mfa_mutation
allow_mfa_mutation-Keeps actor = search keeping depth 40

pub limit_mfa-Keeps :
    (bucket : Text) (actor : Principal) (ip : Text) (n ttl : ℕ) (refusal : Response)
    → Keeps (limit_mfa bucket actor ip n ttl refusal)
unfolding limit_mfa
limit_mfa-Keeps bucket actor ip n ttl refusal = search keeping depth 40

pub challenge_failed-Keeps :
    {A : Type 0} (actor : Principal) (x : MfaError) → Keeps {A = A} (challenge_failed actor x)
unfolding challenge_failed
challenge_failed-Keeps actor x = search keeping depth 40

pub mark_session-Keeps : (actor : Principal) → Keeps (mark_session actor)
unfolding mark_session
mark_session-Keeps actor = search keeping depth 40

pub encrypt-Keeps : (plaintext aad : Text) → Keeps (encrypt plaintext aad)
unfolding encrypt
encrypt-Keeps plaintext aad = search keeping depth 40

pub generate_recovery_codes-Keeps : (user_id n : ℕ) → Keeps (generate_recovery_codes user_id n)
unfolding generate_recovery_codes insert_recovery
generate_recovery_codes-Keeps user_id zero = search keeping depth 20
generate_recovery_codes-Keeps user_id (suc n) =
    search (keeping, generate_recovery_codes-Keeps user_id n) depth 40

pub verify_recovery_code-Keeps :
    (user_id : ℕ) (code : Text) → Keeps (verify_recovery_code user_id code)
unfolding verify_recovery_code redeem_recovery use_recovery
verify_recovery_code-Keeps user_id code = search keeping depth 40

pub regenerate_recovery_codes-Keeps : (user_id : ℕ) → Keeps (regenerate_recovery_codes user_id)
unfolding regenerate_recovery_codes
regenerate_recovery_codes-Keeps user_id = search (keeping, generate_recovery_codes-Keeps) depth 40

pub ensure_recovery_codes-Keeps : (user_id : ℕ) → Keeps (ensure_recovery_codes user_id)
unfolding ensure_recovery_codes
ensure_recovery_codes-Keeps user_id = search (keeping, regenerate_recovery_codes-Keeps) depth 40

pub reset_user-Keeps : (user_id : ℕ) → Keeps (reset_user user_id)
unfolding reset_user exec_all
reset_user-Keeps user_id = search keeping depth 40

pub known-Keeps : (r : Row TotpCredential) → Keeps (known r)
known-Keeps failed = search keeping depth 20
known-Keeps no_rows = search keeping depth 20
known-Keeps (row c) = search keeping depth 20

pub check_pending-Keeps : (r : Row TotpCredential) → Keeps (check_pending r)
check_pending-Keeps failed = search keeping depth 20
check_pending-Keeps no_rows = search keeping depth 20
check_pending-Keeps (row c) = search keeping depth 20

pub new_secret-Keeps : (account : Text) → Keeps (new_secret account)
new_secret-Keeps account = quiet (λ e w. (refl, refl))

pub begin_totp-Keeps : (user_id : ℕ) (account : Text) → Keeps (begin_totp user_id account)
unfolding begin_totp put_totp
begin_totp-Keeps user_id account =
    search (keeping, encrypt-Keeps, check_pending-Keeps, new_secret-Keeps) depth 40

pub totp_secret-Keeps : (user_id : ℕ) (active_only : Bool) → Keeps (totp_secret user_id active_only)
unfolding totp_secret
totp_secret-Keeps user_id active_only = search (keeping, known-Keeps) depth 40

pub check_code-Keeps : (code secret : Text) → Keeps (check_code code secret)
unfolding check_code
check_code-Keeps code secret = search keeping depth 40

pub confirm_totp-Keeps : (user_id : ℕ) (code : Text) → Keeps (confirm_totp user_id code)
unfolding confirm_totp activate activate_totp
confirm_totp-Keeps user_id code =
    search (keeping, generate_recovery_codes-Keeps, totp_secret-Keeps, check_code-Keeps) depth 40

pub verify_totp-Keeps : (user_id : ℕ) (code : Text) → Keeps (verify_totp user_id code)
unfolding verify_totp use_totp
verify_totp-Keeps user_id code = search (keeping, totp_secret-Keeps, check_code-Keeps) depth 40

pub keep_factor-Keeps : (user_id : ℕ) (needed : Bool) → Keeps (keep_factor user_id needed)
unfolding keep_factor
keep_factor-Keeps user_id true = search keeping depth 20
keep_factor-Keeps user_id false = search keeping depth 20

pub disable_totp-Keeps : (user_id : ℕ) → Keeps (disable_totp user_id)
unfolding disable_totp
disable_totp-Keeps user_id = search (keeping, keep_factor-Keeps) depth 40

pub verify_factor-Keeps :
    (user_id : ℕ) (method code : Text) → Keeps (verify_factor user_id method code)
unfolding verify_factor
verify_factor-Keeps user_id method code =
    search (keeping, verify_recovery_code-Keeps, verify_totp-Keeps) depth 40

pub ruleset factor_steps = (
  allow_mfa_mutation-Keeps, limit_mfa-Keeps, challenge_failed-Keeps, mark_session-Keeps,
  encrypt-Keeps, generate_recovery_codes-Keeps, verify_recovery_code-Keeps,
  regenerate_recovery_codes-Keeps, ensure_recovery_codes-Keeps, reset_user-Keeps, known-Keeps,
  check_pending-Keeps, new_secret-Keeps, begin_totp-Keeps, totp_secret-Keeps, check_code-Keeps,
  confirm_totp-Keeps, verify_totp-Keeps, keep_factor-Keeps, disable_totp-Keeps, verify_factor-Keeps,
)
