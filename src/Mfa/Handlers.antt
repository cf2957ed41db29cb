-- ===== src/Mfa/Handlers.antt =====
-- The handlers of backend/internal/httpapi/mfa.go for a user's own factors, on requests whose body
-- decodes.
use open_sso.Prelude.{
  ℕ, ◌*◌, Text, codes, text_eq, trim_space, ◌==◌, ◌&&◌, not, is_some, ltb, true, false, none, some,
  if◌then◌else◌, [], ◌++◌, count, update_where,
}
use open_sso.Store.{Db, Target}
use open_sso.Web.{
  M, Handler, MfaError, not_enrolled, already_enrolled, invalid_code, last_required_factor, failure,
  Response, ◌>>=◌, ◌>>◌, pure, stop, or_stop, or_answer, or_else, check, ask, exec_count, minute,
  respond, problem, empty, flag, texts, factors_of, enrollment, ceremony, security_key,
}
use open_sso.Audit.{audit}
use open_sso.Session.{Principal}
use open_sso.Mfa.Policy.{mfa_allow, status}
use open_sso.Mfa.Recovery.{regenerate_recovery_codes, ensure_recovery_codes}
use open_sso.Mfa.Totp.{begin_totp, confirm_totp, disable_totp, verify_factor}
use open_sso.Mfa.Webauthn.{
  begin_registration, finish_registration, begin_login, finish_login, list_keys, delete_key,
}

-- `handleMFAError`: the text of an error without a name is left out.
unfoldable pub mfa_error : MfaError → Response
mfa_error invalid_code = problem 401 "invalid MFA verification"
mfa_error not_enrolled = problem 404 "MFA factor is not enrolled"
mfa_error already_enrolled = problem 409 "MFA factor is already enrolled"
mfa_error last_required_factor =
    problem 409 "cannot remove the final MFA factor while policy requires MFA"
mfa_error failure = respond 400 empty

-- The same, after the audit of a challenge that failed.
unfoldable pub challenge_failed : {A : Type 0} → Principal → MfaError → M Response A
unfolding mfa_error
challenge_failed p x = do
  audit (some p.user_id) "MFA_CHALLENGE_FAILED" (Target.user p.user_id) false
  stop (mfa_error x)

-- `allowMFAMutation`.
unfoldable pub allow_mfa_mutation : Principal → M Response (Unit {0})
unfolding status
allow_mfa_mutation p = do
  st ← or_stop (← status p.user_id none) (problem 500 "MFA status lookup failed")
  check (not (st.has_primary_factor && not p.mfa_verified))
      (problem 403 "MFA verification required before changing MFA factors")

-- The limit of a bucket, for a user at an address.
unfoldable pub limit_mfa : Text → Principal → Text → ℕ → ℕ → Response → M Response (Unit {0})
unfolding mfa_allow
limit_mfa bucket p ip limit ttl refusal = do
  key ← ask (λ e. e.uuid_text p.user_id ++ codes ":" ++ ip)
  allowed ← mfa_allow bucket key limit ttl
  check allowed refusal

-- `UPDATE sessions SET mfa_verified_at=now(),last_seen_at=now() WHERE id=$1 AND user_id=$2 AND
-- revoked_at IS NULL AND expires_at>now()`.
unfoldable pub mark_verified : ℕ → Principal → Db → Db
mark_verified now p db = record db {
  sessions =
      update_where
        (λ s.
          s.id == p.session_id
          && s.user_id == p.user_id
          && not (is_some s.revoked_at)
          && ltb now s.expires_at)
        (λ s. record s { mfa_verified_at = some now; last_seen_at = now }) db.sessions;
}

-- `markSessionMFAVerified`, and what its callers do with an error.
unfoldable pub mark_session : Principal → M Response (Unit {0})
unfolding mark_verified
mark_session p = do
  now ← ask (λ e. e.db_now)
  n ←
      or_stop
        (← exec_count
          (λ db.
            count
              (λ s.
                s.id == p.session_id
                && s.user_id == p.user_id
                && not (is_some s.revoked_at)
                && ltb now s.expires_at)
              db.sessions)
          (mark_verified now p))
        (problem 500 "failed to update MFA session assurance")
  check (not (n == 0)) (problem 500 "failed to update MFA session assurance")

unfoldable pub my_mfa_status : Principal → Handler
unfolding status list_keys
my_mfa_status p = do
  st ← or_stop (← status p.user_id none) (problem 500 "MFA status lookup failed")
  keys ← or_stop (← list_keys p.user_id) (problem 500 "WebAuthn credential lookup failed")
  pure (respond 200 (factors_of (some p.mfa_verified) st keys))

abbrev many_enrollments : Response
many_enrollments = problem 429 "too many MFA enrollment attempts"

unfoldable pub begin_totp_enrollment : Principal → Text → Handler
unfolding allow_mfa_mutation limit_mfa begin_totp mfa_error
begin_totp_enrollment p ip = do
  allow_mfa_mutation p
  limit_mfa (codes "totp-enroll") p ip 10 (5 * minute) many_enrollments
  x ← or_answer (begin_totp p.user_id p.username) mfa_error
  audit (some p.user_id) "MFA_ENROLLMENT_STARTED" (Target.user p.user_id) true
  pure (respond 200 (enrollment x.secret x.otp_auth_url x.qr_code))

unfoldable pub confirm_totp_enrollment : Principal → Text → Text → Handler
unfolding allow_mfa_mutation limit_mfa confirm_totp challenge_failed mark_session
confirm_totp_enrollment p ip code = do
  allow_mfa_mutation p
  limit_mfa (codes "totp-confirm") p ip 10 (5 * minute) many_enrollments
  new ← or_else (confirm_totp p.user_id code) (challenge_failed p)
  mark_session p
  audit (some p.user_id) "MFA_ADDED" (Target.user p.user_id) true
  pure (respond 200 (texts new))

unfoldable pub disable_totp_factor : Principal → Handler
unfolding allow_mfa_mutation disable_totp mfa_error
disable_totp_factor p = do
  allow_mfa_mutation p
  or_answer (disable_totp p.user_id) mfa_error
  audit (some p.user_id) "MFA_REMOVED" (Target.user p.user_id) true
  pure (respond 204 empty)

unfoldable pub regenerate_codes : Principal → Text → Handler
unfolding status limit_mfa regenerate_recovery_codes
regenerate_codes p ip = do
  st ← or_stop (← status p.user_id none) (problem 500 "MFA status lookup failed")
  check st.has_primary_factor
      (problem 409 "enroll TOTP, a security key, or a passkey before generating recovery codes")
  check p.mfa_verified (problem 403 "MFA verification required before regenerating recovery codes")
  limit_mfa (codes "recovery-regenerate") p ip 5 (10 * minute)
      (problem 429 "too many recovery-code operations")
  new ←
      or_answer (regenerate_recovery_codes p.user_id)
        (λ _. problem 500 "failed to regenerate recovery codes")
  audit (some p.user_id) "MFA_RECOVERY_REGENERATED" (Target.user p.user_id) true
  pure (respond 200 (texts new))

abbrev many_keys : Response
many_keys = problem 429 "too many WebAuthn enrollment attempts"

unfoldable pub begin_webauthn_registration : Principal → Text → Text → Handler
unfolding allow_mfa_mutation limit_mfa begin_registration mfa_error
begin_webauthn_registration p ip kind = do
  allow_mfa_mutation p
  limit_mfa (codes "webauthn-register") p ip 10 (5 * minute) many_keys
  x ← or_answer (begin_registration p.user_id (trim_space kind)) mfa_error
  audit (some p.user_id) "MFA_ENROLLMENT_STARTED" (Target.user p.user_id) true
  pure (respond 200 (ceremony x.0 x.1))

unfoldable pub finish_webauthn_registration : Principal → Text → Text → Text → Text → Handler
unfolding allow_mfa_mutation limit_mfa finish_registration challenge_failed ensure_recovery_codes
    mark_session
finish_webauthn_registration p ip token display_name request = do
  allow_mfa_mutation p
  limit_mfa (codes "webauthn-register-finish") p ip 10 (5 * minute) many_keys
  key ← or_else (finish_registration p.user_id token display_name request) (challenge_failed p)
  new ←
      or_answer (ensure_recovery_codes p.user_id)
        (λ _. problem 500 "failed to ensure recovery codes")
  mark_session p
  audit (some p.user_id) "MFA_ADDED" (Target.user p.user_id) true
  pure (respond 201 (security_key key new))

unfoldable pub delete_webauthn_credential : Principal → ℕ → Handler
unfolding allow_mfa_mutation delete_key mfa_error
delete_webauthn_credential p id = do
  allow_mfa_mutation p
  or_answer (delete_key p.user_id id) mfa_error
  audit (some p.user_id) "MFA_REMOVED" (Target.user p.user_id) true
  pure (respond 204 empty)

abbrev many_attempts : Response
many_attempts = problem 429 "too many MFA verification attempts"

unfoldable pub verify_mfa_factor : Principal → Text → Text → Text → Handler
unfolding limit_mfa verify_factor challenge_failed mark_session
verify_mfa_factor p ip method code = do
  limit_mfa (codes "verify") p ip 10 (5 * minute) many_attempts
  or_else (verify_factor p.user_id (trim_space method) code) (challenge_failed p)
  mark_session p
  audit (some p.user_id)
      (if text_eq (trim_space method) (codes "recovery")
        then "MFA_RECOVERY_USED"
        else "MFA_CHALLENGE_SUCCESS")
      (Target.user p.user_id) true
  audit (some p.user_id) "LOGIN_SUCCESS" (Target.user p.user_id) true
  pure (respond 200 (flag true))

unfoldable pub begin_webauthn_authentication : Principal → Text → Handler
unfolding limit_mfa begin_login mfa_error
begin_webauthn_authentication p ip = do
  limit_mfa (codes "webauthn-verify") p ip 10 (5 * minute) many_attempts
  x ← or_answer (begin_login p.user_id) mfa_error
  pure (respond 200 (ceremony x.0 x.1))

unfoldable pub finish_webauthn_authentication : Principal → Text → Text → Text → Handler
unfolding limit_mfa finish_login challenge_failed mark_session
finish_webauthn_authentication p ip token request = do
  limit_mfa (codes "webauthn-verify-finish") p ip 10 (5 * minute) many_attempts
  key ← or_else (finish_login p.user_id token request) (challenge_failed p)
  mark_session p
  audit (some p.user_id) "MFA_CHALLENGE_SUCCESS" (Target.webauthn_credential key.id) true
  audit (some p.user_id) "LOGIN_SUCCESS" (Target.user p.user_id) true
  pure (respond 200 (security_key key []))
