-- ===== src/Mfa/Totp.antt =====
-- TOTP of service.go: `BeginTOTP`, `ConfirmTOTP`, `VerifyTOTP`, `DisableTOTP`, `totpSecret`, and
-- `VerifyFactor`.
use open_sso.Prelude.{
  ℕ, suc, Text, codes, text_eq, trim_space, find, exists, count, select, update_where, ◌==◌, ◌&&◌,
  not, Bool, true, false, Option, none, some, if◌then◌else◌, List, [], ◌∷◌, ◌++◌, coalesce,
}
use open_sso.Store.{Db, TotpCredential}
use open_sso.Web.{
  Env, M, MfaError, not_enrolled, already_enrolled, invalid_code, last_required_factor, failure,
  ◌>>=◌, ◌>>◌, pure, stop, or_stop, check, ask, Row, failed, no_rows, row, query, query_row, exec,
  exec_count, try_exec, commit, transaction,
}
use open_sso.Mfa.Box.{encrypt, decrypt}
use open_sso.Mfa.Policy.{required}
use open_sso.Mfa.Recovery.{generate_recovery_codes, unused_codes, verify_recovery_code, delete_totp}
pub mod Removal

-- `TOTPEnrollment`.
pub record TotpEnrollment : Type 0 where
  pub secret : Text
  pub otp_auth_url : Text
  pub qr_code : Text

abbrev totp_aad : Env → ℕ → Text
totp_aad e user_id = codes "totp:" ++ e.uuid_text user_id

unfoldable find_totp : ℕ → Db → Option TotpCredential
find_totp user_id db = find (λ c. c.user_id == user_id) db.totp_credentials

-- `INSERT INTO mfa_totp_credentials … ON CONFLICT(user_id) DO UPDATE …`: a pending credential takes
-- the place of the one that is there; the user has to exist.
unfoldable pub put_totp : ℕ → Text → Db → Option Db
put_totp user_id encrypted db =
    if exists (λ u. u.id == user_id) db.users
    then some (record db {
      totp_credentials =
          record {
            user_id = user_id;
            encrypted_secret = encrypted;
            active = false;
            verified_at = none;
            last_used_at = none;
          }
          ∷ select (λ c. not (c.user_id == user_id)) db.totp_credentials;
    })
    else none

-- The test on the row that is there.
abbrev pub check_pending : Row TotpCredential → M MfaError (Unit {0})
check_pending failed = stop failure
check_pending no_rows = pure tt
check_pending (row c) = check (not c.active) already_enrolled

-- A secret with its URL, from the random source.
abbrev pub new_secret : Text → M MfaError (Text × Text)
new_secret account e w =
    or_stop (e.totp_generate w.draws account) failure e (record w { draws = suc w.draws })

unfoldable pub begin_totp : ℕ → Text → M MfaError TotpEnrollment
unfolding find_totp put_totp encrypt
begin_totp user_id account = do
  r ← query_row (find_totp user_id)
  check_pending r
  (secret, url) ← new_secret account
  aad ← ask (λ e. totp_aad e user_id)
  encrypted ← encrypt secret aad
  stored ← try_exec (put_totp user_id encrypted)
  check stored failure
  image ← or_stop (← ask (λ e. e.qr_image url)) failure
  pure (record { secret = secret; otp_auth_url = url; qr_code = image })

abbrev pub known : Row TotpCredential → M MfaError TotpCredential
known failed = stop failure
known no_rows = stop not_enrolled
known (row c) = pure c

-- `totpSecret`.
unfoldable pub totp_secret : ℕ → Bool → M MfaError Text
unfolding decrypt
totp_secret user_id active_only = do
  r ← query_row (λ db.
      find (λ c. c.user_id == user_id && (if active_only then c.active else true))
        db.totp_credentials)
  c ← known r
  or_stop (← ask (λ e. decrypt e c.encrypted_secret (totp_aad e user_id))) failure

-- `totp.ValidateCustom`, and what its callers do with the answer.
unfoldable pub check_code : Text → Text → M MfaError (Unit {0})
check_code code secret = do
  valid ← or_stop (← ask (λ e. e.totp_valid (trim_space code) secret e.now)) failure
  check valid invalid_code

-- `UPDATE mfa_totp_credentials SET active=true,verified_at=now(),last_used_at=now() WHERE user_id=$1`.
unfoldable pub activate_totp : ℕ → ℕ → Db → Db
activate_totp now user_id db = record db {
  totp_credentials =
      update_where (λ c. c.user_id == user_id)
        (λ c. record c { active = true; verified_at = some now; last_used_at = some now })
        db.totp_credentials;
}

-- The part of `ConfirmTOTP` in the transaction.
unfoldable pub activate : ℕ → M MfaError (List Text)
unfolding activate_totp generate_recovery_codes
activate user_id = do
  now ← ask (λ e. e.db_now)
  activated ← exec (activate_totp now user_id)
  check activated failure
  n ← or_stop (← query (unused_codes user_id)) failure
  new ← (if n == 0 then generate_recovery_codes user_id 10 else pure [])
  committed ← commit
  check committed failure
  pure new

unfoldable pub confirm_totp : ℕ → Text → M MfaError (List Text)
unfolding totp_secret check_code activate
confirm_totp user_id code = do
  secret ← totp_secret user_id false
  check_code code secret
  transaction failure (activate user_id)

-- `UPDATE mfa_totp_credentials SET last_used_at=now() WHERE user_id=$1 AND active=true`.
unfoldable pub use_totp : ℕ → ℕ → Db → Db
use_totp now user_id db = record db {
  totp_credentials =
      update_where (λ c. c.user_id == user_id && c.active)
        (λ c. record c { last_used_at = some now }) db.totp_credentials;
}

unfoldable pub verify_totp : ℕ → Text → M MfaError (Unit {0})
unfolding totp_secret check_code use_totp
verify_totp user_id code = do
  secret ← totp_secret user_id true
  check_code code secret
  now ← ask (λ e. e.db_now)
  used ← exec (use_totp now user_id)
  check used failure

abbrev keys_of : ℕ → Db → ℕ
keys_of user_id db = count (λ c. c.user_id == user_id) db.webauthn_credentials

-- Under a policy that requires a second factor, another one has to stay.
unfoldable pub keep_factor : ℕ → Bool → M MfaError (Unit {0})
keep_factor user_id false = pure tt
keep_factor user_id true = do
  other ← or_stop (← query (keys_of user_id)) failure
  check (not (other == 0)) last_required_factor

unfoldable pub disable_totp : ℕ → M MfaError (Unit {0})
unfolding keep_factor required
disable_totp user_id = do
  needed ← or_stop (← required user_id none) failure
  keep_factor user_id needed
  n ←
      or_stop
        (← exec_count (λ db. count (λ c. c.user_id == user_id) db.totp_credentials)
          (delete_totp user_id))
        failure
  check (not (n == 0)) not_enrolled

-- `VerifyFactor`.
unfoldable pub verify_factor : ℕ → Text → Text → M MfaError (Unit {0})
unfolding verify_totp verify_recovery_code
verify_factor user_id method code =
    if text_eq method (codes "totp")
    then verify_totp user_id code
    else if text_eq method (codes "recovery")
    then verify_recovery_code user_id code
    else stop failure
