-- ===== src/Login.antt =====
-- `login` of backend/internal/httpapi/server.go.
use open_sso.Prelude.{
  ℕ, suc, ◌+◌, ◌*◌, Text, text_eq, trim_space, find, exists, leb, ltb, ◌==◌, ◌&&◌, ◌||◌, not, Bool,
  true, false, ◌∷◌, Option, none, some, if◌then◌else◌,
}
use open_sso.Store.{Db, User, SecurityPolicy, Session, Target}
use open_sso.Web.{
  MfaStatus, Env, Handler, ◌>>=◌, ◌>>◌, pure, or_stop, check, ask, draw, found, query_row, exec_,
  try_exec, minute, sha256_string, respond, problem, logged_in,
}
use open_sso.Web.Limits.{allow_login}
use open_sso.Audit.{audit}
use open_sso.Mfa.Policy.{status}
use open_sso.Password.{verify_password}
use open_sso.Policy.{get_security_policy}
use open_sso.Users.{change_user, unlocked}
pub mod Admission
pub mod Success

-- A user with the hash of the password.
pub record Account : Type 0 where
  pub user : User
  pub password_hash : Text

-- `… WHERE lower(u.username)=lower($1) OR lower(u.email)=lower($1)`, joined with the credentials.
unfoldable pub find_account : Env → Text → Db → Option Account
find_account e name db =
    elim (find
      (λ u.
        (text_eq (e.lower u.username) (e.lower name) || text_eq (e.lower u.email) (e.lower name))
        && exists (λ c. c.user_id == u.id) db.passwords)
      db.users) [
        | none ↦ none
        | some u ↦ elim (find (λ c. c.user_id == u.id) db.passwords) [
          | none ↦ none
          | some c ↦ some (record { user = u; password_hash = c.password_hash })
        ]
      ]

-- No lock, or one that has ended.
abbrev not_locked : ℕ → Option ℕ → Bool
not_locked now none = true
not_locked now (some t) = ltb t now

unfoldable pub admits : Env → Account → Text → Bool
admits e a password =
    a.user.active
    && not_locked e.now a.user.locked_until
    && verify_password e a.password_hash password

-- The update after a failure: the lock is set once the threshold is reached.
unfoldable count_failure : ℕ → SecurityPolicy → User → User
count_failure now p u = record u {
  failed_logins = suc u.failed_logins;
  locked_until =
      if leb p.lockout_threshold (suc u.failed_logins)
      then some (now + p.lockout_minutes * minute)
      else u.locked_until;
}

-- The answer to a login that is not valid.
unfoldable pub refuse : SecurityPolicy → Option Account → Handler
unfolding count_failure change_user
refuse p a = do
  now ← ask (λ e. e.db_now)
  elim a [ none ↦ pure tt | some b ↦ exec_ (change_user b.user.id (count_failure now p)) ]
  audit none "LOGIN_FAILED" (elim a [ none ↦ Target.unknown_user | some b ↦ Target.user b.user.id ])
      false
  pure (problem 401 "invalid credentials")

unfoldable pub session_row : Env → SecurityPolicy → Text → ℕ → ℕ → Session
session_row e p token user_id id = record {
  id = id;
  user_id = user_id;
  token_hash = sha256_string e token;
  last_seen_at = e.db_now;
  expires_at = e.now + p.session_ttl_minutes * minute;
  revoked_at = none;
  mfa_verified_at = none;
}

-- `INSERT INTO sessions`: the hash of the token is unique.
unfoldable pub insert_session : (ℕ → Session) → Db → Option Db
insert_session s db =
    if exists (λ d. text_eq d.token_hash (s db.next_id).token_hash) db.sessions
    then none
    else some (record db { sessions = s db.next_id ∷ db.sessions; next_id = suc db.next_id })

-- The session of a valid login.
unfoldable pub open_session : SecurityPolicy → User → MfaStatus → Handler
unfolding session_row insert_session change_user
open_session p u mfa = do
  token ← or_stop (← draw) (problem 500 "entropy failure")
  s ← ask (λ e. session_row e p token u.id)
  stored ← try_exec (insert_session s)
  check stored (problem 500 "database error")
  exec_ (change_user u.id unlocked)
  (if mfa.required
      then audit (some u.id) "LOGIN_PRIMARY_SUCCESS" (Target.user u.id) true
      else audit (some u.id) "LOGIN_SUCCESS" (Target.user u.id) true)
  csrf ← or_stop (← draw) (problem 500 "entropy failure")
  pure (
      respond 200 (
        logged_in (record {
          user_id = u.id;
          username = u.username;
          session_token = token;
          csrf_token = csrf;
          expires_at = (s 0).expires_at;
          mfa_required = mfa.required;
          mfa_enrollment_required = mfa.required && not mfa.has_primary_factor;
        })))

-- The account, if the credentials are valid.
abbrev pub accepted_account : Env → Option Account → Text → Option Account
accepted_account e none password = none
accepted_account e (some a) password = if admits e a password then some a else none

unfoldable pub welcome : SecurityPolicy → Account → Handler
unfolding open_session status
welcome p a = do
  mfa ← or_stop (← status a.user.id none) (problem 500 "MFA policy lookup failed")
  open_session p a.user mfa

-- The two ends of `login`, for the account that was looked up and the one that is accepted.
abbrev pub answer_login : SecurityPolicy → Option Account → Option Account → Handler
answer_login p a none = refuse p a
answer_login p a (some b) = welcome p b

-- What `login` does once the request is counted.
unfoldable pub try_login : Text → Text → Bool → Handler
unfolding find_account admits refuse welcome get_security_policy
try_login username password allowed = do
  check allowed (problem 429 "too many login attempts")
  p ← or_stop (← get_security_policy) (problem 500 "database error")
  name ← ask (λ e. find_account e (trim_space username))
  a ← query_row name
  valid ← ask (λ e. accepted_account e (found a) password)
  answer_login p (found a) valid

unfoldable pub login : Text → Text → Text → Handler
unfolding try_login
login ip username password = do allowed ← allow_login ip; try_login username password allowed
