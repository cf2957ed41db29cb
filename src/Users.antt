-- ===== src/Users.antt =====
-- The administration of users, their passwords and sessions: `updateUser`, `unlockUser`,
-- `resetUserPassword`, `changeOwnPassword`, `revokeSession`, `revokeUserSessions` and
-- `revokeAllSessions` of backend/internal/httpapi/stage1.go.
use open_sso.Prelude.{
  ℕ, String, Text, text_eq, codes, trim_space, find, exists, count, update_where, ltb, ◌==◌, ◌&&◌,
  ◌||◌, not, is_some, Bool, true, false, List, [], ◌∷◌, Option, none, some, if◌then◌else◌,
}
use open_sso.Store.{Db, User, PasswordCredential, Session, Target}
use open_sso.Web.{
  Env, World, M, Handler, ◌>>=◌, ◌>>◌, pure, or_stop, or_answer, check, ask, found, query_row, exec,
  exec_, exec_count, try_exec_count, commit, transaction, Response, respond, empty, created,
  count_of, problem,
}
use open_sso.Audit.{audit, audit_tx}
use open_sso.Mfa.Policy.{required}
use open_sso.Session.{Principal}
use open_sso.Password.{verify_password, hash_password}
use open_sso.Policy.{get_security_policy, password_policy_violation}
pub mod Reset

-- `UPDATE sessions SET revoked_at=now() WHERE user_id=$1 AND revoked_at IS NULL`.
unfoldable pub end_user_sessions : ℕ → ℕ → Db → Db
end_user_sessions now user_id db = record db {
  sessions =
      update_where (λ s. s.user_id == user_id && not (is_some s.revoked_at))
        (λ s. record s { revoked_at = some now }) db.sessions;
}

-- The rows of a user that a statement affects.
abbrev pub rows_of : ℕ → Db → ℕ
rows_of id db = count (λ u. u.id == id) db.users

unfoldable pub change_user : ℕ → (User → User) → Db → Db
change_user id g db = record db { users = update_where (λ u. u.id == id) g db.users }

-- `UPDATE users SET email=lower($1),display_name=$2,active=$3 WHERE id=$4`: the address is unique.
unfoldable pub edit_user : ℕ → Text → Text → Bool → Db → Option Db
unfolding change_user
edit_user id email display_name active db =
    if exists (λ u. u.id == id) db.users
      && exists (λ u. not (u.id == id) && text_eq u.email email) db.users
    then none
    else some (
        change_user id
          (λ u. record u { email = email; display_name = display_name; active = active }) db)

-- `strings.Contains(email, "@")`.
abbrev pub has_at : Text → Bool
has_at s = exists (λ c. c == b'@') s

unfoldable pub update_user : Principal → ℕ → Text → Text → Option Bool → Handler
unfolding edit_user end_user_sessions
update_user actor id email display_name active = do
  check (has_at (trim_space email)) (problem 400 "invalid email")
  active ← or_stop active (problem 400 "active is required")
  address ← ask (λ e. e.lower (trim_space email))
  n ←
      or_stop
        (← try_exec_count (rows_of id) (edit_user id address (trim_space display_name) active))
        (problem 409 "email already exists or user update failed")
  check (not (n == 0)) (problem 404 "user not found")
  now ← ask (λ e. e.db_now)
  (if active then pure tt else exec_ (end_user_sessions now id))
  audit (some actor.user_id) "USER_UPDATED" (Target.user id) true
  pure (respond 200 (created id))

abbrev pub unlocked : User → User
unlocked u = record u { failed_logins = 0; locked_until = none }

unfoldable pub unlock_user : Principal → ℕ → Handler
unfolding change_user
unlock_user actor id = do
  n ← or_stop (← exec_count (rows_of id) (change_user id unlocked)) (problem 500 "database error")
  check (not (n == 0)) (problem 404 "user not found")
  audit (some actor.user_id) "USER_UNLOCKED" (Target.user id) true
  pure (respond 204 empty)

-- `UPDATE password_credentials SET password_hash=$1 WHERE user_id=$2`.
unfoldable pub set_password : ℕ → Text → Db → Db
set_password id hash db = record db {
  passwords =
      update_where (λ c. c.user_id == id) (λ c. record c { password_hash = hash }) db.passwords;
}

-- The part of a reset in the transaction.
unfoldable pub store_reset : Principal → ℕ → Text → Handler
unfolding set_password change_user end_user_sessions
store_reset actor id hash = do
  n ←
      or_stop
        (← exec_count (λ db. count (λ c. c.user_id == id) db.passwords) (set_password id hash))
        (problem 404 "user not found")
  check (not (n == 0)) (problem 404 "user not found")
  marked ← exec (change_user id (λ u. record (unlocked u) { must_change_password = true }))
  check marked (problem 500 "database error")
  now ← ask (λ e. e.db_now)
  ended ← exec (end_user_sessions now id)
  check ended (problem 500 "database error")
  logged ← audit_tx (some actor.user_id) "PASSWORD_RESET" (Target.user id) true
  check logged (problem 500 "audit error")
  committed ← commit
  check committed (problem 500 "database error")
  pure (respond 204 empty)

-- A new password, hashed, if the policy admits it.
unfoldable pub check_policy : Text → M Response (Unit {0})
unfolding get_security_policy
check_policy password = do
  policy ← or_stop (← get_security_policy) (problem 500 "database error")
  violation ← ask (λ e. password_policy_violation e policy password)
  elim violation [ none ↦ pure tt | some message ↦ check false (problem 400 message) ]

unfoldable pub reset_user_password : Principal → ℕ → Text → Handler
unfolding check_policy store_reset hash_password
reset_user_password actor id password = do
  check_policy password
  hash ← or_answer (hash_password password) (problem 400)
  transaction (problem 500 "database error") (store_reset actor id hash)

-- The part of a change in the transaction.
unfoldable pub store_change : Principal → Text → Handler
unfolding set_password change_user
store_change p hash = do
  stored ← exec (set_password p.user_id hash)
  check stored (problem 500 "database error")
  marked ← exec (change_user p.user_id (λ u. record u { must_change_password = false }))
  check marked (problem 500 "database error")
  logged ← audit_tx (some p.user_id) "PASSWORD_CHANGED" (Target.user p.user_id) true
  check logged (problem 500 "audit error")
  committed ← commit
  check committed (problem 500 "database error")
  pure (respond 204 empty)

-- A second factor is asked for, unless the password must be changed.
unfoldable pub check_factor : Principal → M Response (Unit {0})
unfolding required
check_factor p = do
  needed ← or_stop (← required p.user_id none) (problem 500 "MFA policy lookup failed")
  check (not (needed && not p.mfa_verified))
      (problem 403 "MFA verification required before changing password")

unfoldable pub change_own_password : Principal → Text → Text → Handler
unfolding check_factor check_policy store_change hash_password
change_own_password p current password = do
  (if p.must_change_password then pure tt else check_factor p)
  c ←
      or_stop (found (← query_row (λ db. find (λ c. c.user_id == p.user_id) db.passwords)))
        (problem 500 "database error")
  known ← ask (λ e. verify_password e c.password_hash current)
  check known (problem 401 "current password is invalid")
  check_policy password
  same ← ask (λ e. verify_password e c.password_hash password)
  check (not same) (problem 400 "new password must differ from current password")
  hash ← or_answer (hash_password password) (problem 400)
  transaction (problem 500 "database error") (store_change p hash)

-- `UPDATE sessions SET revoked_at=now() WHERE id=$1 AND revoked_at IS NULL`.
unfoldable pub end_session_by_id : ℕ → ℕ → Db → Db
end_session_by_id now id db = record db {
  sessions =
      update_where (λ s. s.id == id && not (is_some s.revoked_at))
        (λ s. record s { revoked_at = some now }) db.sessions;
}

unfoldable pub revoke_session : Principal → ℕ → Handler
unfolding end_session_by_id
revoke_session actor id = do
  now ← ask (λ e. e.db_now)
  n ←
      or_stop
        (← exec_count (λ db. count (λ s. s.id == id && not (is_some s.revoked_at)) db.sessions)
          (end_session_by_id now id))
        (problem 500 "database error")
  check (not (n == 0)) (problem 404 "active session not found")
  audit (some actor.user_id) "SESSION_REVOKED" (Target.session id) true
  pure (respond 204 empty)

unfoldable pub revoke_user_sessions : Principal → ℕ → Handler
unfolding end_user_sessions
revoke_user_sessions actor id = do
  now ← ask (λ e. e.db_now)
  ended ← exec (end_user_sessions now id)
  check ended (problem 500 "database error")
  audit (some actor.user_id) "SESSION_REVOKED" (Target.user id) true
  pure (respond 204 empty)

-- `UPDATE sessions SET revoked_at=now() WHERE revoked_at IS NULL AND expires_at>now()`.
unfoldable pub end_live_sessions : ℕ → Db → Db
end_live_sessions now db = record db {
  sessions =
      update_where (λ s. not (is_some s.revoked_at) && ltb now s.expires_at)
        (λ s. record s { revoked_at = some now }) db.sessions;
}

unfoldable pub revoke_all_sessions : Principal → Handler
unfolding end_live_sessions
revoke_all_sessions actor = do
  now ← ask (λ e. e.db_now)
  n ←
      or_stop
        (← exec_count
          (λ db. count (λ s. not (is_some s.revoked_at) && ltb now s.expires_at) db.sessions)
          (end_live_sessions now))
        (problem 500 "database error")
  audit (some actor.user_id) "SESSION_REVOKED" Target.global true
  pure (respond 200 (count_of n))
