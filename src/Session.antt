-- ===== src/Session.antt =====
-- Sessions: `sessionPrincipal` of oauth.go; `withPrincipalRaw`, `withPrincipal`, `require` and
-- `logout` of server.go.
use open_sso.Prelude.{
  ℕ, Text, text_eq, find, exists, update_where, ltb, ◌==◌, ◌&&◌, not, is_some, Bool, true, false,
  Option, none, some, if◌then◌else◌,
}
use open_sso.Store.{Db, Session, User, Target}
use open_sso.Web.{
  Env, World, M, Handler, ◌>>=◌, ◌>>◌, pure, stop, or_stop, check, ask, found, query, query_row,
  exec_, sha256_string, Response, respond, empty, problem,
}
use open_sso.Mfa.Policy.{required}
use open_sso.Audit.{audit}
pub mod Access

pub record Principal : Type 0 where
  pub session_id : ℕ
  pub user_id : ℕ
  pub username : Text
  pub must_change_password : Bool
  pub mfa_verified : Bool

-- The session is neither revoked nor expired.
abbrev pub live : Text → ℕ → Session → Bool
live hash now s = text_eq s.token_hash hash && not (is_some s.revoked_at) && ltb now s.expires_at

unfoldable join_principal : Session → User → Principal
join_principal s u = record {
  session_id = s.id;
  user_id = u.id;
  username = u.username;
  must_change_password = u.must_change_password;
  mfa_verified = is_some s.mfa_verified_at;
}

-- `… FROM sessions s JOIN users u ON u.id=s.user_id WHERE s.token_hash=$1 AND … AND u.active=true`.
unfoldable pub find_principal : Text → ℕ → Db → Option Principal
unfolding join_principal
find_principal hash now db = elim (find (live hash now) db.sessions) [
  | none ↦ none
  | some s ↦ elim (find (λ u. u.id == s.user_id && u.active) db.users) [
    | none ↦ none
    | some u ↦ some (join_principal s u)
  ]
]

-- `UPDATE sessions SET last_seen_at=now() WHERE id=$1`.
unfoldable pub touch : ℕ → ℕ → Db → Db
touch now id db = record db {
  sessions = update_where (λ s. s.id == id) (λ s. record s { last_seen_at = now }) db.sessions;
}

abbrev pub touched : {R : Type 0} → ℕ → Option Principal → M R (Option Principal)
touched now none = pure none
touched now (some p) = exec_ (touch now p.session_id) >> pure (some p)

-- The principal of a session cookie, if there is one.
unfoldable pub session_principal : {R : Type 0} → Option Text → M R (Option Principal)
unfolding touch find_principal
session_principal none = pure none
session_principal (some token) = do
  hash ← ask (λ e. sha256_string e token)
  now ← ask (λ e. e.db_now)
  r ← query_row (find_principal hash now)
  touched now (found r)

-- `withPrincipalRaw`.
unfoldable pub with_principal_raw : Option Text → (Principal → Handler) → Handler
unfolding session_principal
with_principal_raw cookie next = do
  p ← or_stop (← session_principal cookie) (problem 401 "authentication required")
  next p

-- The test that `withPrincipal` adds.
unfoldable pub check_mfa : (Principal → Handler) → Principal → Handler
unfolding required
check_mfa next p = do
  needed ← or_stop (← required p.user_id none) (problem 500 "MFA policy lookup failed")
  check (not (needed && not p.mfa_verified)) (problem 403 "MFA verification required")
  next p

-- `withPrincipal`.
unfoldable pub with_principal : Option Text → (Principal → Handler) → Handler
with_principal cookie next = with_principal_raw cookie (check_mfa next)

-- Whether a role of the user has the permission.
unfoldable pub has_permission : ℕ → Text → Db → Bool
has_permission user_id permission db =
    exists
      (λ a.
        a.user_id == user_id
        && exists
            (λ rp.
              rp.role_id == a.role_id
              && exists (λ p. p.id == rp.permission_id && text_eq p.name permission) db.permissions)
            db.role_permissions)
      db.role_assignments

unfoldable pub check_permission : Text → (Principal → Handler) → Principal → Handler
unfolding has_permission
check_permission permission next p = do
  check (not p.must_change_password) (problem 403 "password change required")
  allowed ←
      or_stop (← query (has_permission p.user_id permission)) (problem 403 "permission denied")
  check allowed (problem 403 "permission denied")
  next p

-- `require`.
unfoldable pub require : Option Text → Text → (Principal → Handler) → Handler
require cookie permission next = with_principal cookie (check_permission permission next)

-- `UPDATE sessions SET revoked_at=now() WHERE token_hash=$1 AND revoked_at IS NULL`.
unfoldable pub end_session : ℕ → Text → Db → Db
end_session now hash db = record db {
  sessions =
      update_where (λ s. text_eq s.token_hash hash && not (is_some s.revoked_at))
        (λ s. record s { revoked_at = some now }) db.sessions;
}

-- The session of the cookie is ended, if there is one.
abbrev pub end_presented : {R : Type 0} → ℕ → Option Text → M R (Unit {0})
end_presented now none = pure tt
end_presented now (some hash) = exec_ (end_session now hash)

-- `logout`, for the principal of the request.
unfoldable pub logout : Option Text → Principal → Handler
unfolding end_session
logout cookie p = do
  now ← ask (λ e. e.db_now)
  hash ← ask (λ e. elim cookie [ none ↦ none | some token ↦ some (sha256_string e token) ])
  end_presented now hash
  audit (some p.user_id) "LOGOUT" (Target.user p.user_id) true
  pure (respond 204 empty)
