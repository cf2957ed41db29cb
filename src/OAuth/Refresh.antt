-- ===== src/OAuth/Refresh.antt =====
-- `refreshTokenGrant`: rotation, and revocation of the family on reuse.
use open_sso.Prelude.{
  ℕ, Text, [], text_eq, is_empty, find, update_where, ltb, ◌==◌, ◌&&◌, ◌||◌, not, is_some, coalesce,
  Bool, true, false, Option, none, some, if◌then◌else◌,
}
use open_sso.Store.{Db, RefreshToken, AuditEvent, Target}
use open_sso.Web.{
  Env, World, M, Handler, ◌>>=◌, ◌>>◌, pure, stop, or_stop, check, ask, attempt, found, query_row,
  exec, exec_, commit, transaction, sha256_string, Response, respond, tokens, oauth_json_error,
}
use open_sso.OAuth.Client.{OauthClient, TokenForm}
use open_sso.OAuth.Deliver.{server_error, invalid_grant, issue_and_deliver}
pub mod Rotation
pub mod Laws
use open_sso.Audit.{audit}

-- `… FROM refresh_tokens WHERE token_hash=$1 AND application_id=$2`.
unfoldable pub find_refresh : Text → ℕ → Db → Option RefreshToken
find_refresh hash application_id db =
    find (λ t. text_eq t.token_hash hash && t.application_id == application_id) db.refresh_tokens

-- `UPDATE refresh_tokens SET consumed_at=now() WHERE id=$1`.
unfoldable pub consume_refresh : ℕ → ℕ → Db → Db
consume_refresh now id db = record db {
  refresh_tokens =
      update_where (λ t. t.id == id) (λ t. record t { consumed_at = some now }) db.refresh_tokens;
}

-- `UPDATE refresh_tokens SET revoked_at=COALESCE(revoked_at,now()) WHERE family_id=$1`.
abbrev pub revoke_token_row : ℕ → RefreshToken → RefreshToken
revoke_token_row now t = record t { revoked_at = some (coalesce t.revoked_at now) }

unfoldable pub revoke_family : ℕ → Text → Db → Db
revoke_family now family db = record db {
  refresh_tokens =
      update_where (λ t. text_eq t.family_id family) (revoke_token_row now) db.refresh_tokens;
}

-- Presenting a token that was consumed or revoked: the errors of the three statements are ignored.
unfoldable pub reuse_detected : OauthClient → RefreshToken → Handler
reuse_detected client t = do
  now ← ask (λ e. e.db_now)
  exec_ (revoke_family now t.family_id)
  commit >>= λ _. pure tt
  audit (some t.user_id) "REFRESH_TOKEN_REUSE" (Target.application client.application_id) false
  pure (invalid_grant "refresh token reuse detected")

-- The part in the transaction, after the row was found.
unfoldable pub rotate_refresh : OauthClient → RefreshToken → Handler
rotate_refresh client t = do
  expired ← ask (λ e. ltb t.expires_at e.now)
  check (not expired) (invalid_grant "refresh token expired")
  now ← ask (λ e. e.db_now)
  consumed ← exec (consume_refresh now t.id)
  check consumed (server_error "database error")
  issue_and_deliver client t.user_id t.scope [] t.family_id (some t.id)

unfoldable pub redeem_refresh : OauthClient → TokenForm → Handler
unfolding reuse_detected rotate_refresh
redeem_refresh client f = do
  hash ← ask (λ e. sha256_string e f.refresh_token)
  t ←
      or_stop (found (← query_row (find_refresh hash client.application_id)))
        (invalid_grant "refresh token is invalid")
  (if is_some t.consumed_at || is_some t.revoked_at
      then reuse_detected client t
      else rotate_refresh client t)

unfoldable pub refresh_token_grant : OauthClient → TokenForm → Handler
unfolding redeem_refresh
refresh_token_grant client f = do
  check (not (is_empty f.refresh_token))
      (oauth_json_error 400 "invalid_request" "refresh_token is required")
  transaction (server_error "database error") (redeem_refresh client f)
