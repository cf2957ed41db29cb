-- ===== src/OAuth/Revocation.antt =====
-- `revokeToken` and `introspectToken`.
use open_sso.Prelude.{
  ℕ, Text, text_eq, codes, is_empty, find, update_where, ltb, ◌==◌, ◌&&◌, ◌||◌, not, is_some,
  coalesce, Bool, true, false, Option, none, some, if◌then◌else◌, List, [], Result, ok, err,
}
use open_sso.Store.{Db, AccessToken, RefreshToken, User}
use open_sso.Web.{
  Env, World, M, Handler, ◌>>=◌, ◌>>◌, pure, stop, or_stop, check, ask, attempt, found, query_row,
  exec, exec_, commit, transaction, sha256_string, Response, respond, tokens, oauth_json_error,
  TokenResponse, AccessClaims, Body, empty, inactive, introspection, Introspection, user_info,
  UserInfo, unix, minute,
}
use open_sso.Scope.{contains, contains_all, scopes_of, normalize_requested_scope}
use open_sso.OAuth.Client.{OauthClient, TokenForm, authenticate_oauth_client}
use open_sso.OAuth.Verify.{parse_access_token}
use open_sso.OAuth.Refresh.{find_refresh, revoke_family}
pub mod Agreement

-- `UPDATE oauth_access_tokens SET revoked_at=COALESCE(revoked_at,now()) WHERE jti=$1 AND application_id=$2`.
unfoldable pub revoke_access : ℕ → Text → ℕ → Db → Db
revoke_access now jti application_id db = record db {
  access_tokens =
      update_where (λ t. text_eq t.jti jti && t.application_id == application_id)
        (λ t. record t { revoked_at = some (coalesce t.revoked_at now) }) db.access_tokens;
}

-- Revocation by an access token: the claims must be for this client.
unfoldable pub revoke_by_claims : OauthClient → Option AccessClaims → Handler
unfolding revoke_access
revoke_by_claims client none = pure (respond 200 empty)
revoke_by_claims client (some claims) = do
  now ← ask (λ e. e.db_now)
  (if contains claims.audience client.client_id
      then exec_ (revoke_access now claims.jti client.application_id)
      else pure tt)
  pure (respond 200 empty)

-- The row of a refresh token, or else the text of an access token.
abbrev pub revoke_found : OauthClient → Text → ℕ → Option RefreshToken → Handler
revoke_found client raw now none = attempt (parse_access_token raw) >>= revoke_by_claims client
revoke_found client raw now (some t) =
    exec_ (revoke_family now t.family_id) >> pure (respond 200 empty)

-- The rest of `revokeToken`, with the client.
unfoldable pub revoke_presented : OauthClient → Text → Handler
unfolding revoke_by_claims
revoke_presented client raw = do
  hash ← ask (λ e. sha256_string e raw)
  now ← ask (λ e. e.db_now)
  r ← query_row (find_refresh hash client.application_id)
  revoke_found client raw now (found r)

unfoldable pub revoke_token : TokenForm → Handler
unfolding revoke_presented
revoke_token f = do
  check f.parses (oauth_json_error 400 "invalid_request" "invalid form body")
  client ←
      or_stop (← attempt (authenticate_oauth_client f))
        (oauth_json_error 401 "invalid_client" "client authentication failed")
  check (not (is_empty f.token)) (oauth_json_error 400 "invalid_request" "token is required")
  revoke_presented client f.token

-- The answer about a refresh token.
unfoldable pub refresh_status : Env → OauthClient → RefreshToken → Introspection
refresh_status e client t = record {
  active = not (is_some t.consumed_at) && not (is_some t.revoked_at) && ltb e.now t.expires_at;
  client_id = client.client_id;
  sub = e.uuid_text t.user_id;
  scope = t.scope;
  exp = unix t.expires_at;
  iat = none;
}

-- The answer about an access token.
unfoldable access_status : Env → OauthClient → AccessClaims → AccessToken → Introspection
access_status e client claims t = record {
  active = not (is_some t.revoked_at) && ltb e.now t.expires_at;
  client_id = client.client_id;
  sub = claims.subject;
  scope = t.scope;
  exp = unix t.expires_at;
  iat = some (unix claims.issued_at);
}

-- `… FROM oauth_access_tokens WHERE jti=$1 AND application_id=$2`.
unfoldable find_access : Text → ℕ → Db → Option AccessToken
find_access jti application_id db =
    find (λ t. text_eq t.jti jti && t.application_id == application_id) db.access_tokens

unfoldable pub introspect_access : OauthClient → Option AccessClaims → Handler
unfolding find_access access_status
introspect_access client none = pure (respond 200 inactive)
introspect_access client (some claims) = do
  check (contains claims.audience client.client_id) (respond 200 inactive)
  t ←
      or_stop (found (← query_row (find_access claims.jti client.application_id)))
        (respond 200 inactive)
  status ← ask (λ e. access_status e client claims t)
  pure (respond 200 (introspection status))

abbrev pub introspect_found : OauthClient → Text → Option RefreshToken → Handler
introspect_found client raw none = attempt (parse_access_token raw) >>= introspect_access client
introspect_found client raw (some t) =
    ask (λ e. refresh_status e client t) >>= λ status. pure (respond 200 (introspection status))

-- The rest of `introspectToken`, with the client.
unfoldable pub introspect_presented : OauthClient → Text → Handler
unfolding introspect_access refresh_status
introspect_presented client raw = do
  hash ← ask (λ e. sha256_string e raw)
  r ← query_row (find_refresh hash client.application_id)
  introspect_found client raw (found r)

unfoldable pub introspect_token : TokenForm → Handler
unfolding introspect_presented
introspect_token f = do
  check f.parses (oauth_json_error 400 "invalid_request" "invalid form body")
  client ←
      or_stop (← attempt (authenticate_oauth_client f))
        (oauth_json_error 401 "invalid_client" "confidential client authentication required")
  check (not client.is_public)
      (oauth_json_error 401 "invalid_client" "confidential client authentication required")
  check (not (is_empty f.token)) (oauth_json_error 400 "invalid_request" "token is required")
  introspect_presented client f.token
