-- ===== src/OAuth/Endpoints.antt =====
-- `clientCredentialsGrant`, `tokenEndpoint` and `userinfo`.
use open_sso.Prelude.{
  ℕ, Text, text_eq, codes, is_empty, find, update_where, ltb, ◌==◌, ◌&&◌, ◌||◌, not, is_some,
  coalesce, Bool, true, false, Option, none, some, if◌then◌else◌, List, [], Result, ok, err,
}
use open_sso.Store.{Db, AccessToken, RefreshToken, User}
use open_sso.Web.{
  Env, World, M, Handler, ◌>>=◌, ◌>>◌, pure, stop, or_stop, check, ask, attempt, found, query_row,
  exec, exec_, commit, transaction, sha256_string, Response, respond, tokens, oauth_json_error,
  TokenResponse, AccessClaims, Body, empty, inactive, introspection, Introspection, user_info,
  UserInfo, unix, minute,
}
use open_sso.Web.Limits.{allow_oauth_request}
use open_sso.Scope.{contains, contains_all, scopes_of, normalize_requested_scope, ScopeError}
use open_sso.OAuth.Client.{OauthClient, TokenForm, authenticate_oauth_client}
use open_sso.OAuth.Verify.{parse_access_token}
use open_sso.OAuth.Issue.{issue_access_token, user_groups, find_user}
use open_sso.OAuth.Deliver.{server_error, deliver}
use open_sso.OAuth.Code.{authorization_code_grant}
use open_sso.OAuth.Refresh.{refresh_token_grant, find_refresh, revoke_family}
pub mod Laws

-- The scope that a client may have for itself.
unfoldable pub allowed_scope : OauthClient → Result ScopeError (Text × List Text) → Option Text
allowed_scope client (err _) = none
allowed_scope client (ok (scope, scopes)) =
    if not (contains_all client.allowed_scopes scopes) || contains scopes (codes "openid")
    then none
    else some scope

unfoldable pub own_scope : OauthClient → Text → Option Text
own_scope client raw = allowed_scope client (normalize_requested_scope raw)

unfoldable pub client_credentials_grant : OauthClient → TokenForm → Handler
unfolding own_scope
client_credentials_grant client f = do
  check (not client.is_public)
      (oauth_json_error 400 "unauthorized_client" "public clients cannot use client_credentials")
  scope ←
      or_stop (own_scope client f.scope) (
        oauth_json_error 400 "invalid_scope"
          "requested scope is not allowed for client_credentials")
  transaction (server_error "database error")
      (attempt (issue_access_token client client.client_id none scope) >>= deliver)

-- The dispatch on the grant type.
unfoldable pub grant : OauthClient → TokenForm → Handler
unfolding authorization_code_grant refresh_token_grant client_credentials_grant
grant client f =
    if text_eq f.grant_type (codes "authorization_code")
    then authorization_code_grant client f
    else if text_eq f.grant_type (codes "refresh_token")
    then refresh_token_grant client f
    else if text_eq f.grant_type (codes "client_credentials")
    then client_credentials_grant client f
    else pure (oauth_json_error 400 "unsupported_grant_type" "unsupported grant_type")

unfoldable pub token_endpoint : TokenForm → Handler
unfolding grant
token_endpoint f = do
  allowed ← allow_oauth_request (codes "token") f.remote_ip 120 minute
  check allowed (oauth_json_error 429 "slow_down" "too many token requests")
  check f.parses (oauth_json_error 400 "invalid_request" "invalid form body")
  client ←
      or_stop (← attempt (authenticate_oauth_client f))
        (oauth_json_error 401 "invalid_client" "client authentication failed")
  grant client f

-- `… FROM oauth_access_tokens WHERE jti=$1 AND revoked_at IS NULL AND expires_at>now()`.
unfoldable live_access : Text → ℕ → Db → Option AccessToken
live_access jti now db =
    find (λ t. text_eq t.jti jti && not (is_some t.revoked_at) && ltb now t.expires_at)
      db.access_tokens

-- The user of a token, if it was issued to the subject that it names.
unfoldable token_user : Env → AccessToken → AccessClaims → Option ℕ
token_user e t claims = elim (t.user_id) [
  | none ↦ none
  | some id ↦ if text_eq (e.uuid_text id) claims.subject then some id else none
]

-- What the answer tells: what the scopes are for.
unfoldable user_info_of : User → List Text → Option (List Text) → UserInfo
user_info_of user scopes groups = record {
  sub = user.id;
  profile =
      if contains scopes (codes "profile") then some (user.display_name, user.username) else none;
  email = if contains scopes (codes "email") then some user.email else none;
  groups = groups;
}

abbrev invalid_token : Response
invalid_token = oauth_json_error 401 "invalid_token" "access token is invalid"

-- The answer about the bearer of a stored token.
unfoldable pub tell_user : AccessToken → User → Handler
unfolding user_groups user_info_of
tell_user t user = do
  groups ←
      (if contains (scopes_of t.scope) (codes "groups")
        then user_groups user.id >>= (λ g. pure (some g))
        else pure none)
  pure (respond 200 (user_info (user_info_of user (scopes_of t.scope) groups)))

-- `raw` is the bearer token of the request, empty without one.
unfoldable pub userinfo : Text → Handler
unfolding parse_access_token token_user tell_user live_access
userinfo raw = do
  check (not (is_empty raw)) (oauth_json_error 401 "invalid_token" "bearer token required")
  claims ← or_stop (← attempt (parse_access_token raw)) invalid_token
  check (text_eq claims.token_use (codes "access")) invalid_token
  now ← ask (λ e. e.db_now)
  t ←
      or_stop (found (← query_row (live_access claims.jti now)))
        (oauth_json_error 401 "invalid_token" "access token is inactive")
  id ←
      or_stop (← ask (λ e. token_user e t claims))
        (oauth_json_error 401 "invalid_token" "access token is inactive")
  user ←
      or_stop (found (← query_row (find_user id)))
        (oauth_json_error 401 "invalid_token" "user is inactive")
  check user.active (oauth_json_error 401 "invalid_token" "user is inactive")
  tell_user t user
