-- ===== src/OAuth/Authorize.antt =====
-- `validateAuthorizationRequest`, `storeAuthorizationCode` and `authorize`.
use open_sso.Prelude.{
  ℕ, ◌+◌, ◌*◌, suc, Text, text_eq, codes, is_empty, find, exists, ◌==◌, ◌&&◌, ◌||◌, not, Bool, true,
  false, Option, none, some, if◌then◌else◌, List, ◌∷◌, Result, ok, err,
}
use open_sso.Store.{Db, AuthorizationCode, AuthorizationRequest, Consent}
use open_sso.Web.{
  Env, M, Handler, ◌>>=◌, ◌>>◌, pure, or_stop, check, ask, draw, Row, failed, no_rows, row, query,
  query_row, attempt, try_exec, sha256_string, minute, Response, respond, problem,
  redirect_oauth_error, redirect_authorization_code, to_login, consent_form,
}
use open_sso.Scope.{contains, contains_all, normalize_requested_scope, ScopeError}
use open_sso.Mfa.Policy.{required}
use open_sso.Session.{Principal, session_principal}
use open_sso.OAuth.Client.{OauthClient, load_oauth_client}
pub mod Cases
pub mod Grants
pub mod Laws

-- The query of a request to the authorization endpoint, and its two cookies.
pub record AuthorizeForm : Type 0 where
  pub response_type : Text
  pub client_id : Text
  pub redirect_uri : Text
  pub state : Text
  pub nonce : Text
  pub code_challenge : Text
  pub code_challenge_method : Text
  pub scope : Text
  pub prompt : Text
  pub session : Option Text
  pub csrf : Text

-- What `validateAuthorizationRequest` returns.
pub record Accepted : Type 0 where
  pub client : OauthClient
  pub scope : Text
  pub scopes : List Text

-- The scopes asked for, if they may be asked for.
unfoldable pub requested :
    OauthClient → Result ScopeError (Text × List Text) → Option (Text × List Text)
requested client (err _) = none
requested client (ok (scope, scopes)) =
    if not (contains scopes (codes "openid")) || not (contains_all client.allowed_scopes scopes)
    then none
    else some (scope, scopes)

-- `SELECT EXISTS(SELECT 1 FROM oauth_redirect_uris WHERE application_id=$1 AND redirect_uri=$2)`.
unfoldable pub registered : ℕ → Text → Db → Bool
registered application_id uri db =
    exists (λ r. r.application_id == application_id && text_eq r.redirect_uri uri) db.redirect_uris

unfoldable pub validate_authorization_request : AuthorizeForm → M Response Accepted
unfolding registered requested
validate_authorization_request q = do
  check
      (text_eq q.response_type (codes "code")
        && not (is_empty q.client_id)
        && not (is_empty q.redirect_uri)
        && not (is_empty q.state))
      (problem 400 "invalid authorization request")
  client ←
      or_stop (← attempt (load_oauth_client q.client_id)) (problem 400 "unknown or disabled client")
  known ←
      or_stop (← query (registered client.application_id q.redirect_uri))
        (problem 400 "redirect_uri is not registered")
  check known (problem 400 "redirect_uri is not registered")
  check (text_eq q.code_challenge_method (codes "S256") && not (is_empty q.code_challenge))
      (redirect_oauth_error q.redirect_uri q.state "invalid_request")
  (scope, scopes) ←
      or_stop (requested client (normalize_requested_scope q.scope))
        (redirect_oauth_error q.redirect_uri q.state "invalid_scope")
  pure (record { client = client; scope = scope; scopes = scopes })

-- A code as `INSERT INTO authorization_codes` stores it.
unfoldable pub code_row : Env → Text → ℕ → ℕ → Text → Text → Text → Text → ℕ → AuthorizationCode
code_row e code application_id user_id redirect_uri scope nonce challenge id = record {
  id = id;
  code_hash = sha256_string e code;
  application_id = application_id;
  user_id = user_id;
  redirect_uri = redirect_uri;
  scope = scope;
  nonce = nonce;
  code_challenge = challenge;
  expires_at = e.db_now + 2 * minute;
  consumed_at = none;
}

-- The hash of a code is unique.
unfoldable pub insert_code : (ℕ → AuthorizationCode) → Db → Option Db
insert_code c db =
    if exists (λ d. text_eq d.code_hash (c db.next_id).code_hash) db.authorization_codes
    then none
    else some (record db {
      authorization_codes = c db.next_id ∷ db.authorization_codes;
      next_id = suc db.next_id;
    })

unfoldable pub store_authorization_code : ℕ → ℕ → Text → Text → Text → Text → M (Unit {0}) Text
unfolding code_row insert_code
store_authorization_code application_id user_id redirect_uri scope nonce challenge = do
  code ← or_stop (← draw) tt
  c ← ask (λ e. code_row e code application_id user_id redirect_uri scope nonce challenge)
  stored ← try_exec (insert_code c)
  check stored tt
  pure code

-- `SELECT granted_scopes FROM oauth_consents WHERE user_id=$1 AND application_id=$2`.
unfoldable pub find_consent : ℕ → ℕ → Db → Option Consent
find_consent user_id application_id db =
    find (λ c. c.user_id == user_id && c.application_id == application_id) db.consents

-- `INSERT INTO oauth_authorization_requests`: the hash of the token is unique.
unfoldable pub insert_request : (ℕ → AuthorizationRequest) → Db → Option Db
insert_request r db =
    if exists (λ d. text_eq d.request_token_hash (r db.next_id).request_token_hash) db.requests
    then none
    else some (record db { requests = r db.next_id ∷ db.requests; next_id = suc db.next_id })

unfoldable pub request_row : Env → Text → AuthorizeForm → Accepted → ℕ → ℕ → AuthorizationRequest
request_row e token q a user_id id = record {
  id = id;
  request_token_hash = sha256_string e token;
  application_id = a.client.application_id;
  user_id = user_id;
  redirect_uri = q.redirect_uri;
  state = q.state;
  nonce = q.nonce;
  scope = a.scope;
  code_challenge = q.code_challenge;
  expires_at = e.db_now + 5 * minute;
  consumed_at = none;
}

abbrev pub no_prompt : AuthorizeForm → Bool
no_prompt q = text_eq q.prompt (codes "none")

-- The consent covers the scopes: a code.
unfoldable pub grant_code : AuthorizeForm → Accepted → ℕ → Handler
unfolding store_authorization_code
grant_code q a user_id = do
  code ←
      or_stop
        (← attempt (
          store_authorization_code a.client.application_id user_id q.redirect_uri a.scope q.nonce
            q.code_challenge))
        (problem 500 "authorization code creation failed")
  pure (redirect_authorization_code q.redirect_uri q.state code)

-- It does not: the consent form, with a stored request.
unfoldable pub ask_consent : AuthorizeForm → Accepted → ℕ → Handler
unfolding request_row insert_request
ask_consent q a user_id = do
  check (not (no_prompt q)) (redirect_oauth_error q.redirect_uri q.state "consent_required")
  token ← or_stop (← draw) (problem 500 "entropy failure")
  r ← ask (λ e. request_row e token q a user_id)
  stored ← try_exec (insert_request r)
  check stored (problem 500 "authorization request creation failed")
  check (not (is_empty q.csrf)) (problem 403 "CSRF token unavailable")
  pure (respond 200 (consent_form a.client.name a.scopes token q.csrf))

unfoldable pub authorize_consented : AuthorizeForm → Accepted → ℕ → Row Consent → Handler
unfolding grant_code ask_consent
authorize_consented q a user_id failed = pure (problem 500 "consent lookup failed")
authorize_consented q a user_id no_rows = ask_consent q a user_id
authorize_consented q a user_id (row c) =
    if contains_all c.granted_scopes a.scopes
    then grant_code q a user_id
    else ask_consent q a user_id

-- The part of `authorize` for a principal, up to the consent.
unfoldable pub authorize_user : AuthorizeForm → Accepted → Principal → Handler
unfolding required authorize_consented find_consent
authorize_user q a p = do
  check (not p.must_change_password) (respond 302 (to_login false))
  needed ←
      or_stop (← required p.user_id (some a.client.application_id))
        (problem 500 "MFA policy lookup failed")
  check (not (needed && not p.mfa_verified)) (
      if no_prompt q
      then redirect_oauth_error q.redirect_uri q.state "interaction_required"
      else respond 302 (to_login true))
  consent ← query_row (find_consent p.user_id a.client.application_id)
  authorize_consented q a p.user_id consent

unfoldable pub authorize : AuthorizeForm → Handler
unfolding validate_authorization_request authorize_user session_principal
authorize q = do
  a ← validate_authorization_request q
  p ← or_stop (← session_principal q.session) (
      if no_prompt q
      then redirect_oauth_error q.redirect_uri q.state "login_required"
      else respond 302 (to_login false))
  authorize_user q a p
