-- ===== src/OAuth/Consent.antt =====
-- `authorizeConsent`.
use open_sso.Prelude.{
  ℕ, Text, text_eq, codes, is_empty, find, exists, update_where, ltb, ◌==◌, ◌&&◌, ◌||◌, not,
  is_some, Bool, true, false, Option, none, some, if◌then◌else◌, List, [], ◌∷◌,
}
use open_sso.Store.{Db, AuthorizationRequest, Consent}
use open_sso.Web.{
  Env, World, M, Handler, ◌>>=◌, ◌>>◌, pure, stop, or_stop, check, ask, draw, Row, failed, no_rows,
  row, found, query_row, exec, try_exec, commit, transaction, sha256_string, Response, problem,
  redirect_oauth_error, redirect_authorization_code,
}
use open_sso.Scope.{merge_scopes, scopes_of}
use open_sso.Session.{Principal, session_principal}
use open_sso.OAuth.Authorize.{find_consent, insert_code, code_row}
pub mod Outcomes
pub mod Laws

-- The form of the consent page, and the two cookies.
pub record ConsentForm : Type 0 where
  pub parses : Bool
  pub csrf_cookie : Option Text
  pub csrf : Text
  pub session : Option Text
  pub request_token : Text
  pub action : Text

-- `… FROM oauth_authorization_requests WHERE request_token_hash=$1`.
unfoldable pub find_request : Text → Db → Option AuthorizationRequest
find_request hash db = find (λ r. text_eq r.request_token_hash hash) db.requests

-- `UPDATE oauth_authorization_requests SET consumed_at=now() WHERE id=$1`.
unfoldable pub consume_request : ℕ → ℕ → Db → Db
consume_request now id db = record db {
  requests = update_where (λ r. r.id == id) (λ r. record r { consumed_at = some now }) db.requests;
}

-- The scopes that a row grants; none without a row.
unfoldable pub granted_by : Row Consent → Option (List Text)
granted_by failed = none
granted_by no_rows = some []
granted_by (row c) = some (c.granted_scopes)

-- `INSERT INTO oauth_consents … ON CONFLICT(user_id,application_id) DO UPDATE …`.
unfoldable pub upsert_consent : ℕ → ℕ → List Text → Db → Db
unfolding find_consent
upsert_consent user_id application_id scopes db = record db {
  consents =
      if is_some (find_consent user_id application_id db)
      then update_where (λ c. c.user_id == user_id && c.application_id == application_id)
          (λ c. record c { granted_scopes = scopes }) db.consents
      else record { user_id = user_id; application_id = application_id; granted_scopes = scopes }
        ∷ db.consents;
}

-- The request is for this user, unused and not expired.
unfoldable pub request_accepted : Env → ℕ → AuthorizationRequest → Bool
request_accepted e user_id r =
    r.user_id == user_id && not (is_some r.consumed_at) && not (ltb r.expires_at e.now)

unfoldable pub deny : AuthorizationRequest → Handler
deny r = do
  committed ← commit
  check committed (problem 500 "database error")
  pure (redirect_oauth_error r.redirect_uri r.state "access_denied")

-- The user approves: the consent is widened, and a code stored.
unfoldable pub widen : AuthorizationRequest → List Text → Handler
unfolding upsert_consent
widen r existing = do
  merged ←
      exec (upsert_consent r.user_id r.application_id (merge_scopes existing (scopes_of r.scope)))
  check merged (problem 500 "database error")
  code ← or_stop (← draw) (problem 500 "entropy failure")
  c ← ask (λ e.
      code_row e code r.application_id r.user_id r.redirect_uri r.scope r.nonce r.code_challenge)
  stored ← try_exec (insert_code c)
  check stored (problem 500 "database error")
  committed ← commit
  check committed (problem 500 "database error")
  pure (redirect_authorization_code r.redirect_uri r.state code)

unfoldable pub approve : AuthorizationRequest → Handler
unfolding granted_by widen
approve r = do
  existing ←
      or_stop (granted_by (← query_row (find_consent r.user_id r.application_id)))
        (problem 500 "database error")
  widen r existing

-- The part in the transaction.
unfoldable pub decide : ConsentForm → Principal → Handler
unfolding find_request consume_request request_accepted deny approve
decide f p = do
  hash ← ask (λ e. sha256_string e f.request_token)
  r ←
      or_stop (found (← query_row (find_request hash)))
        (problem 400 "authorization request is invalid or expired")
  accepted ← ask (λ e. request_accepted e p.user_id r)
  check accepted (problem 400 "authorization request is invalid or expired")
  now ← ask (λ e. e.db_now)
  consumed ← exec (consume_request now r.id)
  check consumed (problem 500 "database error")
  (if text_eq f.action (codes "approve") then approve r else deny r)

abbrev csrf_matches : ConsentForm → Bool
csrf_matches f = elim (f.csrf_cookie) [ none ↦ false | some c ↦ text_eq c f.csrf ]

unfoldable pub authorize_consent : ConsentForm → Handler
unfolding decide session_principal
authorize_consent f = do
  check f.parses (problem 400 "invalid consent form")
  check (csrf_matches f) (problem 403 "CSRF validation failed")
  p ← or_stop (← session_principal f.session) (problem 401 "authentication required")
  check (not p.must_change_password) (problem 401 "authentication required")
  check (not (is_empty f.request_token)) (problem 400 "missing authorization request")
  transaction (problem 500 "database error") (decide f p)
