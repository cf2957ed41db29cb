-- ===== src/OAuth/Code.antt =====
-- `authorizationCodeGrant`.
use open_sso.Prelude.{
  ℕ, String, [], Text, text_eq, is_empty, find, update_where, ltb, ◌==◌, ◌&&◌, not, is_some, Bool,
  Option, none, some, if◌then◌else◌,
}
use open_sso.Store.{Db, AuthorizationCode}
use open_sso.Web.{
  Env, World, M, Handler, ◌>>=◌, ◌>>◌, pure, or_stop, check, ask, attempt, found, query_row, exec,
  transaction, sha256_string, Response, respond, tokens, oauth_json_error,
}
use open_sso.Scope.{valid_pkce_verifier, verify_pkce}
use open_sso.OAuth.Client.{OauthClient, TokenForm}
use open_sso.OAuth.Deliver.{server_error, invalid_grant, issue_and_deliver}
pub mod Redeem
pub mod Laws

-- `… FROM authorization_codes WHERE code_hash=$1 AND application_id=$2`.
unfoldable pub find_code : Text → ℕ → Db → Option AuthorizationCode
find_code hash application_id db =
    find (λ c. text_eq c.code_hash hash && c.application_id == application_id)
      db.authorization_codes

-- `UPDATE authorization_codes SET consumed_at=now() WHERE id=$1`.
unfoldable pub consume_code : ℕ → ℕ → Db → Db
consume_code now id db = record db {
  authorization_codes =
      update_where (λ c. c.id == id) (λ c. record c { consumed_at = some now })
        db.authorization_codes;
}

-- The test on the row of the code.
unfoldable pub code_accepted : Env → AuthorizationCode → TokenForm → Bool
code_accepted e c f =
    not (is_some c.consumed_at)
    && not (ltb c.expires_at e.now)
    && text_eq c.redirect_uri f.redirect_uri
    && verify_pkce e f.code_verifier c.code_challenge

-- The part in the transaction.
unfoldable pub redeem_code : OauthClient → TokenForm → Handler
redeem_code client f = do
  hash ← ask (λ e. sha256_string e f.code)
  c ←
      or_stop (found (← query_row (find_code hash client.application_id)))
        (invalid_grant "authorization code is invalid, expired or already used")
  accepted ← ask (λ e. code_accepted e c f)
  check accepted (invalid_grant "authorization code is invalid, expired or already used")
  now ← ask (λ e. e.db_now)
  consumed ← exec (consume_code now c.id)
  check consumed (server_error "database error")
  issue_and_deliver client c.user_id c.scope c.nonce [] none

-- The test on the form.
abbrev pub well_formed : TokenForm → Bool
well_formed f =
    not (is_empty f.code) && not (is_empty f.redirect_uri) && valid_pkce_verifier f.code_verifier

-- The code of the form for tokens, once.
unfoldable pub authorization_code_grant : OauthClient → TokenForm → Handler
unfolding redeem_code
authorization_code_grant client f = do
  check (well_formed f) (
      oauth_json_error 400 "invalid_request"
        "code, redirect_uri and valid code_verifier are required")
  transaction (server_error "database error") (redeem_code client f)
