-- ===== src/History/Consents.antt =====
-- What the authorization endpoint, revocation and logout keep.
use open_sso.Prelude.{ℕ, Text, Option, none, some}
use open_sso.Web.{Row, failed, no_rows, row, AccessClaims}
use open_sso.Store.{Consent, RefreshToken}
use open_sso.Session.{Principal}
use open_sso.OAuth.Authorize.{
  Accepted, AuthorizeForm, ask_consent, authorize, authorize_consented, authorize_user, grant_code,
  insert_request, store_authorization_code, validate_authorization_request,
}
use open_sso.OAuth.Client.{OauthClient, TokenForm, load_oauth_client}
use open_sso.OAuth.Consent.{
  ConsentForm, approve, authorize_consent, consume_request, decide, deny, upsert_consent, widen,
}
use open_sso.OAuth.Logout.{LogoutForm, check_post_logout, oauth_logout, rotate_signing_key}
use open_sso.OAuth.Revocation.{
  introspect_access, introspect_found, introspect_presented, introspect_token, revoke_access,
  revoke_by_claims, revoke_found, revoke_presented, revoke_token,
}
use open_sso.History.Keeps.{Keeps}
use open_sso.History.Shared.{keeping}
use open_sso.History.Tokens.{token_steps}

pub revoke_by_claims-Keeps :
    (client : OauthClient) (claims : Option AccessClaims) → Keeps (revoke_by_claims client claims)
unfolding revoke_by_claims revoke_access
revoke_by_claims-Keeps client none = search (keeping, token_steps) depth 40
revoke_by_claims-Keeps client (some x) = search (keeping, token_steps) depth 40

pub revoke_found-Keeps :
    (client : OauthClient) (raw : Text) (now : ℕ) (o : Option RefreshToken)
    → Keeps (revoke_found client raw now o)
revoke_found-Keeps client raw now none =
    search (keeping, revoke_by_claims-Keeps, token_steps) depth 40
revoke_found-Keeps client raw now (some x) = search keeping

pub revoke_presented-Keeps :
    (client : OauthClient) (raw : Text) → Keeps (revoke_presented client raw)
unfolding revoke_presented
revoke_presented-Keeps client raw = search (keeping, revoke_found-Keeps, token_steps) depth 40

pub revoke_token-Keeps : (f : TokenForm) → Keeps (revoke_token f)
unfolding revoke_token
revoke_token-Keeps f = search (keeping, revoke_presented-Keeps, token_steps) depth 40

pub introspect_access-Keeps :
    (client : OauthClient) (claims : Option AccessClaims) → Keeps (introspect_access client claims)
unfolding introspect_access
introspect_access-Keeps client none = search (keeping, token_steps) depth 40
introspect_access-Keeps client (some x) = search (keeping, token_steps) depth 40

pub introspect_found-Keeps :
    (client : OauthClient) (raw : Text) (o : Option RefreshToken)
    → Keeps (introspect_found client raw o)
introspect_found-Keeps client raw none =
    search (keeping, introspect_access-Keeps, token_steps) depth 40
introspect_found-Keeps client raw (some x) = search keeping

pub introspect_presented-Keeps :
    (client : OauthClient) (raw : Text) → Keeps (introspect_presented client raw)
unfolding introspect_presented
introspect_presented-Keeps client raw =
    search (keeping, introspect_found-Keeps, token_steps) depth 40

pub introspect_token-Keeps : (f : TokenForm) → Keeps (introspect_token f)
unfolding introspect_token
introspect_token-Keeps f = search (keeping, introspect_presented-Keeps, token_steps) depth 40

pub validate_authorization_request-Keeps :
    (q : AuthorizeForm) → Keeps (validate_authorization_request q)
unfolding validate_authorization_request load_oauth_client
validate_authorization_request-Keeps q = search (keeping, token_steps) depth 40

pub grant_code-Keeps :
    (q : AuthorizeForm) (a : Accepted) (user_id : ℕ) → Keeps (grant_code q a user_id)
unfolding grant_code store_authorization_code
grant_code-Keeps q a user_id = search (keeping, token_steps) depth 40

pub ask_consent-Keeps :
    (q : AuthorizeForm) (a : Accepted) (user_id : ℕ) → Keeps (ask_consent q a user_id)
unfolding ask_consent insert_request
ask_consent-Keeps q a user_id = search (keeping, token_steps) depth 40

pub authorize_consented-Keeps :
    (q : AuthorizeForm) (a : Accepted) (user_id : ℕ) (c : Row Consent)
    → Keeps (authorize_consented q a user_id c)
unfolding authorize_consented
authorize_consented-Keeps q a user_id failed = search keeping
authorize_consented-Keeps q a user_id no_rows = ask_consent-Keeps q a user_id
authorize_consented-Keeps q a user_id (row c) =
    search (keeping, grant_code-Keeps, ask_consent-Keeps, token_steps) depth 40

pub authorize-Keeps : (q : AuthorizeForm) → Keeps (authorize q)
unfolding authorize authorize_user
authorize-Keeps q =
    search (keeping, validate_authorization_request-Keeps, authorize_consented-Keeps, token_steps)
      depth 40

pub authorize_consent-Keeps : (f : ConsentForm) → Keeps (authorize_consent f)
unfolding authorize_consent decide consume_request deny approve widen upsert_consent
authorize_consent-Keeps f = search (keeping, token_steps) depth 40

pub check_post_logout-Keeps : (f : LogoutForm) → Keeps (check_post_logout f)
unfolding check_post_logout
check_post_logout-Keeps f = search (keeping, token_steps) depth 40

pub oauth_logout-Keeps : (f : LogoutForm) → Keeps (oauth_logout f)
unfolding oauth_logout
oauth_logout-Keeps f = search (keeping, check_post_logout-Keeps, token_steps) depth 40

pub rotate_signing_key-Keeps : (actor : Principal) → Keeps (rotate_signing_key actor)
unfolding rotate_signing_key
rotate_signing_key-Keeps actor = search (keeping, token_steps) depth 40
