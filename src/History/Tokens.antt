-- ===== src/History/Tokens.antt =====
-- What the OAuth endpoints keep.
use open_sso.Prelude.{ℕ, Text, Option}
use open_sso.Web.{TokenResponse}
use open_sso.OAuth.Client.{OauthClient, TokenForm, authenticate_oauth_client, load_oauth_client}
use open_sso.OAuth.Code.{authorization_code_grant, redeem_code}
use open_sso.OAuth.Deliver.{deliver, issue_and_deliver}
use open_sso.OAuth.Endpoints.{client_credentials_grant, grant, tell_user, token_endpoint, userinfo}
use open_sso.OAuth.Issue.{
  access_token_by, id_token_by, insert_access_token, issue_access_token, issue_user_tokens,
  maybe_id_token, sign_id_token, store_refresh, user_groups,
}
use open_sso.OAuth.Refresh.{redeem_refresh, refresh_token_grant, reuse_detected, rotate_refresh}
use open_sso.OAuth.Verify.{parse_access_token, parse_id_token, verification_key}
use open_sso.History.Keeps.{Keeps}
use open_sso.History.Shared.{keeping}

pub issue_access_token-Keeps :
    (client : OauthClient) (subject : Text) (user_id : Option ℕ) (scope : Text)
    → Keeps (issue_access_token client subject user_id scope)
unfolding issue_access_token access_token_by insert_access_token
issue_access_token-Keeps client subject user_id scope = search keeping depth 40

pub user_groups-Keeps : {R : Type 0} (user_id : ℕ) → Keeps {E = R} (user_groups user_id)
unfolding user_groups
user_groups-Keeps user_id = search keeping depth 40

pub sign_id_token-Keeps :
    (client : OauthClient) (user_id : ℕ) (scope nonce : Text)
    → Keeps (sign_id_token client user_id scope nonce)
unfolding sign_id_token id_token_by
sign_id_token-Keeps client user_id scope nonce = search (keeping, user_groups-Keeps) depth 40

pub issue_user_tokens-Keeps :
    (client : OauthClient) (user_id : ℕ) (scope nonce family_id : Text) (parent_id : Option ℕ)
    → Keeps (issue_user_tokens client user_id scope nonce family_id parent_id)
unfolding issue_user_tokens store_refresh maybe_id_token
issue_user_tokens-Keeps client user_id scope nonce family_id parent_id =
    search (keeping, issue_access_token-Keeps, sign_id_token-Keeps) depth 40

pub deliver-Keeps : (issued : Option TokenResponse) → Keeps (deliver issued)
unfolding deliver
deliver-Keeps issued = search keeping depth 40

pub issue_and_deliver-Keeps :
    (client : OauthClient) (user_id : ℕ) (scope nonce family_id : Text) (parent_id : Option ℕ)
    → Keeps (issue_and_deliver client user_id scope nonce family_id parent_id)
unfolding issue_and_deliver
issue_and_deliver-Keeps client user_id scope nonce family_id parent_id =
    search (keeping, issue_user_tokens-Keeps, deliver-Keeps) depth 40

pub authorization_code_grant-Keeps :
    (client : OauthClient) (f : TokenForm) → Keeps (authorization_code_grant client f)
unfolding authorization_code_grant redeem_code
authorization_code_grant-Keeps client f = search (keeping, issue_and_deliver-Keeps) depth 40

pub refresh_token_grant-Keeps :
    (client : OauthClient) (f : TokenForm) → Keeps (refresh_token_grant client f)
unfolding refresh_token_grant redeem_refresh reuse_detected rotate_refresh
refresh_token_grant-Keeps client f = search (keeping, issue_and_deliver-Keeps) depth 40

pub client_credentials_grant-Keeps :
    (client : OauthClient) (f : TokenForm) → Keeps (client_credentials_grant client f)
unfolding client_credentials_grant
client_credentials_grant-Keeps client f =
    search (keeping, issue_access_token-Keeps, deliver-Keeps) depth 40

pub authenticate_oauth_client-Keeps : (f : TokenForm) → Keeps (authenticate_oauth_client f)
unfolding authenticate_oauth_client load_oauth_client
authenticate_oauth_client-Keeps f = search keeping depth 40

pub token_endpoint-Keeps : (f : TokenForm) → Keeps (token_endpoint f)
unfolding token_endpoint grant
token_endpoint-Keeps f =
    search
      (
        keeping, authorization_code_grant-Keeps, refresh_token_grant-Keeps,
        client_credentials_grant-Keeps, authenticate_oauth_client-Keeps,
      )
      depth 40

pub parse_access_token-Keeps : (raw : Text) → Keeps (parse_access_token raw)
unfolding parse_access_token verification_key
parse_access_token-Keeps raw = search keeping depth 40

pub parse_id_token-Keeps : (raw : Text) → Keeps (parse_id_token raw)
unfolding parse_id_token verification_key
parse_id_token-Keeps raw = search keeping depth 40

pub userinfo-Keeps : (raw : Text) → Keeps (userinfo raw)
unfolding userinfo tell_user
userinfo-Keeps raw = search (keeping, user_groups-Keeps, parse_access_token-Keeps) depth 40

pub ruleset token_steps = (
  issue_access_token-Keeps, user_groups-Keeps, sign_id_token-Keeps, issue_user_tokens-Keeps,
  deliver-Keeps, issue_and_deliver-Keeps, authorization_code_grant-Keeps, refresh_token_grant-Keeps,
  client_credentials_grant-Keeps, authenticate_oauth_client-Keeps, token_endpoint-Keeps,
  parse_access_token-Keeps, parse_id_token-Keeps, userinfo-Keeps,
)
