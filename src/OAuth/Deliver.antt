-- ===== src/OAuth/Deliver.antt =====
-- The end of the two grants that issue tokens to a user: issue, commit, answer.
use open_sso.Prelude.{ℕ, String, Text, Option}
use open_sso.Web.{
  Env, World, M, Handler, ◌>>=◌, ◌>>◌, pure, or_stop, check, attempt, commit, Response, respond,
  tokens, oauth_json_error, TokenResponse,
}
use open_sso.OAuth.Client.{OauthClient}
use open_sso.OAuth.Issue.{issue_user_tokens}
pub mod Outcomes

abbrev pub server_error : String → Response
server_error = oauth_json_error 500 "server_error"

abbrev pub invalid_grant : String → Response
invalid_grant = oauth_json_error 400 "invalid_grant"

unfoldable pub deliver : Option TokenResponse → Handler
deliver issued = do
  response ← or_stop issued (server_error "token issuance failed")
  committed ← commit
  check committed (server_error "database error")
  pure (respond 200 (tokens response))

unfoldable pub issue_and_deliver : OauthClient → ℕ → Text → Text → Text → Option ℕ → Handler
unfolding deliver
issue_and_deliver client user_id scope nonce family_id parent_id =
    attempt (issue_user_tokens client user_id scope nonce family_id parent_id) >>= deliver
