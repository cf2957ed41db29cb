-- ===== src/OAuth/Logout.antt =====
-- `oauthLogout`, and `rotateSigningKey`.
use open_sso.Prelude.{
  true, Text, text_eq, exists, ◌==◌, ◌&&◌, is_empty, not, Bool, Option, none, some, if◌then◌else◌,
  List, [], ◌∷◌,
}
use open_sso.Store.{Db, Target}
use open_sso.Web.{
  M, Handler, ◌>>=◌, ◌>>◌, pure, or_stop, check, ask, attempt, query, sha256_string, Response,
  respond, problem, to_post_logout, to_home, texts,
}
use open_sso.Keys.{rotate}
use open_sso.Audit.{audit}
use open_sso.Session.{Principal, end_presented}
use open_sso.OAuth.Verify.{parse_id_token}

pub record LogoutForm : Type 0 where
  pub post_logout_redirect_uri : Text
  pub id_token_hint : Text
  pub state : Text
  pub session : Option Text

-- The URI is registered for an application with the client id.
unfoldable post_logout_registered : Text → Text → Db → Bool
post_logout_registered client_id uri db =
    exists
      (λ p.
        text_eq p.redirect_uri uri
        && exists (λ c. c.application_id == p.application_id && text_eq c.client_id client_id)
            db.oauth_clients)
      db.post_logout_redirect_uris

abbrev first : List Text → Option Text
first [] = none
first (t ∷ _) = some t

-- A URI to go back to needs the hint of a client that registered it.
unfoldable pub check_post_logout : LogoutForm → M Response (Unit {0})
unfolding post_logout_registered parse_id_token
check_post_logout f = do
  check (not (is_empty f.id_token_hint))
      (problem 400 "id_token_hint is required with post_logout_redirect_uri")
  claims ←
      or_stop (← attempt (parse_id_token f.id_token_hint)) (problem 400 "invalid id_token_hint")
  client_id ← or_stop (first claims.audience) (problem 400 "invalid id_token_hint")
  known ←
      or_stop (← query (post_logout_registered client_id f.post_logout_redirect_uri))
        (problem 400 "post_logout_redirect_uri is not registered")
  check known (problem 400 "post_logout_redirect_uri is not registered")

unfoldable pub oauth_logout : LogoutForm → Handler
unfolding check_post_logout
oauth_logout f = do
  (if is_empty f.post_logout_redirect_uri then pure tt else check_post_logout f)
  now ← ask (λ e. e.db_now)
  hash ← ask (λ e. elim (f.session) [ none ↦ none | some token ↦ some (sha256_string e token) ])
  end_presented now hash
  (if is_empty f.post_logout_redirect_uri
      then pure (respond 302 to_home)
      else pure (respond 302 (to_post_logout f.post_logout_redirect_uri f.state)))

unfoldable pub rotate_signing_key : Principal → Handler
unfolding rotate
rotate_signing_key p = do
  key ← or_stop (← attempt rotate) (problem 500 "signing key rotation failed")
  audit (some p.user_id) "SIGNING_KEY_ROTATED" (Target.signing_key key.kid) true
  pure (respond 201 (texts (key.kid ∷ [])))
