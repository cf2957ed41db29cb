-- ===== src/Tests/AccessRuns.antt =====
-- Clients, sessions, consent, keys and limits on the server of `Setup`.
use open_sso.Prelude.{◌≡◌, ◌≢◌, ◌↔◌, codes, [], ◌∷◌, some, true, false}
use open_sso.Web.{World, Response, respond, empty, pure, next, problem, run, transaction, Handler}
use open_sso.Web.Rules.{Ends, Post}
use open_sso.Web.Limits.Counting.{Counted, allow_lem}
use open_sso.Keys.{rotate}
use open_sso.Keys.Rotation.{OneActive, rotate_lem}
use open_sso.Session.{Principal}
use open_sso.Session.Access.{Guarded, require_lem}
use open_sso.OAuth.Client.{authenticate_oauth_client}
use open_sso.OAuth.Client.Authentication.{Authenticated, authenticate_oauth_client_iff}
use open_sso.OAuth.Authorize.{AuthorizeForm, authorize}
use open_sso.OAuth.Authorize.Cases.{Told}
use open_sso.OAuth.Authorize.Laws.{authorize_cases}
use open_sso.OAuth.Consent.{ConsentForm, decide}
use open_sso.OAuth.Consent.Laws.{Chosen, decide_cases}
use open_sso.Tests.Setup.{env, world, form, client}

abbrev principal : Principal
principal = record {
  session_id = 40;
  user_id = 7;
  username = codes "ada";
  must_change_password = false;
  mfa_verified = false;
}

abbrev consent : ConsentForm
consent = record {
  parses = true;
  csrf_cookie = some (codes "csrf");
  csrf = codes "csrf";
  session = some (codes "session");
  request_token = codes "request";
  action = codes "approve";
}

abbrev greet : Principal → Handler
greet p = pure (respond 200 empty)

require_lem_example : Guarded (codes "users.read") greet env (some (codes "session")) world
require_lem_example = require_lem (codes "users.read") greet env (some (codes "session")) world

decide_cases_example :
    Ends
      (Chosen consent principal env world.db)
      (λ r. r.status ≢ 302)
      world.db
      (run (transaction (problem 500 "database error") (decide consent principal)) env world)
decide_cases_example = decide_cases consent principal env world

authenticate_oauth_client_iff_example :
    ((authenticate_oauth_client form env world).0 ≡ next client)
    ↔ Authenticated form env world client
authenticate_oauth_client_iff_example = authenticate_oauth_client_iff form env world client

rotate_lem_example :
    Post (λ key v. OneActive key world.keys v.keys) (λ _ v. v.keys ≡ world.keys) (rotate env world)
rotate_lem_example = rotate_lem env world

allow_lem_example : Counted Response (codes "opensso:login:192.0.2.1") 30 300 env world
allow_lem_example = allow_lem Response (codes "opensso:login:192.0.2.1") 30 300 env world

abbrev asked_code : AuthorizeForm
asked_code = record {
  response_type = codes "code";
  client_id = codes "app";
  redirect_uri = codes "https://app.example/cb";
  state = codes "s";
  nonce = codes "n";
  code_challenge = codes "challenge";
  code_challenge_method = codes "S256";
  scope = codes "openid email";
  prompt = [];
  session = some (codes "session");
  csrf = codes "csrf";
}

-- The user has consented to the scopes asked for.
abbrev consented : World
consented = record world {
  db = record world.db {
    consents =
        record {
          user_id = 7;
          application_id = 3;
          granted_scopes = codes "openid" ∷ codes "email" ∷ [];
        }
        ∷ [];
  };
}

authorize_cases_example :
    Told asked_code env consented.db
      (run (authorize asked_code) env consented).0
      (run (authorize asked_code) env consented).1
authorize_cases_example = authorize_cases asked_code env consented
