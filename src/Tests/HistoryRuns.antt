-- ===== src/Tests/HistoryRuns.antt =====
-- Requests to the server of the setup after something was used or revoked.
use open_sso.Prelude.{
  codes, inl, arith, text_eq, trim_space, exists, find, true, ◌≡◌, ◌≢◌, ◌⊎◌, refl, some, none, ◌∷◌,
  [],
}
use open_sso.Web.{World, run, problem}
use open_sso.Session.{with_principal_raw, logout}
use open_sso.OAuth.Code.{authorization_code_grant}
use open_sso.OAuth.Refresh.{refresh_token_grant}
use open_sso.Directory.{bootstrap}
use open_sso.Routes.{sign_out}
use open_sso.Middleware.{Http, serve}
use open_sso.Middleware.Guard.{Stopped, Changes, serve-Stopped}
use open_sso.Login.{Account, find_account, login}
use open_sso.Login.Success.{Opened, login-Opened}
use open_sso.Password.{verify_password}
use open_sso.Web.Limits.{hits_of}
use open_sso.Mfa.Policy.{requires_mfa}
use open_sso.Login.Admission.{Admitted, login-Admits}
use open_sso.History.Guarded.{is_redeemed, is_spent, is_revoked}
use open_sso.History.Requests.{Reach, here, later, request, Grows, audit-Reach}
use open_sso.History.Replay.{
  Refused, Declined, redeemed_code-Refused, spent_token-Refused, revoked_session-Refused,
  bootstrap-Refused,
}
use open_sso.Tests.Setup.{env, world, db, user, client, form, code_row, refresh}

-- The code is redeemed, the refresh token of the form used, and the session revoked.
abbrev used : World
used = record world {
  db = record db {
    authorization_codes = record code_row { consumed_at = some 4_500 } ∷ [];
    refresh_tokens = refresh (codes "fresh") 30 (some 4_500) ∷ [];
    sessions =
        record {
          id = 40;
          user_id = 7;
          token_hash = codes "session";
          last_seen_at = 4_000;
          expires_at = 8_000;
          revoked_at = some 4_500;
          mfa_verified_at = none;
        }
        ∷ [];
  };
}

-- A logout with the CSRF token.
abbrev http : Http
http = record {
  method = codes "POST";
  path = codes "/api/v1/auth/logout";
  same_host = true;
  csrf_cookie = some (codes "csrf");
  csrf_header = codes "csrf";
  session = some (codes "session");
}

abbrev after : World
after = (run (serve http sign_out) env used).1

one_request : Reach used after
one_request = later here (request http sign_out env)

code_used : is_redeemed (codes "code") used.db ≡ true
unfolding is_redeemed exists text_eq
code_used = refl

token_used : is_spent (codes "fresh") used.db ≡ true
unfolding is_spent exists text_eq
token_used = refl

session_revoked : is_revoked (codes "session") used.db ≡ true
unfolding is_revoked exists text_eq
session_revoked = refl

redeemed_code-Refused_example : Refused (run (authorization_code_grant client form) env after).0
redeemed_code-Refused_example =
    redeemed_code-Refused client form env used after refl code_used one_request

spent_token-Refused_example : Refused (run (refresh_token_grant client form) env after).0
spent_token-Refused_example =
    spent_token-Refused client form env used after refl token_used one_request

revoked_session-Refused_example :
    (run (with_principal_raw (some (codes "session")) (logout none)) env after).0
    ≡ problem 401 "authentication required"
revoked_session-Refused_example =
    revoked_session-Refused (codes "session") (logout none) env used after refl session_revoked
      one_request

bootstrap-Refused_example :
    Declined
      (run
        (bootstrap
          (codes "secret")
          (codes "Bearer secret")
          (codes "root")
          (codes "root@example.org")
          []
          (codes "correct horse battery"))
        env
        after).0
bootstrap-Refused_example =
    bootstrap-Refused (codes "secret") (codes "Bearer secret") (codes "root")
      (codes "root@example.org") [] (codes "correct horse battery") env used after refl refl
      one_request

audit-Reach_example : Grows used after
audit-Reach_example = audit-Reach used after refl one_request

-- The same request without the token.
abbrev forged : Http
forged = record http { csrf_header = [] }

forged-Changes : Changes forged
forged-Changes = (
  codes "auth/logout",
  refl,
  (λ h. ground (arith, h)),
  (λ h. ground (arith, h)),
  (λ h. ground (arith, h)),
  (λ h. ground (arith, h)),
  (λ h. ground (arith, h)),
)

serve-Stopped_example : Stopped world (run (serve forged sign_out) env world)
serve-Stopped_example = serve-Stopped forged sign_out env world forged-Changes (inl refl)

-- A server on which the password of the user is known.
abbrev known_world : World
known_world = record world {
  db = record db {
    passwords =
        record {
          user_id = 7;
          password_hash = codes "$argon2id$v=19$m=64,t=3,p=2$salt$correct horse";
        }
        ∷ [];
  };
}

abbrev account : Account
account = record {
  user = user;
  password_hash = codes "$argon2id$v=19$m=64,t=3,p=2$salt$correct horse";
}

account_found : find_account env (trim_space (codes "ada")) known_world.db ≡ some account
unfolding find_account trim_space text_eq find exists
account_found = refl

password_known : verify_password env account.password_hash (codes "correct horse") ≡ true
unfolding verify_password text_eq
password_known = refl

login-Admits_example :
    ((run
        (login (codes "192.0.2.1") (codes "ada") (codes "correct horse"))
        env
        known_world).0.status
      ≢ 200)
    ⊎ Admitted env (trim_space (codes "ada")) (codes "correct horse") known_world.db
login-Admits_example =
    login-Admits (codes "192.0.2.1") (codes "ada") (codes "correct horse") env known_world

login-Opened_example :
    Opened env
      (λ n. refl)
      (1_000 ∷ [])
      (1_001 ∷ [])
      account
      known_world.db.policy
      (login (codes "192.0.2.1") (codes "ada") (codes "correct horse") env known_world)
unfolding hits_of find exists text_eq requires_mfa
login-Opened_example =
    login-Opened env (λ n. refl) (1_000 ∷ []) (1_001 ∷ []) account (codes "192.0.2.1") (codes "ada")
      (codes "correct horse") known_world refl account_found refl (inl refl) password_known refl
      refl refl refl
