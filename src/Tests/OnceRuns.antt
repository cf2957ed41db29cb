-- ===== src/Tests/OnceRuns.antt =====
-- A code of the server of `Setup` that is presented again after a logout.
use open_sso.Prelude.{◌≤◌, codes, count, text_eq, some, true, refl, arith}
use open_sso.Web.{World, run}
use open_sso.OAuth.Code.{authorization_code_grant}
use open_sso.Routes.{sign_out}
use open_sso.Middleware.{Http, serve}
use open_sso.History.Requests.{here, later, request}
use open_sso.History.Replay.{Refused}
use open_sso.History.Once.{redeemed_once}
use open_sso.Tests.Setup.{env, world, client, form}
use open_sso.Tests.GrantRuns.{redeems}

abbrev http : Http
http = record {
  method = codes "POST";
  path = codes "/api/v1/auth/logout";
  same_host = true;
  csrf_cookie = some (codes "csrf");
  csrf_header = codes "csrf";
  session = some (codes "session");
}

abbrev granted : World
granted = (run (authorization_code_grant client form) env world).1

abbrev after : World
after = (run (serve http sign_out) env granted).1

one_code : count (λ c. text_eq c.code_hash (codes "code")) world.db.authorization_codes ≤ 1
unfolding count text_eq
one_code = omega arith

redeemed_once_example : Refused (run (authorization_code_grant client form) env after).0
redeemed_once_example =
    redeemed_once client form env world client form env after refl one_code redeems
      (later here (request http sign_out env)) refl
