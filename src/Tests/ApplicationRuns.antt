-- ===== src/Tests/ApplicationRuns.antt =====
-- An update of the application of `Setup`.
use open_sso.Prelude.{codes, exists, refl, [], ◌∷◌, some, true}
use open_sso.Web.{run}
use open_sso.Applications.{ApplicationInput, valid_url}
use open_sso.Applications.Uris.{registering, registering-ValidUris}
use open_sso.Applications.Uris.Steps.{ValidUris}
use open_sso.Tests.Setup.{env, world, admin}

abbrev input : ApplicationInput
input = record {
  name = codes "Renamed";
  enabled = true;
  public_client = true;
  initiate_login_uri = [];
  redirect_uris = codes "https://app.example/new" ∷ [];
  post_logout_redirect_uris = codes "https://app.example/bye" ∷ [];
  allowed_scopes = codes "openid" ∷ [];
}

world-ValidUris : ValidUris env world.db
unfolding valid_url exists
world-ValidUris = ((refl, tt), tt)

registering-ValidUris_example :
    ValidUris env (run (registering admin (some 3) input) env world).1.db
registering-ValidUris_example =
    registering-ValidUris admin (some 3) input env world refl world-ValidUris
