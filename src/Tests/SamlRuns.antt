-- ===== src/Tests/SamlRuns.antt =====
-- SAML requests, certificates and metadata, the login page, a configuration and a password, on the
-- server of the setup.
use open_sso.Prelude.{
  ◌+◌, ◌-◌, Text, codes, text_eq, exists, map, ◌==◌, true, false, if◌then◌else◌, ◌||◌, some, none,
  [], ◌∷◌, ◌≡◌, ◌↔◌, refl, ap, arith, ok,
}
use open_sso.Store.{SamlRequest, LoginUi, pos}
use open_sso.Web.{Env, World, run}
use open_sso.Web.Rules.{Post}
use open_sso.Branding.{default_login_ui, update_login_ui}
use open_sso.Branding.Bounds.{IsValid, default_login_ui-IsValid, login_ui-IsValid}
use open_sso.Config.{Os, Config, load, read_config, check_config, with_master}
use open_sso.Config.Load.{IsUsable, load-IsUsable}
use open_sso.Password.{verify_password, encode_hash}
use open_sso.Password.RoundTrip.{Encodes, key_of, verify_password-encode_hash}
use open_sso.Routes.{sign_out}
use open_sso.Middleware.{Http, serve}
use open_sso.History.Answers.{returns, answered_request-Refused}
use open_sso.History.Guarded.{is_answered}
use open_sso.History.Requests.{here, later, request}
use open_sso.Saml.Certificates.{rotate_certificate}
use open_sso.Saml.Certificates.Rotation.{OneActive, rotate_certificate_lem}
use open_sso.Saml.Metadata.{validate_metadata}
use open_sso.Saml.Metadata.Laws.{Vetted, validate_metadata_iff}
use open_sso.Saml.Requests.{auth_request_by_id, finalize_auth_request}
use open_sso.Saml.Requests.Cases.{Bound}
use open_sso.Saml.Requests.Outcomes.{finalize_auth_request_cases}
use open_sso.Tests.Setup.{env, world, db, admin}

-- A SAML application that the user may use, and a request for it.
abbrev pending : SamlRequest
pending = record {
  request_key = codes "key";
  saml_request_id = codes "_1";
  application_id = 4;
  issuer = codes "sp";
  destination = [];
  acs_url = codes "https://sp.example/acs";
  response_binding = codes "post";
  relay_state = [];
  user_id = none;
  expires_at = 6_000;
  completed_at = none;
  consumed_at = none;
}

abbrev with_request : SamlRequest → World
with_request q = record world {
  db = record db {
    applications =
        record { id = 4; name = codes "SP"; protocol = codes "saml"; enabled = true } ∷ [];
    user_assignments = record { application_id = 4; user_id = 7 } ∷ [];
    saml_requests = q ∷ [];
  };
}

finalize_auth_request_cases_example :
    Post
      (λ id v. Bound (codes "key") 7 env.db_now (with_request pending).db id v.db)
      (λ _ v. v.db ≡ (with_request pending).db)
      (finalize_auth_request (codes "key") 7 env (with_request pending))
finalize_auth_request_cases_example =
    finalize_auth_request_cases (codes "key") 7 env (with_request pending)

abbrev completed : SamlRequest
completed = record pending { user_id = some 7; completed_at = some 4_000 }

-- The request is answered; then somebody signs out.
abbrev answered : World
answered = with_request (record completed { consumed_at = some 4_500 })

key_answered : is_answered (codes "key") answered.db ≡ true
unfolding is_answered exists text_eq
key_answered = refl

abbrev http : Http
http = record {
  method = codes "POST";
  path = codes "/api/v1/auth/logout";
  same_host = true;
  csrf_cookie = some (codes "token");
  csrf_header = codes "token";
  session = none;
}

abbrev signed_out : World
signed_out = (run (serve http sign_out) env answered).1

answered_request-Refused_example : returns (auth_request_by_id (codes "key") env signed_out) ≡ false
answered_request-Refused_example =
    answered_request-Refused (codes "key") env answered signed_out refl key_answered
      (later here (request http sign_out env))

rotate_certificate_lem_example :
    Post (λ k v. OneActive k world.db v.db) (λ _ v. v.db ≡ world.db) (rotate_certificate env world)
rotate_certificate_lem_example = rotate_certificate_lem env world

-- An environment in which metadata parses.
abbrev parsing : Env
parsing = record env {
  parse_metadata = λ xml. some (record {
    entity_id = codes " sp ";
    services = some ((codes "post", codes "https://sp.example/acs") ∷ []);
  });
}

validate_metadata_iff_example :
    (validate_metadata parsing (codes "<xml/>") ≡ ok (codes "sp"))
    ↔ Vetted parsing (codes "<xml/>") (codes "sp")
validate_metadata_iff_example = validate_metadata_iff parsing (codes "<xml/>") (codes "sp")

-- An update that makes the page wider.
abbrev widened : LoginUi
widened = record default_login_ui { enabled = true; card_width = pos 700 }

login_ui-IsValid_example : IsValid env (run (update_login_ui admin widened) env world).1.db.login_ui
login_ui-IsValid_example =
    login_ui-IsValid admin (some widened) env world (default_login_ui-IsValid env)

-- A machine on which only the two variables that are needed are set.
abbrev variables : Text → Text
variables k =
    if text_eq k (codes "OPENSSO_DATABASE_URL") || text_eq k (codes "OPENSSO_MASTER_KEY")
    then codes "0123456789abcdef0123456789abcdef"
    else []

abbrev machine : Os
machine = record {
  getenv = variables;
  parse_bool = λ t. none;
  parse_duration = λ t. none;
  decode_base64 = λ t. some t;
}

abbrev loaded : Config
loaded = record (read_config machine) { master_key = codes "0123456789abcdef0123456789abcdef" }

loads : load machine ≡ ok loaded
unfolding load check_config read_config with_master text_eq
loads = refl

load-IsUsable_example : IsUsable machine loaded
load-IsUsable_example = load-IsUsable machine loaded loads

-- A server with an encoding that has no dollar sign, and keys of 32 bytes.
abbrev hashing : Env
hashing = record env {
  std_encode = map (λ c. c + 100);
  std_decode = λ t. some (map (λ c. c - 100) t);
  argon_id_key = λ password salt t m p len. codes "0123456789abcdef0123456789abcdef";
}

decoded : (t : Text) → map (λ c. c - 100) (map (λ c. c + 100) t) ≡ t
decoded [] = refl
decoded (c ∷ t) = ground (arith, decoded t)

no_dollars : (t : Text) → exists (λ c. c == b'$') (map (λ c. c + 100) t) ≡ false
unfolding exists
no_dollars [] = refl
no_dollars (c ∷ t) = ground (arith, no_dollars t)

hashing-Encodes : Encodes hashing
hashing-Encodes = record {
  reads_back = λ t. ap some (decoded t);
  no_dollar = no_dollars;
  key_size = λ password salt. refl;
}

verify_password-encode_hash_example :
    verify_password hashing
      (encode_hash hashing (codes "salt") (codes "correct horse"))
      (codes "correct horse")
    ≡ text_eq
        (key_of hashing (codes "salt") (codes "correct horse"))
        (key_of hashing (codes "salt") (codes "correct horse"))
verify_password-encode_hash_example =
    verify_password-encode_hash hashing hashing-Encodes (codes "salt") (codes "correct horse")
      (codes "correct horse")
