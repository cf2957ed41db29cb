-- ===== src/Tests/Setup.antt =====
-- A server with one user, one application and one signing key; an environment in which no call
-- fails, hashes and signatures are the identity, and the random source gives numbered texts.
use open_sso.Prelude.{text_eq, ℕ, ◌+◌, Text, codes, [], ◌∷◌, Option, none, some, true, false}
use open_sso.Store.{Db, User, AuthorizationCode, RefreshToken}
use open_sso.Web.{Env, World}
use open_sso.Branding.{default_login_ui}
use open_sso.Session.{Principal}
use open_sso.OAuth.Client.{OauthClient, TokenForm}

abbrev pub env : Env
env = record {
  fault = λ _. false;
  entropy = λ n. some ((1_000 + n) ∷ []);
  now = 5_000;
  db_now = 5_001;
  public_url = codes "https://sso.example";
  sha256_sum = λ t. t;
  raw_url_encode = λ t. t;
  argon_id_key = λ password salt t m p len. password;
  std_encode = λ t. t;
  std_decode = λ t. some t;
  is_upper = λ c. false;
  is_lower = λ c. true;
  is_digit = λ c. false;
  is_symbol = λ c. false;
  lower = λ t. t;
  to_lower = λ t. t;
  to_upper = λ t. t;
  uuid_text = λ n. n ∷ [];
  sign_access = λ key kid c. some (c.jti);
  sign_id = λ key kid c. some (c.subject);
  token_header = λ raw. (codes "RS256", codes "kid");
  parse_access = λ key issuer now raw. some (record {
    scope = codes "openid email";
    token_use = codes "access";
    issuer = issuer;
    subject = 7 ∷ [];
    audience = codes "app" ∷ [];
    expires_at = 9_000;
    issued_at = 100;
    jti = raw;
  });
  parse_id = λ key issuer now raw. none;
  generate_key = λ n. some (codes "private", codes "public");
  parse_private_key = λ der. some der;
  public_jwk = λ kid public. public;
  jwk_public_key = λ jwk. some jwk;
  seal = λ nonce t aad. t;
  open_sealed = λ nonce t aad. some t;
  totp_generate = λ n account. some (codes "secret", account);
  totp_valid = λ code secret now. some (text_eq code (codes "123456"));
  qr_image = λ url. some url;
  base32 = λ t. codes "ABCDEFGHIJKLMNOP";
  webauthn_register = λ n passkey owner. some (codes "options", codes "session");
  webauthn_registered = λ owner session request.
      some (record { credential_id = request; raw = codes "key"; resident = none });
  webauthn_challenge = λ n owner. some (codes "options", codes "session");
  webauthn_answered = λ owner session request.
      some (record { credential_id = request; raw = codes "key"; resident = none });
  webauthn_parse = λ raw. some raw;
  parse_url = λ t. some (codes "https", (codes "app.example", []));
  parse_request_uri = λ t. none;
  parse_metadata = λ t. none;
  new_service_provider = λ t. some none;
  post_binding = codes "post";
  generate_saml_key = λ n. some (codes "key");
  create_certificate = λ serial key from to. some (codes "certificate");
  add_two_years = λ t. t + 1_000;
  before = λ s t. true;
}

abbrev pub verifier : Text
verifier = codes "0123456789012345678901234567890123456789012"

abbrev pub client : OauthClient
client = record {
  application_id = 3;
  name = codes "App";
  client_id = codes "app";
  secret_hash = some (codes "secret");
  is_public = false;
  require_pkce = true;
  allowed_scopes = codes "openid" ∷ codes "email" ∷ codes "jobs" ∷ [];
  access_ttl = 300;
  id_ttl = 300;
  refresh_ttl = 3_600;
}

abbrev pub user : User
user = record {
  id = 7;
  username = codes "ada";
  email = codes "ada@example.org";
  display_name = codes "Ada";
  active = true;
  must_change_password = false;
  failed_logins = 0;
  locked_until = none;
}

abbrev pub code_row : AuthorizationCode
code_row = record {
  id = 20;
  code_hash = codes "code";
  application_id = 3;
  user_id = 7;
  redirect_uri = codes "https://app.example/cb";
  scope = codes "openid email";
  nonce = codes "n";
  code_challenge = verifier;
  expires_at = 6_000;
  consumed_at = none;
}

abbrev pub refresh : Text → ℕ → Option ℕ → RefreshToken
refresh hash id consumed_at = record {
  id = id;
  token_hash = hash;
  family_id = codes "family";
  parent_id = none;
  application_id = 3;
  user_id = 7;
  scope = codes "openid email";
  expires_at = 6_000;
  consumed_at = consumed_at;
  revoked_at = none;
}

abbrev pub db : Db
db = record {
  initialized = true;
  users = user ∷ [];
  passwords = record { user_id = 7; password_hash = codes "old" } ∷ [];
  roles = record { id = 1; name = codes "admin"; description = [] } ∷ [];
  permissions = record { id = 2; name = codes "users.read" } ∷ [];
  role_permissions = record { role_id = 1; permission_id = 2 } ∷ [];
  role_assignments = record { user_id = 7; role_id = 1 } ∷ [];
  groups = [];
  memberships = [];
  sessions =
      record {
        id = 40;
        user_id = 7;
        token_hash = codes "session";
        last_seen_at = 4_000;
        expires_at = 8_000;
        revoked_at = none;
        mfa_verified_at = none;
      }
      ∷ [];
  policy = record {
    password_min_length = 12;
    password_require_upper = false;
    password_require_lower = true;
    password_require_digit = false;
    password_require_symbol = false;
    lockout_threshold = 5;
    lockout_minutes = 15;
    session_ttl_minutes = 60;
    mfa_required = false;
  };
  audit_events = [];
  applications =
      record { id = 3; name = codes "App"; protocol = codes "oidc"; enabled = true } ∷ [];
  oauth_clients =
      record {
        application_id = 3;
        client_id = codes "app";
        client_secret_hash = some (codes "secret");
        public_client = false;
        require_pkce = true;
        allowed_scopes = codes "openid" ∷ codes "email" ∷ codes "jobs" ∷ [];
        access_token_ttl = 300;
        id_token_ttl = 300;
        refresh_token_ttl = 3_600;
        initiate_login_uri = none;
      }
      ∷ [];
  redirect_uris = record { application_id = 3; redirect_uri = codes "https://app.example/cb" } ∷ [];
  post_logout_redirect_uris = [];
  user_assignments = [];
  group_assignments = [];
  saml_service_providers = [];
  saml_requests = [];
  saml_certificates = [];
  login_ui = default_login_ui;
  consents = [];
  requests =
      record {
        id = 50;
        request_token_hash = codes "request";
        application_id = 3;
        user_id = 7;
        redirect_uri = codes "https://app.example/cb";
        state = codes "s";
        nonce = codes "n";
        scope = codes "openid email";
        code_challenge = verifier;
        expires_at = 6_000;
        consumed_at = none;
      }
      ∷ [];
  authorization_codes = code_row ∷ [];
  refresh_tokens = refresh (codes "fresh") 30 none ∷ refresh (codes "spent") 31 (some 4_000) ∷ [];
  access_tokens = [];
  totp_credentials = [];
  recovery_codes = [];
  webauthn_credentials = [];
  webauthn_users = [];
  group_mfa_policies = [];
  application_mfa_policies = [];
  next_id = 100;
}

abbrev pub world : World
world = record {
  db = db;
  saved = none;
  keys =
      record {
        kid = codes "kid";
        encrypted_private_key = codes "nonce nonce private";
        public_jwk = codes "public";
        active = true;
        retired_at = none;
      }
      ∷ [];
  counters = [];
  ceremonies = [];
  calls = 0;
  draws = 0;
}

abbrev pub form : TokenForm
form = record {
  parses = true;
  remote_ip = codes "192.0.2.1";
  basic = none;
  client_id = codes "app";
  client_secret = codes "secret";
  grant_type = codes "authorization_code";
  code = codes "code";
  redirect_uri = codes "https://app.example/cb";
  code_verifier = verifier;
  refresh_token = codes "fresh";
  scope = codes "jobs";
  token = codes "fresh";
}

abbrev pub admin : Principal
admin = record {
  session_id = 41;
  user_id = 8;
  username = codes "root";
  must_change_password = false;
  mfa_verified = true;
}
