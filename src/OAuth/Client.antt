-- ===== src/OAuth/Client.antt =====
-- `loadOAuthClient` and `authenticateOAuthClient`.
pub mod Authentication
use open_sso.Prelude.{
  ℕ, Text, text_eq, is_empty, find, ◌==◌, ◌&&◌, ◌||◌, not, is_some, Bool, false, List, Option, none,
  some, if◌then◌else◌, coalesce,
}
use open_sso.Store.{Db, ClientRow, Application}
use open_sso.Web.{Env, M, ◌>>=◌, ◌>>◌, pure, or_stop, check, ask, found, query_row, sha256_string}

pub record OauthClient : Type 0 where
  pub application_id : ℕ
  pub name : Text
  pub client_id : Text
  pub secret_hash : Option Text
  pub is_public : Bool
  pub require_pkce : Bool
  pub allowed_scopes : List Text
  pub access_ttl : ℕ
  pub id_ttl : ℕ
  pub refresh_ttl : ℕ

-- The form of a request to the token, revocation and introspection endpoints; a missing value is
-- the empty text, and `basic` is what `r.BasicAuth()` gives.
pub record TokenForm : Type 0 where
  pub parses : Bool
  pub remote_ip : Text
  pub basic : Option (Text × Text)
  pub client_id : Text
  pub client_secret : Text
  pub grant_type : Text
  pub code : Text
  pub redirect_uri : Text
  pub code_verifier : Text
  pub refresh_token : Text
  pub scope : Text
  pub token : Text

unfoldable join_client : ClientRow → Application → OauthClient
join_client oc a = record {
  application_id = a.id;
  name = a.name;
  client_id = oc.client_id;
  secret_hash = oc.client_secret_hash;
  is_public = oc.public_client;
  require_pkce = oc.require_pkce;
  allowed_scopes = oc.allowed_scopes;
  access_ttl = oc.access_token_ttl;
  id_ttl = oc.id_token_ttl;
  refresh_ttl = oc.refresh_token_ttl;
}

-- `FROM oauth_clients oc JOIN applications a … WHERE oc.client_id=$1 AND a.enabled=true`.
unfoldable pub select_client : Text → Db → Option OauthClient
unfolding join_client
select_client client_id db = elim (find (λ oc. text_eq oc.client_id client_id) db.oauth_clients) [
  | none ↦ none
  | some oc ↦ elim (find (λ a. a.id == oc.application_id && a.enabled) db.applications) [
    | none ↦ none
    | some a ↦ some (join_client oc a)
  ]
]

unfoldable pub load_oauth_client : Text → M (Unit {0}) OauthClient
load_oauth_client client_id = do or_stop (found (← query_row (select_client client_id))) tt

-- HTTP Basic credentials take the place of those in the form.
abbrev pub presented : TokenForm → Text × Text
presented f = coalesce f.basic (f.client_id, f.client_secret)

-- The checks on a client that was found. `none` in `secret_hash` is SQL's NULL.
unfoldable pub accepts_secret : Env → OauthClient → Bool → Text → Bool
accepts_secret e c has_basic secret =
    if c.is_public then not (has_basic || not (is_empty secret)) else elim c.secret_hash [
      | none ↦ false
      | some hash ↦ not (is_empty secret) && text_eq (sha256_string e secret) hash
    ]

unfoldable pub authenticate_oauth_client : TokenForm → M (Unit {0}) OauthClient
unfolding load_oauth_client accepts_secret
authenticate_oauth_client f = do
  let (client_id, secret) = presented f
  check (not (is_empty client_id)) tt
  client ← load_oauth_client client_id
  accepted ← ask (λ e. accepts_secret e client (is_some f.basic) secret)
  check accepted tt
  pure client
