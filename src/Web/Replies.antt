-- ===== src/Web/Replies.antt =====
-- What a handler writes: `problem`, `writeJSON`, `writeOAuthJSON`, `oauthJSONError` of
-- backend/internal/httpapi, and the redirects. Fixed messages are kept as texts.
use open_sso.Prelude.{ℕ, String, Text, Bool, List, Option}
use open_sso.Store.{SecurityPolicy, LoginUi}

-- The map that `issueUserTokens` and `issueAccessToken` return.
pub record TokenResponse : Type 0 where
  pub access_token : Text
  pub expires_in : ℕ
  pub scope : Text
  pub id_token : Option Text
  pub refresh_token : Option Text

-- The answer of `userinfo`.
pub record UserInfo : Type 0 where
  pub sub : ℕ
  pub profile : Option (Text × Text)
  pub email : Option Text
  pub groups : Option (List Text)

-- The answer of `introspectToken` about a token that the server knows; only an access token has
-- `iat`, and that tells the two token types apart.
pub record Introspection : Type 0 where
  pub active : Bool
  pub client_id : Text
  pub sub : Text
  pub scope : Text
  pub exp : ℕ
  pub iat : Option ℕ

-- The answer of `login`, with the two cookies; the id of the session is left out.
pub record LoginResult : Type 0 where
  pub user_id : ℕ
  pub username : Text
  pub session_token : Text
  pub csrf_token : Text
  pub expires_at : ℕ
  pub mfa_required : Bool
  pub mfa_enrollment_required : Bool

-- `Status` of the package mfa.
pub record MfaStatus : Type 0 where
  pub required : Bool
  pub totp_enabled : Bool
  pub webauthn_credentials : ℕ
  pub passkeys : ℕ
  pub recovery_codes_remaining : ℕ
  pub has_primary_factor : Bool

-- The errors of the package mfa; `failure` is any that it does not name.
pub data MfaError : Type 0 where
  not_enrolled already_enrolled invalid_code last_required_factor failure : MfaError

-- `WebAuthnCredentialInfo`; the time of creation is left out.
pub record KeyInfo : Type 0 where
  pub id : ℕ
  pub display_name : Text
  pub discoverable : Bool
  pub last_used_at : Option ℕ

-- A session in a listing; its address and its user agent are left out.
pub record SessionInfo : Type 0 where
  pub id : ℕ
  pub last_seen_at : ℕ
  pub expires_at : ℕ

-- The answer of `applicationIntegration`; the URLs that only append a path to the issuer are left
-- out.
pub record Integration : Type 0 where
  pub name : Text
  pub issuer : Text
  pub client_id : Text
  pub public_client : Bool
  pub initiate_login_uri : Option Text
  pub scopes : List Text
  pub redirect_uris : List Text
  pub post_logout_redirect_uris : List Text

-- A person in a listing, or a profile; `active` where it is shown.
pub record Person : Type 0 where
  pub id : ℕ
  pub username : Text
  pub email : Text
  pub display_name : Text
  pub active : Option Bool

-- A group or a role in a listing.
pub record Named : Type 0 where
  pub id : ℕ
  pub name : Text
  pub description : Text

-- A user in `listUsers` and `getUser`; the time of creation is left out.
pub record AccountInfo : Type 0 where
  pub id : ℕ
  pub username : Text
  pub email : Text
  pub display_name : Text
  pub active : Bool
  pub must_change_password : Bool
  pub locked_until : Option ℕ

-- A session in `listSessions`; the address, the user agent and the time of creation are left out.
pub record ListedSession : Type 0 where
  pub id : ℕ
  pub user_id : ℕ
  pub username : Text
  pub last_seen_at : ℕ
  pub expires_at : ℕ

-- The answer of `me`.
pub record Me : Type 0 where
  pub session_id : ℕ
  pub user_id : ℕ
  pub username : Text
  pub must_change_password : Bool
  pub mfa_verified : Bool
  pub mfa_required : Bool
  pub mfa_enrollment_required : Bool

-- An application in `listApplications`; the time of creation is left out.
pub record ListedApplication : Type 0 where
  pub id : ℕ
  pub name : Text
  pub protocol : Text
  pub enabled : Bool
  pub client_id : Text
  pub entity_id : Text
  pub public_client : Bool
  pub require_pkce : Bool
  pub allowed_scopes : List Text
  pub initiate_login_uri : Text

-- The answer of `createApplication`; the secret of a public client is empty.
pub record NewApplication : Type 0 where
  pub id : ℕ
  pub client_id : Text
  pub client_secret : Text
  pub allowed_scopes : List Text
  pub initiate_login_uri : Text

-- An application in a user's portal.
pub record PortalEntry : Type 0 where
  pub id : ℕ
  pub name : Text
  pub protocol : Text
  pub client_id : Text
  pub launch_url : Text

-- The answer of the two handlers that write a SAML application.
pub record SamlRegistration : Type 0 where
  pub id : ℕ
  pub entity_id : Text
  pub enabled : Option Bool
  pub require_signed : Bool
  pub initiate_login_uri : Text

-- The answer of `samlApplicationIntegration`; what only depends on the public URL is left out.
pub record SamlIntegration : Type 0 where
  pub id : ℕ
  pub name : Text
  pub enabled : Bool
  pub sp_entity_id : Text
  pub sp_metadata_xml : Text
  pub require_signed : Bool
  pub initiate_login_uri : Option Text

-- A certificate in `Metadata`; the time of creation is left out.
pub record CertificateInfo : Type 0 where
  pub kid : Text
  pub active : Bool
  pub not_before : ℕ
  pub not_after : ℕ
  pub retired_at : Option ℕ

pub data Body : Type 0 where
  empty : Body
  detail : String → Body
  oauth_error : String → String → Body
  tokens : TokenResponse → Body
  user_info : UserInfo → Body
  introspection : Introspection → Body
  inactive : Body
  logged_in : LoginResult → Body
  policy : SecurityPolicy → Body
  created : ℕ → Body
  texts : List Text → Body
  count_of : ℕ → Body
  flag : Bool → Body
  secret : Text → Body
  person : Person → Body
  people : List Person → Body
  named : List Named → Body
  members : List Person → List Named → Body
  access : List Text → List Text → Body
  portal : List PortalEntry → Body
  open_sessions : List SessionInfo → Body
  accounts : List AccountInfo → Body
  sessions_of_users : List ListedSession → Body
  me_as : Me → Body
  registered_applications : List ListedApplication → Body
  integration : Integration → Body
  new_application : NewApplication → Body
  factors_of : Option Bool → MfaStatus → List KeyInfo → Body
  saml_application : SamlRegistration → Body
  saml_integration : SamlIntegration → Body
  certificates : List CertificateInfo → Body
  callback_url : Text → Body
  login_page : LoginUi → Body
  enrollment : Text → Text → Text → Body
  ceremony : Text → Text → Body
  security_key : KeyInfo → List Text → Body
  -- Redirects: to the registered URI with a code or an error, and to the login page.
  to_client : Text → Text → Text → Body
  to_client_error : Text → Text → String → Body
  to_login : Bool → Body
  to_home : Body
  to_post_logout : Text → Text → Body
  -- The consent form, with the request token.
  consent_form : Text → List Text → Text → Text → Body

pub record Response : Type 0 where
  pub status : ℕ
  pub body : Body

abbrev pub respond : ℕ → Body → Response
respond status body = record { status = status; body = body }

-- `problem`.
abbrev pub problem : ℕ → String → Response
problem status message = respond status (detail message)

-- `oauthJSONError`.
abbrev pub oauth_json_error : ℕ → String → String → Response
oauth_json_error status code description = respond status (oauth_error code description)

-- `redirectOAuthError`, for a URI that `url.Parse` accepts.
abbrev pub redirect_oauth_error : Text → Text → String → Response
redirect_oauth_error uri state code = respond 302 (to_client_error uri state code)

-- `redirectAuthorizationCode`.
abbrev pub redirect_authorization_code : Text → Text → Text → Response
redirect_authorization_code uri state code = respond 302 (to_client uri state code)
