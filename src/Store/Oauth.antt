-- ===== src/Store/Oauth.antt =====
-- Rows of applications, OAuth clients, consents, authorization codes, tokens and signing keys.
use open_sso.Prelude.{ℕ, Text, Bool, List, Option}

pub record Application : Type 0 where
  pub id : ℕ
  pub name : Text
  pub protocol : Text
  pub enabled : Bool

pub record ClientRow : Type 0 where
  pub application_id : ℕ
  pub client_id : Text
  pub client_secret_hash : Option Text
  pub public_client : Bool
  pub require_pkce : Bool
  pub allowed_scopes : List Text
  pub access_token_ttl : ℕ
  pub id_token_ttl : ℕ
  pub refresh_token_ttl : ℕ
  pub initiate_login_uri : Option Text

pub record RedirectUri : Type 0 where
  pub application_id : ℕ
  pub redirect_uri : Text

pub record Consent : Type 0 where
  pub user_id : ℕ
  pub application_id : ℕ
  pub granted_scopes : List Text

pub record AuthorizationRequest : Type 0 where
  pub id : ℕ
  pub request_token_hash : Text
  pub application_id : ℕ
  pub user_id : ℕ
  pub redirect_uri : Text
  pub state : Text
  pub nonce : Text
  pub scope : Text
  pub code_challenge : Text
  pub expires_at : ℕ
  pub consumed_at : Option ℕ

pub record AuthorizationCode : Type 0 where
  pub id : ℕ
  pub code_hash : Text
  pub application_id : ℕ
  pub user_id : ℕ
  pub redirect_uri : Text
  pub scope : Text
  pub nonce : Text
  pub code_challenge : Text
  pub expires_at : ℕ
  pub consumed_at : Option ℕ

pub record RefreshToken : Type 0 where
  pub id : ℕ
  pub token_hash : Text
  pub family_id : Text
  pub parent_id : Option ℕ
  pub application_id : ℕ
  pub user_id : ℕ
  pub scope : Text
  pub expires_at : ℕ
  pub consumed_at : Option ℕ
  pub revoked_at : Option ℕ

pub record AccessToken : Type 0 where
  pub jti : Text
  pub application_id : ℕ
  pub user_id : Option ℕ
  pub subject : Text
  pub scope : Text
  pub expires_at : ℕ
  pub revoked_at : Option ℕ

pub record SigningKeyRow : Type 0 where
  pub kid : Text
  pub encrypted_private_key : Text
  pub public_jwk : Text
  pub active : Bool
  pub retired_at : Option ℕ

-- `application_user_assignments` and `application_group_assignments`.
pub record UserAssignment : Type 0 where
  pub application_id : ℕ
  pub user_id : ℕ

pub record GroupAssignment : Type 0 where
  pub application_id : ℕ
  pub group_id : ℕ
