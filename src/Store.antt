-- ===== src/Store.antt =====
-- The tables that the migrations create (backend/internal/database/migrations), as records of
-- rows. An uuid is a number, a timestamp counts nanoseconds, and a text column is a `Text`.
mod Identity
mod Oauth
mod Factors
mod Saml
pub mod Tables
pub use Identity.*
pub use Oauth.*
pub use Factors.*
pub use Saml.*
use open_sso.Prelude.{ℕ, Bool, List}

-- The database. `next_id` stands for `gen_random_uuid()`: it has not been given out yet.
pub record Db : Type 0 where
  pub initialized : Bool
  pub users : List User
  pub passwords : List PasswordCredential
  pub roles : List Role
  pub permissions : List Permission
  pub role_permissions : List RolePermission
  pub role_assignments : List RoleAssignment
  pub groups : List Group
  pub memberships : List Membership
  pub sessions : List Session
  pub policy : SecurityPolicy
  pub audit_events : List AuditEvent
  pub applications : List Application
  pub oauth_clients : List ClientRow
  pub redirect_uris : List RedirectUri
  pub post_logout_redirect_uris : List RedirectUri
  pub user_assignments : List UserAssignment
  pub group_assignments : List GroupAssignment
  pub saml_service_providers : List SamlProvider
  pub saml_requests : List SamlRequest
  pub saml_certificates : List SamlCertificate
  pub login_ui : LoginUi
  pub consents : List Consent
  pub requests : List AuthorizationRequest
  pub authorization_codes : List AuthorizationCode
  pub refresh_tokens : List RefreshToken
  pub access_tokens : List AccessToken
  pub totp_credentials : List TotpCredential
  pub recovery_codes : List RecoveryCode
  pub webauthn_credentials : List WebauthnCredential
  pub webauthn_users : List WebauthnUser
  pub group_mfa_policies : List GroupMfaPolicy
  pub application_mfa_policies : List ApplicationMfaPolicy
  pub next_id : ℕ
