-- ===== src/Store/Identity.antt =====
-- Rows of users, roles, groups, sessions, the security policy and the audit log.
use open_sso.Prelude.{ℕ, String, Text, Bool, Option}

pub record User : Type 0 where
  pub id : ℕ
  pub username : Text
  pub email : Text
  pub display_name : Text
  pub active : Bool
  pub must_change_password : Bool
  pub failed_logins : ℕ
  pub locked_until : Option ℕ

pub record PasswordCredential : Type 0 where
  pub user_id : ℕ
  pub password_hash : Text

pub record Role : Type 0 where
  pub id : ℕ
  pub name : Text
  pub description : Text

pub record Permission : Type 0 where
  pub id : ℕ
  pub name : Text

pub record RolePermission : Type 0 where
  pub role_id : ℕ
  pub permission_id : ℕ

pub record RoleAssignment : Type 0 where
  pub user_id : ℕ
  pub role_id : ℕ

pub record Group : Type 0 where
  pub id : ℕ
  pub name : Text
  pub description : Text

pub record Membership : Type 0 where
  pub group_id : ℕ
  pub user_id : ℕ

pub record Session : Type 0 where
  pub id : ℕ
  pub user_id : ℕ
  pub token_hash : Text
  pub last_seen_at : ℕ
  pub expires_at : ℕ
  pub revoked_at : Option ℕ
  pub mfa_verified_at : Option ℕ

-- `securityPolicy` of stage1.go, and the row of `security_policies`.
pub record SecurityPolicy : Type 0 where
  pub password_min_length : ℕ
  pub password_require_upper : Bool
  pub password_require_lower : Bool
  pub password_require_digit : Bool
  pub password_require_symbol : Bool
  pub lockout_threshold : ℕ
  pub lockout_minutes : ℕ
  pub session_ttl_minutes : ℕ
  pub mfa_required : Bool

-- What an audit event is about: `target_type` with `target_id`.
pub data Target : Type 0 where
  user session group application webauthn_credential login_ui : ℕ → Target
  signing_key : Text → Target
  security_policy global unknown_user saml_certificate : Target

pub record AuditEvent : Type 0 where
  pub actor : Option ℕ
  pub event : String
  pub target : Target
  pub success : Bool
