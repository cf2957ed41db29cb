-- ===== src/Store/Factors.antt =====
-- Rows of the second factors and of the policies that require them.
use open_sso.Prelude.{ℕ, Text, Bool, Option}

pub record TotpCredential : Type 0 where
  pub user_id : ℕ
  pub encrypted_secret : Text
  pub active : Bool
  pub verified_at : Option ℕ
  pub last_used_at : Option ℕ

pub record RecoveryCode : Type 0 where
  pub id : ℕ
  pub user_id : ℕ
  pub code_hash : Text
  pub used_at : Option ℕ

pub record WebauthnCredential : Type 0 where
  pub id : ℕ
  pub user_id : ℕ
  pub credential_id : Text
  pub encrypted_credential : Text
  pub display_name : Text
  pub discoverable : Bool
  pub last_used_at : Option ℕ

pub record WebauthnUser : Type 0 where
  pub user_id : ℕ
  pub user_handle : Text

pub record GroupMfaPolicy : Type 0 where
  pub group_id : ℕ
  pub required : Bool

pub record ApplicationMfaPolicy : Type 0 where
  pub application_id : ℕ
  pub required : Bool
