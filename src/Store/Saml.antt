-- ===== src/Store/Saml.antt =====
-- Rows of SAML service providers, authentication requests and certificates, and the row of the
-- login page.
use open_sso.Prelude.{ℕ, Text, Bool, Option}

pub record SamlProvider : Type 0 where
  pub application_id : ℕ
  pub entity_id : Text
  pub metadata_xml : Text
  pub require_signed : Bool
  pub initiate_login_uri : Option Text

-- `saml_authn_requests`; its uuid is left out, since no statement reads it.
pub record SamlRequest : Type 0 where
  pub request_key : Text
  pub saml_request_id : Text
  pub application_id : ℕ
  pub issuer : Text
  pub destination : Text
  pub acs_url : Text
  pub response_binding : Text
  pub relay_state : Text
  pub user_id : Option ℕ
  pub expires_at : ℕ
  pub completed_at : Option ℕ
  pub consumed_at : Option ℕ

-- `saml_signing_certificates`, newest first.
pub record SamlCertificate : Type 0 where
  pub kid : Text
  pub encrypted_private_key : Text
  pub certificate_der : Text
  pub not_before : ℕ
  pub not_after : ℕ
  pub active : Bool
  pub retired_at : Option ℕ

-- An `int` of the program.
pub data ℤ : Type 0 where
  pos : ℕ → ℤ
  negsuc : ℕ → ℤ

-- `loginUISettings` of branding.go, and the row of `login_ui_settings`.
pub record LoginUi : Type 0 where
  pub enabled : Bool
  pub brand_name : Text
  pub heading : Text
  pub subheading : Text
  pub logo_url : Text
  pub background_image_url : Text
  pub background_color : Text
  pub card_color : Text
  pub text_color : Text
  pub muted_text_color : Text
  pub primary_color : Text
  pub input_background_color : Text
  pub border_color : Text
  pub card_radius : ℤ
  pub card_width : ℤ
  pub notice_text : Text
  pub footer_text : Text
  pub show_brand_name : Bool
  pub show_footer : Bool
