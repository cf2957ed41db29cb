-- ===== src/Saml.antt =====
-- The SAML identity provider: backend/internal/samlidp and backend/internal/httpapi/saml_admin.go.
-- The protocol itself is github.com/zitadel/saml, which calls the storage.
pub mod Metadata
pub mod Requests
pub mod Subject
pub mod Certificates
pub mod Admin
pub mod Runtime
pub mod Calls
