-- ===== src/OAuth.antt =====
-- OAuth 2.0 and OpenID Connect: backend/internal/httpapi/oauth.go.
pub mod Client
pub mod Verify
pub mod Issue
pub mod Deliver
pub mod Code
pub mod Refresh
pub mod Endpoints
pub mod Revocation
pub mod Authorize
pub mod Consent
pub mod Logout
