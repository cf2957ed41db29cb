-- ===== src/Mfa.antt =====
-- Second factors: backend/internal/mfa, and their handlers in backend/internal/httpapi/mfa.go.
pub mod Policy
pub mod Box
pub mod Recovery
pub mod Totp
pub mod Owner
pub mod Webauthn
pub mod Handlers
pub mod Admin
