-- ===== src/Scope.antt =====
-- Scopes and PKCE verifiers: `normalizeRequestedScope`, `splitScope`, `contains`, `containsAll`,
-- `mergeScopes`, `validPKCEVerifier`, `verifyPKCE` of backend/internal/httpapi/oauth.go.
mod Defs
pub mod Words
pub mod Sets
pub mod Split
pub mod Pkce
unfoldable pub use Defs.*
