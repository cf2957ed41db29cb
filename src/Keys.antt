-- ===== src/Keys.antt =====
-- The signing keys: backend/internal/oidc/keys.go.
mod Defs
pub mod Frame
pub mod Rotation
unfoldable pub use Defs.*
