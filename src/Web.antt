-- ===== src/Web.antt =====
-- A request handler: state passing over the database, with early return. Every statement sent to
-- PostgreSQL or Redis may fail, and every read of the random source may; the environment says
-- which, so a theorem about a handler covers each way in which its calls can go wrong.
mod Replies
mod Externals
mod Statements
pub mod Limits
pub mod Rules
pub mod Invariants
pub use Replies.*
pub use Externals.*
pub use Statements.*
