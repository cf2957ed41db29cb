-- ===== src/History.antt =====
-- What a sequence of requests may do to the database: handlers of backend/internal/httpapi, with
-- whatever environment each of them meets.
pub mod Flags
pub mod Guarded
pub mod Keeps
pub mod Writes
pub mod Shared
pub mod Listings
pub mod Accounts
pub mod Management
pub mod Registration
pub mod Factors
pub mod Webauthn
pub mod Enrolment
pub mod Tokens
pub mod Consents
pub mod Saml
pub mod Dispatch
pub mod Requests
pub mod Replay
pub mod Answers
pub mod Once
