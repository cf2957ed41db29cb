-- ===== src/Tests.antt =====
-- Concrete runs of the program, and the theorems at them.
pub mod Setup
mod ScopeRuns
mod GrantRuns
mod AccessRuns
mod ApplicationRuns
mod PolicyRuns
mod HistoryRuns
mod OnceRuns
mod SamlRuns
mod FactorRuns
