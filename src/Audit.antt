-- ===== src/Audit.antt =====
-- `audit` and `auditTx` of backend/internal/httpapi/server.go. The columns for the address, the
-- user agent and the request are left out: nothing reads them but the audit listing.
use open_sso.Prelude.{ℕ, String, Bool, ◌∷◌, Option}
use open_sso.Store.{Db, AuditEvent, Target}
use open_sso.Web.{M, exec, exec_}

abbrev pub event_row : Option ℕ → String → Target → Bool → AuditEvent
event_row actor event target success = record {
  actor = actor;
  event = event;
  target = target;
  success = success;
}

-- `INSERT INTO audit_events`.
unfoldable pub insert_event : AuditEvent → Db → Db
insert_event a db = record db { audit_events = a ∷ db.audit_events }

-- `_ = s.audit(…)`: an event that cannot be written is dropped.
abbrev pub audit : {R : Type 0} → Option ℕ → String → Target → Bool → M R (Unit {0})
audit actor event target success = exec_ (insert_event (event_row actor event target success))

-- `s.auditTx(…)`: its error ends the transaction.
abbrev pub audit_tx : {R : Type 0} → Option ℕ → String → Target → Bool → M R Bool
audit_tx actor event target success = exec (insert_event (event_row actor event target success))
