-- ===== src/History/Requests.antt =====
-- Sequences of requests and of calls of the SAML provider, each with its own environment: what one
-- of them did, no later one undoes.
use mathlib.Core.Path.{subst}
use open_sso.Prelude.{Text, true, ◌≡◌, sym, none, coalesce, arith, List, ◌++◌}
use open_sso.Store.{Db, AuditEvent}
use open_sso.Web.{Env, World, run}
use open_sso.Routes.{Request}
use open_sso.Middleware.{Http, serve}
use open_sso.History.Guarded.{Guarded, Guarded-refl, is_redeemed, is_spent, is_revoked, is_answered}
use open_sso.History.Keeps.{Follows, carry}
use open_sso.Saml.Requests.{create_auth_request, auth_request_by_id}
use open_sso.Saml.Certificates.{active_certificate}
use open_sso.Saml.Calls.{StorageCall, create_request, take_answered, signing_key, call}
use open_sso.History.Saml.{
  create_auth_request-Keeps, auth_request_by_id-Keeps, active_certificate-Keeps,
}
use open_sso.History.Dispatch.{serve-Keeps}

pub data Step (w : World) : World → Type 0 where
  request : (h : Http) (r : Request) (e : Env) → Step w (run (serve h r) e w).1
  -- The SAML provider calls the storage.
  storage : (c : StorageCall) (e : Env) → Step w (call c e w)

pub data Reach (w : World) : World → Type 0 where
  here : Reach w w
  later : {u v : World} → Reach w u → Step u v → Reach w v

call-Follows :
    (db : Db) (c : StorageCall) (e : Env) (w : World) → Follows db w → Follows db (call c e w)
unfolding call
call-Follows db (create_request q acs_url binding relay_state application_id) e w start =
    carry (create_auth_request q acs_url binding relay_state application_id)
      (create_auth_request-Keeps q acs_url binding relay_state application_id) db e w start
call-Follows db (take_answered key) e w start =
    carry (auth_request_by_id key) (auth_request_by_id-Keeps key) db e w start
call-Follows db signing_key e w start =
    carry active_certificate active_certificate-Keeps db e w start

Reach-Follows : (db : Db) {w v : World} → Follows db w → Reach w v → Follows db v
Reach-Follows db start here = start
Reach-Follows db start (later {u = u} r (request h q e)) =
    carry (serve h q) (serve-Keeps h q) db e u (Reach-Follows db start r)
Reach-Follows db start (later {u = u} r (storage c e)) =
    call-Follows db c e u (Reach-Follows db start r)

-- No transaction is open between requests.
pub Reach-Guarded : (w v : World) → w.saved ≡ none → Reach w v → Guarded w.db v.db
Reach-Guarded w v closed r =
    (Reach-Follows w.db
      (
        Guarded-refl w.db,
        subst (λ s. Guarded w.db (coalesce s w.db)) (sym closed) (Guarded-refl w.db),
      )
      r).0

-- The facts of `Guarded`, along a sequence.
pub initialized-Reach :
    (w v : World) → w.saved ≡ none → Reach w v → w.db.initialized ≡ true → v.db.initialized ≡ true
initialized-Reach w v closed r h = ground (arith, (Reach-Guarded w v closed r).initialized)

pub is_redeemed-Reach :
    (hash : Text) (w v : World)
    → w.saved ≡ none
    → Reach w v
    → is_redeemed hash w.db ≡ true
    → is_redeemed hash v.db ≡ true
is_redeemed-Reach hash w v closed r h = ground (arith, (Reach-Guarded w v closed r).redeemed hash)

pub is_spent-Reach :
    (hash : Text) (w v : World)
    → w.saved ≡ none
    → Reach w v
    → is_spent hash w.db ≡ true
    → is_spent hash v.db ≡ true
is_spent-Reach hash w v closed r h = ground (arith, (Reach-Guarded w v closed r).spent hash)

pub is_revoked-Reach :
    (hash : Text) (w v : World)
    → w.saved ≡ none
    → Reach w v
    → is_revoked hash w.db ≡ true
    → is_revoked hash v.db ≡ true
is_revoked-Reach hash w v closed r h = ground (arith, (Reach-Guarded w v closed r).revoked hash)

pub is_answered-Reach :
    (key : Text) (w v : World)
    → w.saved ≡ none
    → Reach w v
    → is_answered key w.db ≡ true
    → is_answered key v.db ≡ true
is_answered-Reach key w v closed r h = ground (arith, (Reach-Guarded w v closed r).answered key)

-- The audit log of the second world has only new events in front.
abbrev pub Grows : World → World → Type 0
Grows w v = (new : List AuditEvent) × (v.db.audit_events ≡ new ++ w.db.audit_events)

-- Along any sequence of requests and of calls of the SAML provider, whatever their environments,
-- the audit log only grows: the events of the start are the tail of those of the end; no
-- transaction is open at the start.
pub audit-Reach : (w v : World) → w.saved ≡ none → Reach w v → Grows w v
audit-Reach w v closed r = (Reach-Guarded w v closed r).logged
