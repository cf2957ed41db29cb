-- ===== src/History/Guarded.antt =====
-- The facts about the database that no request undoes.
use mathlib.Core.List.{append_assoc}
use open_sso.Prelude.{
  Text, text_eq, exists, ◌||◌, not, is_some, Bool, true, List, [], ◌∷◌, ◌++◌, ◌≡◌, refl, sym, arith,
}
use open_sso.Store.{Db, AuditEvent, Session, AuthorizationCode, RefreshToken, SamlRequest}
use open_sso.History.Flags.{flagged}

-- The code with this hash is redeemed; the refresh token, used or revoked; the session, revoked.
unfoldable pub is_redeemed : Text → Db → Bool
is_redeemed hash db =
    flagged (λ c. c.code_hash) (λ c. is_some c.consumed_at) hash db.authorization_codes

unfoldable pub is_spent : Text → Db → Bool
is_spent hash db =
    flagged (λ t. t.token_hash) (λ t. is_some t.consumed_at || is_some t.revoked_at) hash
      db.refresh_tokens

unfoldable pub is_revoked : Text → Db → Bool
is_revoked hash db = flagged (λ s. s.token_hash) (λ s. is_some s.revoked_at) hash db.sessions

-- A code with this hash was issued.
unfoldable pub is_issued : Text → Db → Bool
is_issued hash db = exists (λ c. text_eq c.code_hash hash) db.authorization_codes

-- The SAML request with this key is answered.
unfoldable pub is_answered : Text → Db → Bool
is_answered key db = flagged (λ q. q.request_key) (λ q. is_some q.consumed_at) key db.saml_requests

-- From `a` to `b`, what was so stays so, and events are only added to the audit log.
pub record Guarded (a b : Db) : Type 0 where
  pub initialized : not a.initialized || b.initialized ≡ true
  pub issued : (hash : Text) → not (is_issued hash a) || is_issued hash b ≡ true
  pub redeemed : (hash : Text) → not (is_redeemed hash a) || is_redeemed hash b ≡ true
  pub spent : (hash : Text) → not (is_spent hash a) || is_spent hash b ≡ true
  pub revoked : (hash : Text) → not (is_revoked hash a) || is_revoked hash b ≡ true
  pub answered : (key : Text) → not (is_answered key a) || is_answered key b ≡ true
  pub logged : (new : List AuditEvent) × (b.audit_events ≡ new ++ a.audit_events)

implies_self : (b : Bool) → not b || b ≡ true
implies_self b = ground arith

implies_trans : (a b c : Bool) → not a || b ≡ true → not b || c ≡ true → not a || c ≡ true
implies_trans a b c h k = ground arith

pub Guarded-refl : (a : Db) → Guarded a a
Guarded-refl a = record {
  initialized = implies_self a.initialized;
  issued = λ hash. implies_self (is_issued hash a);
  redeemed = λ hash. implies_self (is_redeemed hash a);
  spent = λ hash. implies_self (is_spent hash a);
  revoked = λ hash. implies_self (is_revoked hash a);
  answered = λ key. implies_self (is_answered key a);
  logged = ([], refl);
}

pub Guarded-trans : (a b c : Db) → Guarded a b → Guarded b c → Guarded a c
Guarded-trans a b c h k = record {
  initialized = implies_trans a.initialized b.initialized c.initialized h.initialized k.initialized;
  issued =
      λ x. implies_trans (is_issued x a) (is_issued x b) (is_issued x c) (h.issued x) (k.issued x);
  redeemed = λ x.
      implies_trans (is_redeemed x a) (is_redeemed x b) (is_redeemed x c) (h.redeemed x)
        (k.redeemed x);
  spent = λ x. implies_trans (is_spent x a) (is_spent x b) (is_spent x c) (h.spent x) (k.spent x);
  revoked = λ x.
      implies_trans (is_revoked x a) (is_revoked x b) (is_revoked x c) (h.revoked x) (k.revoked x);
  answered = λ x.
      implies_trans (is_answered x a) (is_answered x b) (is_answered x c) (h.answered x)
        (k.answered x);
  logged = (
    k.logged.0 ++ h.logged.0,
    rw (k.logged.1, h.logged.1) (sym (append_assoc (k.logged.0) (h.logged.0) a.audit_events)),
  );
}

-- A statement that writes to none of the tables.
pub Guarded-elsewhere :
    (a b : Db)
    → b.initialized ≡ a.initialized
    → b.authorization_codes ≡ a.authorization_codes
    → b.refresh_tokens ≡ a.refresh_tokens
    → b.sessions ≡ a.sessions
    → b.saml_requests ≡ a.saml_requests
    → b.audit_events ≡ a.audit_events
    → Guarded a b
unfolding is_issued is_redeemed is_spent is_revoked is_answered
Guarded-elsewhere a b i c t s q l = record {
  initialized = rw i (implies_self a.initialized);
  issued = λ x. rw c (implies_self (is_issued x a));
  redeemed = λ x. rw c (implies_self (is_redeemed x a));
  spent = λ x. rw t (implies_self (is_spent x a));
  revoked = λ x. rw s (implies_self (is_revoked x a));
  answered = λ x. rw q (implies_self (is_answered x a));
  logged = ([], l);
}

pub add_event-Guarded :
    (v : AuditEvent) (a : Db) → Guarded a (record a { audit_events = v ∷ a.audit_events })
unfolding is_issued is_redeemed is_spent is_revoked is_answered
add_event-Guarded v a = record {
  initialized = implies_self a.initialized;
  issued = λ x. implies_self (is_issued x a);
  redeemed = λ x. implies_self (is_redeemed x a);
  spent = λ x. implies_self (is_spent x a);
  revoked = λ x. implies_self (is_revoked x a);
  answered = λ x. implies_self (is_answered x a);
  logged = (v ∷ [], refl);
}

-- The tables of sessions, codes and refresh tokens, each replaced.
pub sessions-Guarded :
    (a : Db) (ss : List Session)
    → ((x : Text) → not (is_revoked x a) || is_revoked x (record a { sessions = ss }) ≡ true)
    → Guarded a (record a { sessions = ss })
unfolding is_issued is_redeemed is_spent is_answered
sessions-Guarded a ss h = record {
  initialized = implies_self a.initialized;
  issued = λ x. implies_self (is_issued x a);
  redeemed = λ x. implies_self (is_redeemed x a);
  spent = λ x. implies_self (is_spent x a);
  revoked = h;
  answered = λ x. implies_self (is_answered x a);
  logged = ([], refl);
}

pub codes-Guarded :
    (a : Db) (cs : List AuthorizationCode)
    → ((x : Text)
        → not (is_issued x a) || is_issued x (record a { authorization_codes = cs }) ≡ true)
    → ((x : Text)
        → not (is_redeemed x a) || is_redeemed x (record a { authorization_codes = cs }) ≡ true)
    → Guarded a (record a { authorization_codes = cs })
unfolding is_revoked is_spent is_answered
codes-Guarded a cs i h = record {
  initialized = implies_self a.initialized;
  issued = i;
  redeemed = h;
  spent = λ x. implies_self (is_spent x a);
  revoked = λ x. implies_self (is_revoked x a);
  answered = λ x. implies_self (is_answered x a);
  logged = ([], refl);
}

pub refresh-Guarded :
    (a : Db) (ts : List RefreshToken)
    → ((x : Text) → not (is_spent x a) || is_spent x (record a { refresh_tokens = ts }) ≡ true)
    → Guarded a (record a { refresh_tokens = ts })
unfolding is_issued is_revoked is_redeemed is_answered
refresh-Guarded a ts h = record {
  initialized = implies_self a.initialized;
  issued = λ x. implies_self (is_issued x a);
  redeemed = λ x. implies_self (is_redeemed x a);
  spent = h;
  revoked = λ x. implies_self (is_revoked x a);
  answered = λ x. implies_self (is_answered x a);
  logged = ([], refl);
}

pub answers-Guarded :
    (a : Db) (qs : List SamlRequest)
    → ((x : Text) → not (is_answered x a) || is_answered x (record a { saml_requests = qs }) ≡ true)
    → Guarded a (record a { saml_requests = qs })
unfolding is_issued is_revoked is_redeemed is_spent
answers-Guarded a qs h = record {
  initialized = implies_self a.initialized;
  issued = λ x. implies_self (is_issued x a);
  redeemed = λ x. implies_self (is_redeemed x a);
  spent = λ x. implies_self (is_spent x a);
  revoked = λ x. implies_self (is_revoked x a);
  answered = h;
  logged = ([], refl);
}

pub initialized-Guarded : (a : Db) → Guarded a (record a { initialized = true })
unfolding is_issued is_redeemed is_spent is_revoked is_answered
initialized-Guarded a = record {
  initialized = ground arith;
  issued = λ x. implies_self (is_issued x a);
  redeemed = λ x. implies_self (is_redeemed x a);
  spent = λ x. implies_self (is_spent x a);
  revoked = λ x. implies_self (is_revoked x a);
  answered = λ x. implies_self (is_answered x a);
  logged = ([], refl);
}
