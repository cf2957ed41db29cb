-- ===== src/History/Answers.antt =====
-- A SAML request that was answered once: `AuthRequestByID` of
-- backend/internal/samlidp/storage.go, after any sequence of requests and calls.
use open_sso.Prelude.{
  ℕ, Text, text_eq, find, ltb, ◌&&◌, not, is_some, Bool, true, false, none, ◌≡◌, arith,
  Option-cases, inl, inr,
}
use open_sso.Store.{Db}
use open_sso.Store.Tables.{find_holds}
use open_sso.Web.{Env, World, Outcome, next, done}
use open_sso.Saml.Requests.{find_open, lookup, take_request, auth_request_by_id}
use open_sso.History.Flags.{flagged-find}
use open_sso.History.Guarded.{is_answered}
use open_sso.History.Requests.{Reach, is_answered-Reach}

-- Whether a call returns a value.
abbrev pub returns : {R A : Type 0} → Outcome R A × World → Bool
returns (next a, w) = true
returns (done x, w) = false

answered_none :
    (key : Text) (now : ℕ) (db : Db) → is_answered key db ≡ true → find_open key now db ≡ none
unfolding is_answered find_open
answered_none key now db h =
    elim (Option-cases (
      find (λ q. text_eq q.request_key key && (ltb now q.expires_at && not (is_some q.consumed_at)))
        db.saml_requests)) [
          | inl n ↦ n
          | inr (q, hit) ↦ absurd (
              ground (
                arith,
                flagged-find (λ r. r.request_key) (λ r. is_some r.consumed_at)
                    (λ r. ltb now r.expires_at && not (is_some r.consumed_at)) key db.saml_requests
                    q h hit,
                find_holds
                    (λ r.
                      text_eq r.request_key key
                      && (ltb now r.expires_at && not (is_some r.consumed_at)))
                    db.saml_requests q hit,
              ))
        ]

-- Once a SAML request is answered, no sequence of requests and of calls of the SAML provider,
-- whatever their environments, leads to a state in which it is handed out again; no transaction
-- is open at the start.
pub answered_request-Refused :
    (key : Text) (e : Env) (w v : World)
    → w.saved ≡ none
    → is_answered key w.db ≡ true
    → Reach w v
    → returns (auth_request_by_id key e v) ≡ false
unfolding auth_request_by_id take_request lookup
answered_request-Refused key e w v closed h r =
    ground (arith, answered_none key e.db_now v.db (is_answered-Reach key w v closed r h))
