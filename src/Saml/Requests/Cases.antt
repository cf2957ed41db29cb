-- ===== src/Saml/Requests/Cases.antt =====
-- What a SAML request is before and after it is bound to a user, or handed out.
use open_sso.Prelude.{
  ℕ, ◌<◌, Text, List, All, text_eq, text_eq_iff, codes, exists, update_where, ltb, not, ◌≢◌, ◌⊎◌,
  count, ◌==◌, ◌&&◌, ◌||◌, is_some, true, none, some, ◌≡◌, refl, arith, Bool-cases, inl, inr,
}
use open_sso.Store.{Db, SamlRequest}
use open_sso.Store.Tables.{find_holds, update_where-All}
use open_sso.Portal.{is_entitled}
use open_sso.Saml.Requests.{AuthRequest, find_pending, find_open, may_use}

-- The request was neither completed nor answered nor expired, its application is an enabled SAML one
-- that the user is entitled to, and the only such row has the user and the time of completion now.
pub record Bound (key : Text) (user_id now : ℕ) (a : Db) (id : ℕ) (b : Db) : Type 0 where
  pub pending : SamlRequest
  pub named : pending.request_key ≡ key
  pub in_time : now < pending.expires_at
  pub not_completed : pending.completed_at ≡ none
  pub not_answered : pending.consumed_at ≡ none
  pub application : id ≡ pending.application_id
  pub is_saml :
      exists (λ p. p.id == id && (p.enabled && text_eq p.protocol (codes "saml"))) a.applications
      ≡ true
  pub entitled :
      exists (λ p. p.application_id == id && p.user_id == user_id) a.user_assignments
        || exists
            (λ p.
              p.application_id == id
              && exists (λ m. m.group_id == p.group_id && m.user_id == user_id) a.memberships)
            a.group_assignments
      ≡ true
  pub single :
      count
        (λ q.
          text_eq q.request_key key
          && (not (is_some q.completed_at) && not (is_some q.consumed_at)))
        a.saml_requests
      ≡ 1
  pub written : b ≡ record a {
    saml_requests =
        update_where
          (λ q.
            text_eq q.request_key key
            && (not (is_some q.completed_at) && not (is_some q.consumed_at)))
          (λ q. record q { user_id = some user_id; completed_at = some now })
          a.saml_requests;
  }

-- The request was completed for a user, neither answered nor expired; it is returned, and every row
-- with its key has a time of the answer now.
pub record Answered (key : Text) (now : ℕ) (a : Db) (r : AuthRequest) (b : Db) : Type 0 where
  pub completed : SamlRequest
  pub named : completed.request_key ≡ key
  pub in_time : now < completed.expires_at
  pub not_answered : completed.consumed_at ≡ none
  pub user : is_some completed.user_id ≡ true
  pub done : is_some completed.completed_at ≡ true
  pub same_id : r.id ≡ key
  pub same_user : r.user_id ≡ completed.user_id
  pub same_application : r.application_id ≡ completed.application_id
  pub same_acs_url : r.acs_url ≡ completed.acs_url
  pub same_issuer : r.issuer ≡ completed.issuer
  pub same_request : r.saml_request_id ≡ completed.saml_request_id
  pub same_relay_state : r.relay_state ≡ completed.relay_state
  pub written : b ≡ record a {
    saml_requests =
        update_where
          (λ q. text_eq q.request_key key && not (is_some q.consumed_at))
          (λ q. record q { consumed_at = some now })
          a.saml_requests;
  }
  pub all_answered :
      All (λ q. (q.request_key ≢ key) ⊎ (is_some q.consumed_at ≡ true)) b.saml_requests

pub pending_parts :
    (key : Text) (now : ℕ) (db : Db) (q : SamlRequest)
    → find_pending key now db ≡ some q
    → (q.request_key ≡ key)
      × (now < q.expires_at)
      × (q.completed_at ≡ none)
      × (q.consumed_at ≡ none)
unfolding find_pending
pending_parts key now db q h = ground (
  arith,
  find_holds
      (λ r.
        text_eq r.request_key key
        && (ltb now r.expires_at && not (is_some r.consumed_at) && not (is_some r.completed_at)))
      db.saml_requests q h,
  text_eq_iff q.request_key key,
)

pub open_parts :
    (key : Text) (now : ℕ) (db : Db) (q : SamlRequest)
    → find_open key now db ≡ some q
    → (q.request_key ≡ key) × (now < q.expires_at) × (q.consumed_at ≡ none)
unfolding find_open
open_parts key now db q h = ground (
  arith,
  find_holds
      (λ r. text_eq r.request_key key && (ltb now r.expires_at && not (is_some r.consumed_at)))
      db.saml_requests q h,
  text_eq_iff q.request_key key,
)

-- No row with the key is left without an answer.
pub update_where-answered :
    (key : Text) (now : ℕ) (qs : List SamlRequest)
    → All
        (λ q. (q.request_key ≢ key) ⊎ (is_some q.consumed_at ≡ true))
        (update_where
          (λ q. text_eq q.request_key key && not (is_some q.consumed_at))
          (λ q. record q { consumed_at = some now })
          qs)
update_where-answered key now qs =
    update_where-All (λ q. text_eq q.request_key key && not (is_some q.consumed_at))
      (λ q. record q { consumed_at = some now })
      (λ q. (q.request_key ≢ key) ⊎ (is_some q.consumed_at ≡ true)) (λ q hit. inr refl)
      (λ q miss. elim (Bool-cases (is_some q.consumed_at)) [
        | inl y ↦ inr y
        | inr n ↦ inl (λ same. ground (arith, miss, n, (text_eq_iff q.request_key key).1 same))
      ])
      qs

pub may_saml :
    (id user_id : ℕ) (db : Db)
    → may_use id user_id db ≡ true
    → exists (λ p. p.id == id && (p.enabled && text_eq p.protocol (codes "saml"))) db.applications
      ≡ true
unfolding may_use
may_saml id user_id db h = ground (arith, h)

pub may_entitled :
    (id user_id : ℕ) (db : Db)
    → may_use id user_id db ≡ true
    → exists (λ p. p.application_id == id && p.user_id == user_id) db.user_assignments
        || exists
            (λ p.
              p.application_id == id
              && exists (λ m. m.group_id == p.group_id && m.user_id == user_id) db.memberships)
            db.group_assignments
      ≡ true
unfolding may_use is_entitled
may_entitled id user_id db h = ground (arith, h)
