-- ===== src/History/Writes.antt =====
-- The statements that write to the tables with a flag, and to the audit log.
use open_sso.Prelude.{
  ℕ, suc, Text, text_eq, ◌==◌, ◌&&◌, ◌||◌, not, is_some, ltb, Bool, true, false, Option, none, some,
  coalesce, if◌then◌else◌, List, ◌∷◌, ◌≡◌, refl, exists, update_where, Bool-cases, inl, inr, arith,
}
use open_sso.Store.{Db, AuditEvent, Session, AuthorizationCode, RefreshToken}
use open_sso.History.Flags.{flagged-update, flagged-insert, keeps_keys, keys_insert}
use open_sso.History.Guarded.{
  Guarded, Guarded-refl, Guarded-trans, Guarded-elsewhere, sessions-Guarded, codes-Guarded,
  refresh-Guarded, add_event-Guarded, initialized-Guarded, is_revoked, is_redeemed, is_issued,
  is_spent,
}
use open_sso.History.Keeps.{Stores}
use open_sso.Audit.{insert_event}
use open_sso.Session.{Principal, touch, end_session}
use open_sso.Users.{end_user_sessions, end_session_by_id, end_live_sessions}
use open_sso.Login.{insert_session}
use open_sso.Portal.{end_own_session}
use open_sso.Mfa.Handlers.{mark_verified}
use open_sso.OAuth.Authorize.{insert_code}
use open_sso.OAuth.Code.{consume_code}
use open_sso.OAuth.Issue.{insert_refresh_token}
use open_sso.OAuth.Refresh.{consume_refresh, revoke_family, revoke_token_row}

pub insert_event-Guarded : (v : AuditEvent) (a : Db) → Guarded a (insert_event v a)
unfolding insert_event
insert_event-Guarded v a = add_event-Guarded v a

-- An update of sessions that revokes some, or none.
update_sessions :
    (q : Session → Bool) (g : Session → Session)
    → ((s : Session) → (g s).token_hash ≡ s.token_hash)
    → ((s : Session) → not (is_some s.revoked_at) || is_some (g s).revoked_at ≡ true)
    → (a : Db) → Guarded a (record a { sessions = update_where q g a.sessions })
unfolding is_revoked
update_sessions q g same mono a =
    sessions-Guarded a (update_where q g a.sessions) (λ x.
      flagged-update (λ s. s.token_hash) (λ s. is_some s.revoked_at) q g same mono x a.sessions)

revokes : (t : ℕ) (s : Session) → not (is_some s.revoked_at) || true ≡ true
revokes t s = ground arith

leaves : (b : Bool) → not b || b ≡ true
leaves b = ground arith

pub touch-Guarded : (now id : ℕ) (a : Db) → Guarded a (touch now id a)
unfolding touch
touch-Guarded now id a =
    update_sessions _ (λ s. record s { last_seen_at = now }) (λ s. refl)
      (λ s. leaves (is_some s.revoked_at)) a

pub end_session-Guarded : (now : ℕ) (hash : Text) (a : Db) → Guarded a (end_session now hash a)
unfolding end_session
end_session-Guarded now hash a =
    update_sessions _ (λ s. record s { revoked_at = some now }) (λ s. refl) (revokes now) a

pub end_user_sessions-Guarded : (now id : ℕ) (a : Db) → Guarded a (end_user_sessions now id a)
unfolding end_user_sessions
end_user_sessions-Guarded now id a =
    update_sessions _ (λ s. record s { revoked_at = some now }) (λ s. refl) (revokes now) a

pub end_session_by_id-Guarded : (now id : ℕ) (a : Db) → Guarded a (end_session_by_id now id a)
unfolding end_session_by_id
end_session_by_id-Guarded now id a =
    update_sessions _ (λ s. record s { revoked_at = some now }) (λ s. refl) (revokes now) a

pub end_live_sessions-Guarded : (now : ℕ) (a : Db) → Guarded a (end_live_sessions now a)
unfolding end_live_sessions
end_live_sessions-Guarded now a =
    update_sessions _ (λ s. record s { revoked_at = some now }) (λ s. refl) (revokes now) a

pub end_own_session-Guarded :
    (now id user_id : ℕ) (a : Db) → Guarded a (end_own_session now id user_id a)
unfolding end_own_session
end_own_session-Guarded now id user_id a =
    update_sessions _ (λ s. record s { revoked_at = some now }) (λ s. refl) (revokes now) a

pub mark_verified-Guarded : (now : ℕ) (p : Principal) (a : Db) → Guarded a (mark_verified now p a)
unfolding mark_verified
mark_verified-Guarded now p a =
    update_sessions _ (λ s. record s { mfa_verified_at = some now; last_seen_at = now }) (λ s. refl)
      (λ s. leaves (is_some s.revoked_at)) a

-- An id has been given out.
id_given : (a : Db) → Guarded a (record a { next_id = suc a.next_id })
id_given a = Guarded-elsewhere a _ refl refl refl refl refl refl

pub insert_session-Stores : (s : ℕ → Session) (a : Db) → Stores a (insert_session s a)
unfolding insert_session is_revoked
insert_session-Stores s a =
    elim (Bool-cases (exists (λ d. text_eq d.token_hash (s a.next_id).token_hash) a.sessions)) [
      | inl h ↦ rw h tt
      | inr h ↦ rw h (
          Guarded-trans a (record a { next_id = suc a.next_id }) _ (id_given a)
            (sessions-Guarded (record a { next_id = suc a.next_id }) (s a.next_id ∷ a.sessions)
              (λ x.
                flagged-insert (λ d. d.token_hash) (λ d. is_some d.revoked_at) (s a.next_id) x
                  a.sessions h)))
    ]

pub insert_code-Stores : (c : ℕ → AuthorizationCode) (a : Db) → Stores a (insert_code c a)
unfolding insert_code is_redeemed is_issued
insert_code-Stores c a =
    elim (Bool-cases
      (exists (λ d. text_eq d.code_hash (c a.next_id).code_hash) a.authorization_codes)) [
        | inl h ↦ rw h tt
        | inr h ↦ rw h (
            Guarded-trans a (record a { next_id = suc a.next_id }) _ (id_given a)
              (codes-Guarded (record a { next_id = suc a.next_id })
                (c a.next_id ∷ a.authorization_codes)
                (λ x.
                  keys_insert (λ d. d.code_hash) (λ d. is_some d.consumed_at) (c a.next_id) x
                    a.authorization_codes)
                (λ x.
                  flagged-insert (λ d. d.code_hash) (λ d. is_some d.consumed_at) (c a.next_id) x
                    a.authorization_codes h)))
      ]

pub insert_refresh_token-Stores :
    (t : ℕ → RefreshToken) (a : Db) → Stores a (insert_refresh_token t a)
unfolding insert_refresh_token is_spent
insert_refresh_token-Stores t a =
    elim (Bool-cases
      (exists (λ u. text_eq u.token_hash (t a.next_id).token_hash) a.refresh_tokens)) [
        | inl h ↦ rw h tt
        | inr h ↦ rw h (
            Guarded-trans a (record a { next_id = suc a.next_id }) _ (id_given a)
              (refresh-Guarded (record a { next_id = suc a.next_id })
                (t a.next_id ∷ a.refresh_tokens)
                (λ x.
                  flagged-insert (λ u. u.token_hash)
                    (λ u. is_some u.consumed_at || is_some u.revoked_at) (t a.next_id) x
                    a.refresh_tokens h)))
      ]

pub consume_code-Guarded : (now id : ℕ) (a : Db) → Guarded a (consume_code now id a)
unfolding consume_code is_redeemed is_issued
consume_code-Guarded now id a =
    codes-Guarded a _
      (λ x.
        rw
          (keeps_keys (λ c. c.code_hash) (λ c. is_some c.consumed_at) (λ c. c.id == id)
            (λ c. record c { consumed_at = some now }) (λ c. refl) x a.authorization_codes)
          (ground arith))
      (λ x.
        flagged-update (λ c. c.code_hash) (λ c. is_some c.consumed_at) (λ c. c.id == id)
          (λ c. record c { consumed_at = some now }) (λ c. refl) (λ c. ground arith) x
          a.authorization_codes)

-- An update of refresh tokens that uses or revokes some.
update_refresh :
    (q : RefreshToken → Bool) (g : RefreshToken → RefreshToken)
    → ((t : RefreshToken) → (g t).token_hash ≡ t.token_hash)
    → ((t : RefreshToken) → is_some (g t).consumed_at || is_some (g t).revoked_at ≡ true)
    → (a : Db) → Guarded a (record a { refresh_tokens = update_where q g a.refresh_tokens })
unfolding is_spent
update_refresh q g same spent a = refresh-Guarded a (update_where q g a.refresh_tokens) (λ x.
    flagged-update (λ t. t.token_hash) (λ t. is_some t.consumed_at || is_some t.revoked_at) q g same
      (λ t. ground (arith, spent t)) x a.refresh_tokens)

pub consume_refresh-Guarded : (now id : ℕ) (a : Db) → Guarded a (consume_refresh now id a)
unfolding consume_refresh
consume_refresh-Guarded now id a =
    update_refresh _ (λ t. record t { consumed_at = some now }) (λ t. refl) (λ t. refl) a

pub revoke_family-Guarded :
    (now : ℕ) (family : Text) (a : Db) → Guarded a (revoke_family now family a)
unfolding revoke_family
revoke_family-Guarded now family a =
    update_refresh _ (revoke_token_row now) (λ t. refl) (λ t. ground arith) a

-- A statement that is sent on a condition, or fails on one.
pub if-Stores :
    (b : Bool) (a : Db) (o p : Option Db) → Stores a o → Stores a p → Stores a (if b then o else p)
if-Stores true a o p h k = h
if-Stores false a o p h k = k

pub if-Guarded :
    (b : Bool) (a c d : Db) → Guarded a c → Guarded a d → Guarded a (if b then c else d)
if-Guarded true a c d h k = h
if-Guarded false a c d h k = k

pub ruleset writes = (
  initialized-Guarded, insert_event-Guarded, touch-Guarded, end_session-Guarded,
  end_user_sessions-Guarded, end_session_by_id-Guarded, end_live_sessions-Guarded,
  end_own_session-Guarded, mark_verified-Guarded, insert_session-Stores, insert_code-Stores,
  insert_refresh_token-Stores, consume_code-Guarded, consume_refresh-Guarded, revoke_family-Guarded,
  if-Stores, if-Guarded, Guarded-refl, Guarded-elsewhere, refl,
)
