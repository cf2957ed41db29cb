-- ===== src/Users/Reset.antt =====
-- What a reset of a password leaves behind.
use mathlib.Core.Path.{subst}
use open_sso.Prelude.{
  ℕ, Text, List, ◌∷◌, exists, update_where, count, false, ◌⊎◌, inl, inr, refl, ap, ◌==◌, ◌&&◌, ◌||◌,
  not, is_some, true, none, some, All, ◌≡◌, ◌≢◌, sym, arith, coalesce,
}
use open_sso.Store.{Db, Target, PasswordCredential}
use open_sso.Store.Tables.{update_where-All, count_zero}
use open_sso.Audit.{insert_event, event_row}
use open_sso.Web.{Env, World, Response, run, transaction, problem, respond, empty}
use open_sso.Web.Rules.{Ends, Post, Post-mono, transaction-Ends}
use open_sso.Session.{Principal}
use open_sso.Users.{unlocked, set_password, change_user, end_user_sessions, store_reset}

-- No session of the user is left unrevoked.
abbrev NoSession : ℕ → Db → Type 0
NoSession id db = All (λ s. not (s.user_id == id) || is_some s.revoked_at ≡ true) db.sessions

end_user_sessions-NoSession : (now id : ℕ) (db : Db) → NoSession id (end_user_sessions now id db)
unfolding end_user_sessions
end_user_sessions-NoSession now id db =
    update_where-All (λ s. s.user_id == id && not (is_some s.revoked_at))
      (λ s. record s { revoked_at = some now })
      (λ s. not (s.user_id == id) || is_some s.revoked_at ≡ true) (λ s hit. ground arith)
      (λ s miss. ground (arith, miss)) db.sessions

module _ (actor : Principal) (id : ℕ) (hash : Text) (e : Env) where
  -- What a reset stores.
  abbrev reset_db : Db → Db
  reset_db db =
      insert_event (event_row (some actor.user_id) "PASSWORD_RESET" (Target.user id) true) (
        end_user_sessions e.db_now id (
          change_user id (λ u. record (unlocked u) { must_change_password = true })
            (set_password id hash db)))

  -- The user had a password, which is the new one now; the user has to change it and is not locked,
  -- no session is left, and the event is logged. Nothing else changed.
  pub record WasReset (db : Db) (r : Response) (db' : Db) : Type 0 where
    pub answer : r ≡ respond 204 empty
    pub known : exists (λ c. c.user_id == id) db.passwords ≡ true
    pub stored : All (λ c. (c.user_id ≢ id) ⊎ (c.password_hash ≡ hash)) db'.passwords
    pub passwords :
        db'.passwords
        ≡ update_where (λ c. c.user_id == id) (λ c. record c { password_hash = hash }) db.passwords
    pub users :
        db'.users
        ≡ update_where
            (λ u. u.id == id)
            (λ u. record u { failed_logins = 0; locked_until = none; must_change_password = true })
            db.users
    pub sessions :
        db'.sessions
        ≡ update_where
            (λ s. s.user_id == id && not (is_some s.revoked_at))
            (λ s. record s { revoked_at = some e.db_now })
            db.sessions
    pub ended : NoSession id db'
    pub logged :
        db'.audit_events
        ≡ record {
          actor = some actor.user_id;
          event = "PASSWORD_RESET";
          target = Target.user id;
          success = true;
        }
          ∷ db.audit_events
    pub rest : db' ≡ record db {
      passwords = db'.passwords;
      users = db'.users;
      sessions = db'.sessions;
      audit_events = db'.audit_events;
    }

  new_password :
      (cs : List PasswordCredential)
      → All
          (λ c. (c.user_id ≢ id) ⊎ (c.password_hash ≡ hash))
          (update_where (λ c. c.user_id == id) (λ c. record c { password_hash = hash }) cs)
  new_password =
      update_where-All (λ c. c.user_id == id) (λ c. record c { password_hash = hash })
        (λ c. (c.user_id ≢ id) ⊎ (c.password_hash ≡ hash)) (λ c hit. inr refl)
        (λ c miss. inl (λ same. ground (arith, miss, same)))

  store_reset-Post :
      (db : Db) (w : World)
      → w.db ≡ db
      → w.saved ≡ some db
      → Post
          (λ r v.
            (r ≡ respond 204 empty)
            × (count (λ c. c.user_id == id) db.passwords == 0 ≡ false)
            × (v.db ≡ reset_db db)
            × (v.saved ≡ none))
          (λ r v. (r.status ≢ 204) × (coalesce v.saved v.db ≡ db))
          (store_reset actor id hash e w)
  unfolding store_reset
  store_reset-Post db w here saved = ground arith

  reset_db-NoSession : (db : Db) → NoSession id (reset_db db)
  unfolding insert_event
  reset_db-NoSession db = end_user_sessions-NoSession e.db_now id _

  was_reset :
      (db : Db) (r : Response) (db' : Db)
      → r ≡ respond 204 empty
      → count (λ c. c.user_id == id) db.passwords == 0 ≡ false
      → db' ≡ reset_db db
      → WasReset db r db'
  unfolding insert_event set_password change_user end_user_sessions
  was_reset db r db' answered some_row wrote = record {
    answer = answered;
    known = ground (arith, some_row, count_zero (λ c. c.user_id == id) db.passwords);
    stored = rw wrote (new_password db.passwords);
    passwords = ap (λ d. d.passwords) wrote;
    users = ap (λ d. d.users) wrote;
    sessions = ap (λ d. d.sessions) wrote;
    ended = subst (NoSession id) (sym wrote) (reset_db-NoSession db);
    logged = ap (λ d. d.audit_events) wrote;
    rest =
        subst
          (λ d. d ≡ record db {
            passwords = d.passwords;
            users = d.users;
            sessions = d.sessions;
            audit_events = d.audit_events;
          })
          (sym wrote) refl;
  }

  -- A reset of a password either finds the password of the user, replaces it by the new hash, has
  -- the user change it, unlocks the user, revokes every session of the user, writes an audit
  -- event and nothing else, or leaves the database as it was and does not answer 204.
  pub store_reset_cases :
      (w : World)
      → Ends
          (WasReset w.db)
          (λ r. r.status ≢ 204)
          w.db
          (run (transaction (problem 500 "database error") (store_reset actor id hash)) e w)
  store_reset_cases w =
      transaction-Ends (WasReset w.db) (λ r. r.status ≢ 204) (problem 500 "database error")
        (store_reset actor id hash) e w (λ x. omega (arith, x))
        (λ v same saved.
          Post-mono _ (λ r x. WasReset w.db r x.db × (x.saved ≡ none))
            (λ r x. (r.status ≢ 204) × (coalesce x.saved x.db ≡ w.db))
            (λ r x. (r.status ≢ 204) × (coalesce x.saved x.db ≡ w.db))
            (store_reset actor id hash e v) (store_reset-Post w.db v same saved)
            (λ r x (answer, some_row, stored, closed).
              (was_reset w.db r x.db answer some_row stored, closed))
            (λ r x h. h))
