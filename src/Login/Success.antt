-- ===== src/Login/Success.antt =====
-- What the right password gives: `login`.
use mathlib.Core.Path.{subst}
use open_sso.Prelude.{
  ℕ, ◌+◌, suc, Text, text_eq, text_eq_refl, trim_space, codes, ◌++◌, exists, find, ◌⊎◌, inl, inr,
  ◌<◌, leb, ◌*◌, ◌==◌, Bool, true, false, List, ◌∷◌, some, none, if◌then◌else◌, ◌≡◌, refl, ap, ◌∙◌,
  arith,
}
use open_sso.Store.{SecurityPolicy, Session}
use open_sso.Web.{
  Env, World, Response, Outcome, value, MfaStatus, sha256_string, or_stop, problem, ◌>>◌, pure,
  minute, respond, logged_in, ◌>>=◌, next,
}
use open_sso.Web.Rules.{goes_on}
use open_sso.Web.Limits.{allow_login, allow, incr, expire, admit, hits_of, incremented}
use open_sso.Audit.{insert_event}
use open_sso.Users.{change_user}
use open_sso.Mfa.Policy.{status, required, requires_mfa, factors}
use open_sso.Policy.{get_security_policy}
use open_sso.Password.{verify_password}
use open_sso.Login.{
  Account, find_account, admits, open_session, insert_session, session_row, welcome, try_login,
  login,
}

module _ (e : Env) (quiet : (n : ℕ) → e.fault n ≡ false) (token csrf : Text) (a : Account) where
  -- The session that a login stores: live for the time that the policy says, without a second
  -- factor.
  abbrev pub session : SecurityPolicy → ℕ → Session
  session p id = record {
    id = id;
    user_id = a.user.id;
    token_hash = sha256_string e token;
    last_seen_at = e.db_now;
    expires_at = e.now + p.session_ttl_minutes * minute;
    revoked_at = none;
    mfa_verified_at = none;
  }

  -- The answer is 200 with the two tokens, and the session is found by the hash of the first.
  abbrev pub Opened : SecurityPolicy → Outcome Response Response × World → Type 0
  Opened p r =
      (value (r.0)
        ≡ respond 200 (
            logged_in (record {
              user_id = a.user.id;
              username = a.user.username;
              session_token = token;
              csrf_token = csrf;
              expires_at = e.now + p.session_ttl_minutes * minute;
              mfa_required = false;
              mfa_enrollment_required = false;
            })))
      × (id : ℕ) × (find (λ s. text_eq s.token_hash (sha256_string e token)) r.1.db.sessions
          ≡ some (session p id))

  stored :
      (p : SecurityPolicy) (id : ℕ) (ss : List Session)
      → find (λ s. text_eq s.token_hash (sha256_string e token)) (session p id ∷ ss)
        ≡ some (session p id)
  unfolding find
  stored p id ss = rw (text_eq_refl (sha256_string e token)) refl

  open_session-Opened :
      (p : SecurityPolicy) (mfa : MfaStatus) (v : World)
      → mfa.required ≡ false
      → e.entropy v.draws ≡ some token
      → e.entropy (v.draws + 1) ≡ some csrf
      → exists (λ d. text_eq d.token_hash (sha256_string e token)) v.db.sessions ≡ false
      → Opened p (open_session p a.user mfa e v)
  unfolding open_session insert_session session_row change_user insert_event
  open_session-Opened p mfa v none_needed h h' new = (
    ground (arith, quiet v.calls, h, h', new, none_needed),
    v.db.next_id,
    ground (arith, quiet v.calls, h, h', new, none_needed, stored p v.db.next_id v.db.sessions),
  )

  status_lem :
      (v : World)
      → (status {R = Response} a.user.id none e v) ≡ (
        next (
            some (record (factors a.user.id v.db) { required = requires_mfa a.user.id none v.db })),
        record v { calls = v.calls + 1 + 1 },
      )
  unfolding status required
  status_lem v = rw (quiet v.calls, quiet (v.calls + 1)) refl

  welcome-Opened :
      (p : SecurityPolicy) (v : World)
      → requires_mfa a.user.id none v.db ≡ false
      → e.entropy v.draws ≡ some token
      → e.entropy (v.draws + 1) ≡ some csrf
      → exists (λ d. text_eq d.token_hash (sha256_string e token)) v.db.sessions ≡ false
      → Opened p (welcome p a e v)
  unfolding welcome
  welcome-Opened p v no_mfa h h' new =
      goes_on (Opened p) (status a.user.id none)
        (λ st. or_stop st (problem 500 "MFA policy lookup failed") >>= open_session p a.user) e v
        (status_lem v)
        (open_session-Opened p
          (record (factors a.user.id v.db) { required = requires_mfa a.user.id none v.db })
          (record v { calls = v.calls + 1 + 1 }) no_mfa h h' new)

  try_login-Opened :
      (username password : Text) (v : World)
      → find_account e (trim_space username) v.db ≡ some a
      → admits e a password ≡ true
      → requires_mfa a.user.id none v.db ≡ false
      → e.entropy v.draws ≡ some token
      → e.entropy (v.draws + 1) ≡ some csrf
      → exists (λ d. text_eq d.token_hash (sha256_string e token)) v.db.sessions ≡ false
      → Opened v.db.policy (try_login username password true e v)
  unfolding try_login get_security_policy
  try_login-Opened username password v hit fits no_mfa h h' new =
      rw (quiet v.calls, quiet (v.calls + 1), hit, fits, ◌>>=◌)
        (welcome-Opened v.db.policy (record v { calls = v.calls + 1 + 1 }) no_mfa h h' new)

  -- The request is counted, and passes.
  Passed : World → Outcome Response Bool × World → Type 0
  Passed w r = (v : World) × (r ≡ (next true, v)) × (v.db ≡ w.db) × (v.draws ≡ w.draws)

  expire-Passed :
      (first : Bool) (key : Text) (ttl : ℕ) (w : World)
      → Passed w (((if first then expire key ttl else pure tt) >> pure true) e w)
  unfolding Passed expire
  expire-Passed true key ttl w = ((expire {R = Response} key ttl e w).1, refl, refl, refl)
  expire-Passed false key ttl w = (w, refl, refl, refl)

  admit-Passed :
      (key : Text) (ttl n : ℕ) (w : World)
      → leb n 30 ≡ true
      → Passed w (admit key 30 ttl (some n) e w)
  unfolding admit
  admit-Passed key ttl n w few = rw few (expire-Passed (n == 1) key ttl w)

  allow_login-Passed :
      (ip : Text) (w : World)
      → leb (suc (hits_of (codes "opensso:login:" ++ ip) w.counters)) 30 ≡ true
      → Passed w (allow_login ip e w)
  unfolding allow_login allow incr Passed
  allow_login-Passed ip w few =
      rw (quiet w.calls, ◌>>=◌)
        (admit-Passed (codes "opensso:login:" ++ ip) (5 * minute)
          (suc (hits_of (codes "opensso:login:" ++ ip) w.counters))
          (record w {
            counters = incremented (codes "opensso:login:" ++ ip) w.counters;
            calls = w.calls + 1;
          })
          few)

  admitted :
      (password : Text)
      → a.user.active ≡ true
      → (a.user.locked_until ≡ none) ⊎ ((t : ℕ) × (a.user.locked_until ≡ some t) × (t < e.now))
      → verify_password e a.password_hash password ≡ true
      → admits e a password ≡ true
  unfolding admits
  admitted password active (inl n) known = ground (arith, active, n, known)
  admitted password active (inr (t, n, ended)) known = ground (arith, active, n, ended, known)

  -- If no call fails, the address was counted less than 30 times, the account is found, active
  -- and without a lock that lasts, the password verifies, no policy asks for a second factor, the
  -- random source gives two texts, and no session has the hash of the first, then a login answers
  -- 200 with both texts and stores a session of the account under that hash, not revoked, which
  -- lasts as long as the policy says.
  pub login-Opened :
      (ip username password : Text) (w : World)
      → leb (suc (hits_of (codes "opensso:login:" ++ ip) w.counters)) 30 ≡ true
      → find_account e (trim_space username) w.db ≡ some a
      → a.user.active ≡ true
      → (a.user.locked_until ≡ none) ⊎ ((t : ℕ) × (a.user.locked_until ≡ some t) × (t < e.now))
      → verify_password e a.password_hash password ≡ true
      → requires_mfa a.user.id none w.db ≡ false
      → e.entropy w.draws ≡ some token
      → e.entropy (w.draws + 1) ≡ some csrf
      → exists (λ d. text_eq d.token_hash (sha256_string e token)) w.db.sessions ≡ false
      → Opened w.db.policy (login ip username password e w)
  unfolding login Passed
  login-Opened ip username password w few hit active unlocked known no_mfa h h' new =
      let (v, ran, db, draws) = allow_login-Passed ip w few in
      goes_on (Opened w.db.policy) (allow_login ip) (try_login username password) e w ran (
        subst (λ p. Opened p (try_login username password true e v)) (ap (λ d. d.policy) db)
          (try_login-Opened username password v (ap (find_account e (trim_space username)) db ∙ hit)
            (admitted password active unlocked known) (ap (requires_mfa a.user.id none) db ∙ no_mfa)
            (ap e.entropy draws ∙ h) (ap (λ n. e.entropy (n + 1)) draws ∙ h')
            (ap (λ d. exists (λ s. text_eq s.token_hash (sha256_string e token)) d.sessions) db
              ∙ new)))
