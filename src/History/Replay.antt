-- ===== src/History/Replay.antt =====
-- What was used or revoked once is refused after any sequence of requests.
use open_sso.Prelude.{
  ℕ, Text, find, ◌==◌, ◌&&◌, ◌||◌, not, is_some, is_empty, ltb, true, false, none, some, ◌≡◌, refl,
  arith, Option-cases, Bool-cases, inl, inr,
}
use open_sso.Store.{Db, AuthorizationCode, RefreshToken}
use open_sso.Store.Tables.{find_holds}
use open_sso.Web.{
  Env, World, Handler, Response, run, value, ◌>>=◌, sha256_string, found, transaction, begin,
  problem,
}
use open_sso.OAuth.Client.{OauthClient, TokenForm}
use open_sso.OAuth.Code.{
  authorization_code_grant, redeem_code, find_code, code_accepted, well_formed,
}
use open_sso.OAuth.Refresh.{refresh_token_grant, redeem_refresh, find_refresh, reuse_detected}
use open_sso.Session.{Principal, live, find_principal, session_principal, with_principal_raw}
use open_sso.Directory.{bootstrap, store_bootstrap}
use open_sso.Users.{check_policy}
use open_sso.Policy.{get_security_policy}
use open_sso.Password.{hash_password}
use open_sso.OAuth.Deliver.{server_error}
use open_sso.History.Flags.{flagged-find}
use open_sso.History.Guarded.{is_redeemed, is_spent, is_revoked}
use open_sso.History.Requests.{
  Reach, is_redeemed-Reach, is_spent-Reach, is_revoked-Reach, initialized-Reach,
}

abbrev pub Refused : Response → Type 0
Refused r = r.status == 200 ≡ false

-- No user was created.
abbrev pub Declined : Response → Type 0
Declined r = r.status == 201 ≡ false

-- A transaction refuses where the part in it does.
transaction-Refused :
    (failure : Response) (m : Handler) (e : Env) (w : World)
    → Refused failure
    → ((v : World) → v.db ≡ w.db → Refused (value (m e v).0))
    → Refused (run (transaction failure m) e w).0
transaction-Refused failure m e w f h = elim (Bool-cases (e.fault w.calls)) [
  | inl x ↦ rw (x, ◌>>=◌) f
  | inr x ↦ rw (x, ◌>>=◌) (h (begin {R = Response} e w).1 refl)
]

redeemed_row :
    (hash : Text) (id : ℕ) (db : Db) (c : AuthorizationCode)
    → is_redeemed hash db ≡ true
    → find_code hash id db ≡ some c
    → is_some c.consumed_at ≡ true
unfolding is_redeemed find_code
redeemed_row hash id db c h found =
    flagged-find (λ d. d.code_hash) (λ d. is_some d.consumed_at) (λ d. d.application_id == id) hash
      db.authorization_codes c h found

redeem_code-Refused :
    (client : OauthClient) (f : TokenForm) (e : Env) (v : World)
    → is_redeemed (sha256_string e f.code) v.db ≡ true
    → Refused (value (redeem_code client f e v).0)
unfolding redeem_code code_accepted
redeem_code-Refused client f e v h = elim (Bool-cases (e.fault v.calls)) [
  | inl x ↦ rw (x, ◌>>=◌) refl
  | inr x ↦ elim (Option-cases (find_code (sha256_string e f.code) client.application_id v.db)) [
    | inl n ↦ rw (x, n, ◌>>=◌) refl
    | inr (c, hit) ↦
        rw
          (
            x,
            hit,
            ◌>>=◌,
            redeemed_row (sha256_string e f.code) client.application_id v.db c h hit,
            ◌&&◌,
          )
          refl
  ]
]

spent_row :
    (hash : Text) (id : ℕ) (db : Db) (t : RefreshToken)
    → is_spent hash db ≡ true
    → find_refresh hash id db ≡ some t
    → is_some t.consumed_at || is_some t.revoked_at ≡ true
unfolding is_spent find_refresh
spent_row hash id db t h found =
    flagged-find (λ d. d.token_hash) (λ d. is_some d.consumed_at || is_some d.revoked_at)
      (λ d. d.application_id == id) hash db.refresh_tokens t h found

redeem_refresh-Refused :
    (client : OauthClient) (f : TokenForm) (e : Env) (v : World)
    → is_spent (sha256_string e f.refresh_token) v.db ≡ true
    → Refused (value (redeem_refresh client f e v).0)
unfolding redeem_refresh reuse_detected
redeem_refresh-Refused client f e v h = elim (Bool-cases (e.fault v.calls)) [
  | inl x ↦ rw (x, ◌>>=◌) refl
  | inr x ↦
      elim (Option-cases
        (find_refresh (sha256_string e f.refresh_token) client.application_id v.db)) [
          | inl n ↦ rw (x, n, ◌>>=◌) refl
          | inr (t, hit) ↦
              rw
                (
                  x,
                  hit,
                  ◌>>=◌,
                  spent_row (sha256_string e f.refresh_token) client.application_id v.db t h hit,
                )
                refl
        ]
]

revoked_none :
    (hash : Text) (now : ℕ) (db : Db)
    → is_revoked hash db ≡ true
    → find_principal hash now db ≡ none
unfolding is_revoked find_principal
revoked_none hash now db h = elim (Option-cases (find (live hash now) db.sessions)) [
  | inl n ↦ rw (find_principal, n) refl
  | inr (s, hit) ↦ ground (
    arith,
    flagged-find (λ d. d.token_hash) (λ d. is_some d.revoked_at)
        (λ d. not (is_some d.revoked_at) && ltb now d.expires_at) hash db.sessions s h,
    find_holds (live hash now) db.sessions s hit,
  )
]

-- Once an authorization code is redeemed, no sequence of requests and of calls of the SAML
-- provider, whatever their environments, leads to a state in which the grant for this code
-- answers 200; no transaction is open at the start.
pub redeemed_code-Refused :
    (client : OauthClient) (f : TokenForm) (e : Env) (w v : World)
    → w.saved ≡ none
    → is_redeemed (sha256_string e f.code) w.db ≡ true
    → Reach w v
    → Refused (run (authorization_code_grant client f) e v).0
unfolding authorization_code_grant
redeemed_code-Refused client f e w v closed h r = elim (Bool-cases (well_formed f)) [
  | inr n ↦ rw (n, ◌>>=◌) refl
  | inl y ↦
      rw (y, ◌>>=◌)
        (transaction-Refused (server_error "database error") (redeem_code client f) e v refl
          (λ u same.
            redeem_code-Refused client f e u
              (rw same (is_redeemed-Reach (sha256_string e f.code) w v closed r h))))
]

-- Once a refresh token is used or revoked, no sequence of requests and of calls of the SAML
-- provider leads to a state in which the grant for this token answers 200; no transaction is open
-- at the start.
pub spent_token-Refused :
    (client : OauthClient) (f : TokenForm) (e : Env) (w v : World)
    → w.saved ≡ none
    → is_spent (sha256_string e f.refresh_token) w.db ≡ true
    → Reach w v
    → Refused (run (refresh_token_grant client f) e v).0
unfolding refresh_token_grant
spent_token-Refused client f e w v closed h r = elim (Bool-cases (not (is_empty f.refresh_token))) [
  | inr n ↦ rw (n, ◌>>=◌) refl
  | inl y ↦
      rw (y, ◌>>=◌)
        (transaction-Refused (server_error "database error") (redeem_refresh client f) e v refl
          (λ u same.
            redeem_refresh-Refused client f e u
              (rw same (is_spent-Reach (sha256_string e f.refresh_token) w v closed r h))))
]

-- Once a session is revoked, after any sequence of requests a handler behind a session answers
-- 401 to its cookie; no transaction is open at the start.
pub revoked_session-Refused :
    (token : Text) (next : Principal → Handler) (e : Env) (w v : World)
    → w.saved ≡ none
    → is_revoked (sha256_string e token) w.db ≡ true
    → Reach w v
    → (run (with_principal_raw (some token) next) e v).0 ≡ problem 401 "authentication required"
unfolding with_principal_raw session_principal
revoked_session-Refused token next e w v closed h r = elim (Bool-cases (e.fault v.calls)) [
  | inl x ↦ rw (x, ◌>>=◌) refl
  | inr x ↦
      rw
        (
          x,
          revoked_none (sha256_string e token) e.db_now v.db
              (is_revoked-Reach (sha256_string e token) w v closed r h),
          ◌>>=◌,
        )
        refl
]

-- Once the installation is initialized, no sequence of requests and of calls of the SAML provider
-- leads to a state in which a bootstrap answers 201, whatever its token and body; no transaction
-- is open at the start.
pub bootstrap-Refused :
    (token header username email display_name password : Text) (e : Env) (w v : World)
    → w.saved ≡ none
    → w.db.initialized ≡ true
    → Reach w v
    → Declined (run (bootstrap token header username email display_name password) e v).0
unfolding bootstrap store_bootstrap check_policy get_security_policy hash_password
bootstrap-Refused token header username email display_name password e w v closed h r =
    ground (arith, initialized-Reach w v closed r h)
