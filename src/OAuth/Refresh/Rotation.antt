-- ===== src/OAuth/Refresh/Rotation.antt =====
-- The ways in which a refresh token is answered: rotated, detected as reused, or refused.
use mathlib.Core.Path.{subst}
use open_sso.Prelude.{
  ℕ, ◌+◌, [], ◌≡◌, ◌≢◌, ◌⊎◌, inl, inr, refl, Bool, true, false, none, some, arith, Bool-cases,
  Option-cases, coalesce, ◌∙◌, ap, sym, is_some, ◌||◌, ltb, if◌then◌else◌, is_empty,
}
use open_sso.Store.{Db, RefreshToken, Target}
use open_sso.Audit.{insert_event, event_row}
use open_sso.Web.{
  exec, Outcome, Env, World, Response, respond, tokens, TokenResponse, ◌>>=◌, run, sha256_string,
}
use open_sso.Web.Rules.{Post-mono, Transacts, Ends, transaction-Ends}
use open_sso.OAuth.Client.{OauthClient, TokenForm}
use open_sso.OAuth.Issue.Frame.{Issued}
use open_sso.OAuth.Deliver.{server_error, invalid_grant, issue_and_deliver}
use open_sso.OAuth.Deliver.Outcomes.{Delivered, Refused, issue_and_deliver-Post}
use open_sso.OAuth.Refresh.{
  find_refresh, consume_refresh, revoke_family, reuse_detected, rotate_refresh, redeem_refresh,
  refresh_token_grant,
}

-- The token was used or revoked before.
abbrev pub spent : RefreshToken → Bool
spent t = is_some t.consumed_at || is_some t.revoked_at

-- What a reuse writes: the statement, the commit and the audit event may each fail.
abbrev after_reuse : OauthClient → Env → ℕ → RefreshToken → Db → Db
after_reuse client e n t db =
    let revoked =
      if e.fault n || e.fault (n + 1) then db else revoke_family e.db_now t.family_id db in
    if e.fault (n + 2)
    then revoked
    else insert_event
        (event_row (some t.user_id) "REFRESH_TOKEN_REUSE" (Target.application client.application_id)
          false)
        revoked

module _ (client : OauthClient) (f : TokenForm) (e : Env) where
  -- The token was there, unused and not expired; it is consumed, and its successors are answered.
  abbrev Rotated : Db → Response → Db → Type 0
  Rotated db r db' =
      (t : RefreshToken) × (a : TokenResponse) × (u : World) × (v : World) × (find_refresh
          (sha256_string e f.refresh_token) client.application_id db
        ≡ some t)
      × (spent t ≡ false)
      × (ltb t.expires_at e.now ≡ false)
      × (u.db ≡ consume_refresh e.db_now t.id db)
      × Issued client t.user_id t.scope [] t.family_id (some t.id) e u a v
      × (db' ≡ v.db)
      × (r ≡ respond 200 (tokens a))

  -- The token was used before; its family is revoked, unless a call fails.
  abbrev Reused : Db → Response → Db → Type 0
  Reused db r db' =
      (t : RefreshToken) × (n : ℕ) × (find_refresh (sha256_string e f.refresh_token)
          client.application_id db
        ≡ some t)
      × (spent t ≡ true)
      × (r ≡ invalid_grant "refresh token reuse detected")
      × (db' ≡ after_reuse client e n t db)

  abbrev pub Served : Db → Response → Db → Type 0
  Served db r db' = Rotated db r db' ⊎ Reused db r db'

  abbrev Failed : Response → Type 0
  Failed r = r.status ≢ 200

  abbrev Redeems : Db → Outcome Response Response × World → Type 0
  Redeems db = Transacts (Served db) Failed db

  reuse_writes :
      (db : Db) (w : World) (t : RefreshToken)
      → w.db ≡ db
      → w.saved ≡ some db
      → (reuse_detected client t e w).1.db ≡ after_reuse client e w.calls t db
  unfolding reuse_detected
  reuse_writes db w t here saved = ground arith

  reuse_detected-Post :
      (db : Db) (w : World) (t : RefreshToken)
      → w.db ≡ db
      → w.saved ≡ some db
      → find_refresh (sha256_string e f.refresh_token) client.application_id db ≡ some t
      → spent t ≡ true
      → Redeems db (reuse_detected client t e w)
  unfolding reuse_detected
  reuse_detected-Post db w t here saved at used =
      (inr (t, w.calls, at, used, refl, reuse_writes db w t here saved), refl)

  rotate_tail :
      (db : Db) (u : World) (t : RefreshToken)
      → find_refresh (sha256_string e f.refresh_token) client.application_id db ≡ some t
      → spent t ≡ false
      → ltb t.expires_at e.now ≡ false
      → u.db ≡ consume_refresh e.db_now t.id db
      → u.saved ≡ some db
      → Redeems db (issue_and_deliver client t.user_id t.scope [] t.family_id (some t.id) e u)
  rotate_tail db u t at fresh live consumed saved =
      Post-mono (Delivered client t.user_id t.scope [] t.family_id (some t.id) e u)
        (λ r v. Served db r v.db × (v.saved ≡ none)) (Refused db)
        (λ r v. Failed r × (coalesce v.saved v.db ≡ db))
        (issue_and_deliver client t.user_id t.scope [] t.family_id (some t.id) e u)
        (issue_and_deliver-Post client t.user_id t.scope [] t.family_id (some t.id) e db u saved)
        (λ r x (a, v, issued, answer, same, closed).
          (inl (t, a, u, v, at, fresh, live, consumed, issued, same, answer), closed))
        (λ r x h. ((λ ok. omega (arith, h.0, ok)), h.1))

  rotate_refresh-Post :
      (db : Db) (w : World) (t : RefreshToken)
      → w.db ≡ db
      → w.saved ≡ some db
      → find_refresh (sha256_string e f.refresh_token) client.application_id db ≡ some t
      → spent t ≡ false
      → Redeems db (rotate_refresh client t e w)
  unfolding rotate_refresh
  rotate_refresh-Post db w t here saved at fresh = elim (Bool-cases (ltb t.expires_at e.now)) [
    | inl n ↦ rw (n, ◌>>=◌) (ground arith)
    | inr live ↦
        rw (live, ◌>>=◌)
          (elim (Bool-cases (e.fault w.calls)) [
            | inl y ↦ rw (y, ◌>>=◌) (ground arith)
            | inr y ↦
                rw (y, ◌>>=◌)
                  (rotate_tail db (exec {R = Response} (consume_refresh e.db_now t.id) e w).1 t at
                    fresh live (ground arith) saved)
          ])
  ]

  redeem_refresh-Post :
      (w : World) → w.saved ≡ some w.db → Redeems w.db (redeem_refresh client f e w)
  unfolding redeem_refresh
  redeem_refresh-Post w saved = elim (Bool-cases (e.fault w.calls)) [
    | inl x ↦ rw (x, ◌>>=◌) (ground arith)
    | inr x ↦
        rw (x, ◌>>=◌)
          (elim (Option-cases
            (find_refresh (sha256_string e f.refresh_token) client.application_id w.db)) [
              | inl n ↦ rw (n, ◌>>=◌) (ground arith)
              | inr (t, hit) ↦
                  rw (hit, ◌>>=◌)
                    (elim (Bool-cases (spent t)) [
                      | inl used ↦
                          rw (used, ◌>>=◌)
                            (rw hit at (reuse_detected-Post w.db after t refl saved hit used))
                      | inr fresh ↦
                          rw (fresh, ◌>>=◌)
                            (rw hit at (rotate_refresh-Post w.db after t refl saved hit fresh))
                    ])
            ])
  ]
    where
      after : World
      after = record w { calls = w.calls + 1 }

  -- A refresh either rotates an unspent token and answers its successors, or meets a spent token
  -- and answers invalid_grant after its writes, each of which may fail, or leaves the database as
  -- it was and does not answer 200.
  pub refresh_token_grant_cases :
      (w : World) → Ends (Served w.db) Failed w.db (run (refresh_token_grant client f) e w)
  unfolding refresh_token_grant
  refresh_token_grant_cases w = elim (Bool-cases (is_empty f.refresh_token)) [
    | inl n ↦ rw (n, ◌>>=◌) (inr (refl, λ x. omega (arith, x)))
    | inr good ↦
        rw (good, ◌>>=◌)
          (transaction-Ends (Served w.db) Failed (server_error "database error")
            (redeem_refresh client f) e w (λ x. omega (arith, x))
            (λ v same saved.
              subst (λ db. Redeems db (redeem_refresh client f e v)) same
                (redeem_refresh-Post v (saved ∙ ap some (sym same)))))
  ]
