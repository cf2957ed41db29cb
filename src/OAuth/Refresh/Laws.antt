-- ===== src/OAuth/Refresh/Laws.antt =====
-- What clients can rely on when a refresh token is presented.
use open_sso.Prelude.{
  ℕ, ◌+◌, Text, ◌≡◌, ◌≢◌, ◌∙◌, inl, inr, refl, sym, ap, true, false, Option, none, some, arith, ltb,
  find, exists, is_some, text_eq, text_eq_iff, ◌==◌, ◌&&◌, ◌||◌, not, is_empty, All, text_eq_refl,
}
use open_sso.Store.{Db, RefreshToken}
use open_sso.Store.Tables.{
  find-update_where, find_holds, find-exists, updated_row, update_where-All,
}
use open_sso.Web.{◌>>=◌, Env, World, Response, run, sha256_string, tokens, TokenResponse}
use open_sso.OAuth.Client.{OauthClient, TokenForm}
use open_sso.OAuth.Deliver.{invalid_grant}
use open_sso.OAuth.Issue.{refresh_row, access_row}
use open_sso.OAuth.Issue.Frame.{with_refresh, with_access}
use open_sso.OAuth.Refresh.{
  find_refresh, consume_refresh, revoke_token_row, revoke_family, refresh_token_grant,
  reuse_detected,
}
use open_sso.OAuth.Refresh.Rotation.{spent, refresh_token_grant_cases}
use open_sso.Audit.{insert_event}

abbrev consumed : ℕ → RefreshToken → RefreshToken
consumed now t = record t { consumed_at = some now }

find_refresh-consume_refresh :
    (hash : Text) (app now : ℕ) (db : Db) (t : RefreshToken)
    → find_refresh hash app db ≡ some t
    → find_refresh hash app (consume_refresh now t.id db)
      ≡ some (record t { consumed_at = some now })
unfolding find_refresh consume_refresh
find_refresh-consume_refresh hash app now db t h =
    find-update_where (λ x. text_eq x.token_hash hash && x.application_id == app)
      (λ x. x.id == t.id) (consumed now) (λ x. refl) db.refresh_tokens
    ∙ ap
        (updated_row (λ x. text_eq x.token_hash hash && x.application_id == app) (λ x. x.id == t.id)
          (consumed now))
        h
    ∙ ground arith

find_refresh_of :
    (hash : Text) (app : ℕ) (d d' : Db)
    → d.refresh_tokens ≡ d'.refresh_tokens
    → find_refresh hash app d ≡ find_refresh hash app d'
unfolding find_refresh
find_refresh_of hash app d d' =
    ap (find (λ x. text_eq x.token_hash hash && x.application_id == app))

not_spent :
    {o : Option RefreshToken} (t t' : RefreshToken) (now : ℕ)
    → o ≡ some (record t { consumed_at = some now })
    → o ≡ some t'
    → spent t' ≢ false
not_spent t t' now h h' n = ground (arith, h, h', n)

-- A new token is found by its hash, and hides no other.
find_refresh-with_refresh :
    (hash : Text) (app : ℕ) (s : RefreshToken) (db : Db)
    → text_eq s.token_hash hash ≡ true
    → s.application_id ≡ app
    → find_refresh hash app (with_refresh s db) ≡ some s
unfolding find_refresh find
find_refresh-with_refresh hash app s db h h' = ground arith

find_refresh-other :
    (hash : Text) (app : ℕ) (s t : RefreshToken) (db : Db)
    → find_refresh hash app db ≡ some t
    → exists (λ u. text_eq u.token_hash s.token_hash) db.refresh_tokens ≡ false
    → find_refresh hash app (with_refresh s db) ≡ some t
unfolding find_refresh find
find_refresh-other hash app s t db h n =
    let here =
      find_holds (λ x. text_eq x.token_hash hash && x.application_id == app) db.refresh_tokens t
        h in
    let other =
      find-exists (λ x. text_eq x.token_hash hash && x.application_id == app)
        (λ u. text_eq u.token_hash s.token_hash) db.refresh_tokens t h n in
    ground (
      arith,
      here,
      other,
      h,
      text_eq_iff s.token_hash hash,
      text_eq_iff t.token_hash hash,
      text_eq_iff t.token_hash s.token_hash,
    )

module _ (client : OauthClient) (f : TokenForm) (e : Env) (w : World) where
  abbrev after : World
  after = (run (refresh_token_grant client f) e w).1

  abbrev answer : Response
  answer = (run (refresh_token_grant client f) e w).0

  -- The token was unused, not revoked and not expired; afterwards it is stored as used, and its
  -- successor, which is answered, as unused.
  abbrev pub Succeeded : Type 0
  Succeeded =
      (t : RefreshToken) × (a : TokenResponse) × (new : Text) × (s : RefreshToken) × (find_refresh
          (sha256_string e f.refresh_token) client.application_id w.db
        ≡ some t)
      × (t.consumed_at ≡ none)
      × (t.revoked_at ≡ none)
      × (ltb t.expires_at e.now ≡ false)
      × (find_refresh (sha256_string e f.refresh_token) client.application_id
            (run (refresh_token_grant client f) e w).1.db
          ≡ some (record t { consumed_at = some e.db_now }))
      × ((run (refresh_token_grant client f) e w).0.body ≡ tokens a)
      × (a.refresh_token ≡ some new)
      × (find_refresh (sha256_string e new) client.application_id
            (run (refresh_token_grant client f) e w).1.db
          ≡ some s)
      × (s.user_id ≡ t.user_id)
      × (s.scope ≡ t.scope)
      × (s.parent_id ≡ some t.id)
      × (is_empty t.family_id || text_eq s.family_id t.family_id ≡ true)
      × (s.consumed_at ≡ none)
      × (s.revoked_at ≡ none)

  -- A refresh that answers 200 found the token, neither used nor revoked nor expired; afterwards
  -- the token is stored as used, and the token of the answer is stored unused, for the same user
  -- and scope, as its successor, in its family if that has a name.
  pub refresh_token_grant_sound :
      (run (refresh_token_grant client f) e w).0.status ≡ 200 → Succeeded
  unfolding refresh_row find_refresh
  refresh_token_grant_sound answered = elim (refresh_token_grant_cases client f e w) [
    | inr (_, failed) ↦ absurd (failed answered)
    | inl (inr (t, n, at, used, ans, same)) ↦
        absurd (omega (arith, answered, ap (λ r. r.status) ans))
    | inl (inl (t, a, u, v, at, fresh, live, used, (jti, key, family, new, issued), same, ans)) ↦
        let s : RefreshToken =
          refresh_row e client t.user_id t.scope family (some t.id) new u.db.next_id in
        let middle : Db =
          with_access (access_row e client (e.uuid_text t.user_id) (some t.user_id) t.scope jti)
            u.db in
        let same_db : after.db ≡ with_refresh s middle = same ∙ issued.2 in
        (
          t,
          a,
          new,
          s,
          at,
          (ground arith),
          (ground arith),
          live,
          look same_db (sha256_string e f.refresh_token)
              ∙ find_refresh-other (sha256_string e f.refresh_token) client.application_id s
                  (consumed e.db_now t) middle
                  (look used (sha256_string e f.refresh_token)
                    ∙ find_refresh-consume_refresh (sha256_string e f.refresh_token)
                        client.application_id e.db_now w.db t at)
                  issued.1,
          ap (λ r. r.body) ans,
          issued.6,
          look same_db (sha256_string e new)
              ∙ find_refresh-with_refresh (sha256_string e new) client.application_id s middle
                  (text_eq_refl _) refl,
          refl,
          refl,
          refl,
          issued.8,
          refl,
          refl,
        )
  ]
    where
      look :
          {d d' : Db}
          → d ≡ d'
          → (hash : Text)
          → find_refresh hash client.application_id d ≡ find_refresh hash client.application_id d'
      look same hash = ap (find_refresh hash client.application_id) same

  -- The answer is `invalid_grant`, and every token of the family of `t` is revoked.
  abbrev pub FamilyRevoked : RefreshToken → Type 0
  FamilyRevoked t =
      ((run (refresh_token_grant client f) e w).0 ≡ invalid_grant "refresh token reuse detected")
      × All (λ s. not (text_eq s.family_id t.family_id) || is_some s.revoked_at ≡ true)
          (run (refresh_token_grant client f) e w).1.db.refresh_tokens

  -- If no call fails, presenting a refresh token that was used or revoked answers invalid_grant,
  -- and then every token of its family is revoked.
  pub refresh_reuse_revokes_family :
      (t : RefreshToken)
      → find_refresh (sha256_string e f.refresh_token) client.application_id w.db ≡ some t
      → is_some t.consumed_at || is_some t.revoked_at ≡ true
      → is_empty f.refresh_token ≡ false
      → ((n : ℕ) → e.fault n ≡ false)
      → FamilyRevoked t
  unfolding refresh_token_grant reuse_detected revoke_family insert_event
  refresh_reuse_revokes_family t at used given sound =
      rw
        (
          given,
          sound w.calls,
          ◌>>=◌,
          sound (w.calls + 1),
          at,
          ◌>>=◌,
          used,
          ◌>>=◌,
          sound (w.calls + 1 + 1),
          sound (w.calls + 1 + 1 + 1),
          sound (w.calls + 1 + 1 + 1 + 1),
        )
        (
          refl,
          update_where-All (λ s. text_eq s.family_id t.family_id) (revoke_token_row e.db_now)
              (λ s. not (text_eq s.family_id t.family_id) || is_some s.revoked_at ≡ true)
              (λ s hit. ground arith) (λ s miss. ground (arith, miss)) w.db.refresh_tokens,
        )

  -- A refresh token whose grant answered 200 is refused afterwards: no later grant of the same
  -- client for a token with that hash answers 200, as long as nothing else writes the table.
  refresh_token_single_use :
      (run (refresh_token_grant client f) e w).0.status ≡ 200
      → (g : TokenForm) (e' : Env) (v : World)
      → sha256_string e' g.refresh_token ≡ sha256_string e f.refresh_token
      → v.db.refresh_tokens ≡ (run (refresh_token_grant client f) e w).1.db.refresh_tokens
      → (run (refresh_token_grant client g) e' v).0.status ≢ 200
  unfolding find_refresh
  refresh_token_single_use answered g e' v same_hash same_table again =
      elim (refresh_token_grant_cases client g e' v) [
        | inr (_, failed) ↦ failed again
        | inl (inr (t, n, at, used, ans, same)) ↦ omega (arith, again, ap (λ r. r.status) ans)
        | inl (inl (t, a, u, v', at, fresh, live, used, issued, same, ans)) ↦
            let (s, b, new, s', at', h0, h1, h2, spent', h3, h4, h5, h6, h7, h8, h9, h10, h11) =
              refresh_token_grant_sound answered in
            let at2 =
              find_refresh_of (sha256_string e f.refresh_token) client.application_id v.db after.db
                same_table in
            not_spent s t e.db_now spent'
              (sym at2 ∙ ap (λ h. find_refresh h client.application_id v.db) (sym same_hash) ∙ at)
              fresh
      ]
