-- ===== src/OAuth/Revocation/Agreement.antt =====
-- Revocation and introspection agree with each other and with the grant.
use open_sso.Prelude.{
  Option, is_empty, ◌⊎◌, inl, inr, Bool-cases, ℕ, ◌+◌, Text, ◌≡◌, ◌∙◌, refl, ap, true, false, some,
  arith, text_eq, ◌==◌, ◌&&◌, not,
}
use open_sso.Store.{Db, RefreshToken}
use open_sso.Store.Tables.{find-update_where, updated_row}
use open_sso.Web.{
  ◌>>=◌, Env, World, respond, run, sha256_string, introspection, Introspection, next, Outcome,
  value, attempt, or_stop, check, Handler, Response, ◌>>◌, oauth_json_error,
}
use open_sso.Web.Rules.{goes_on}
use open_sso.OAuth.Client.{OauthClient, TokenForm, authenticate_oauth_client, load_oauth_client}
use open_sso.OAuth.Refresh.{find_refresh, revoke_family, revoke_token_row, refresh_token_grant}
use open_sso.OAuth.Refresh.Laws.{refresh_token_grant_sound}
use open_sso.OAuth.Revocation.{
  revoke_presented, introspect_presented, introspect_token, refresh_status,
}

find_refresh-revoke_family :
    (hash : Text) (app now : ℕ) (family : Text) (db : Db) (s : RefreshToken)
    → find_refresh hash app db ≡ some s
    → text_eq s.family_id family ≡ true
    → find_refresh hash app (revoke_family now family db) ≡ some (revoke_token_row now s)
unfolding find_refresh revoke_family
find_refresh-revoke_family hash app now family db s h same =
    find-update_where (λ x. text_eq x.token_hash hash && x.application_id == app)
      (λ x. text_eq x.family_id family) (revoke_token_row now) (λ x. refl) db.refresh_tokens
    ∙ ap
        (updated_row (λ x. text_eq x.token_hash hash && x.application_id == app)
          (λ x. text_eq x.family_id family) (revoke_token_row now))
        h
    ∙ ground arith

module _ (client : OauthClient) (raw raw' : Text) (t s : RefreshToken) (e : Env) (w : World) where
  -- After the revocation of the first token, introspection of the second says that it is inactive.
  abbrev pub Inactive : Type 0
  Inactive =
      (i : Introspection) × ((run (introspect_presented client raw') e
          (run (revoke_presented client raw) e w).1).0
        ≡ respond 200 (introspection i))
      × (i.active ≡ false)

  -- If no call fails, then after the revocation of a refresh token, introspection of that token,
  -- or of another one of its family, answers 200 and that the token is not active.
  pub revoke_presented-introspect_presented :
      ((n : ℕ) → e.fault n ≡ false)
      → find_refresh (sha256_string e raw) client.application_id w.db ≡ some t
      → find_refresh (sha256_string e raw') client.application_id w.db ≡ some s
      → text_eq s.family_id t.family_id ≡ true
      → Inactive
  unfolding revoke_presented introspect_presented refresh_status
  revoke_presented-introspect_presented sound at at' same =
      rw
        (
          sound w.calls,
          at,
          ◌>>=◌,
          sound (w.calls + 1),
          sound (w.calls + 1 + 1),
          find_refresh-revoke_family (sha256_string e raw') client.application_id e.db_now
              t.family_id w.db s at' same,
          ◌>>=◌,
        )
        (refresh_status e client (revoke_token_row e.db_now s), refl, ground arith)

abbrev no_secret : Response
no_secret = oauth_json_error 401 "invalid_client" "confidential client authentication required"

-- A lookup that authenticates has sent one statement.
authenticated :
    (g : TokenForm) (e : Env) (w : World) (client : OauthClient)
    → (authenticate_oauth_client g e w).0 ≡ next client
    → attempt {R = Response} (authenticate_oauth_client g) e w
      ≡ (next (some client), record w { calls = w.calls + 1 })
unfolding authenticate_oauth_client load_oauth_client
authenticated g e w client h = ground (arith, h)

introspects :
    (client : OauthClient) (raw : Text) (e : Env) (v : World) (t : RefreshToken)
    → e.fault v.calls ≡ false
    → find_refresh (sha256_string e raw) client.application_id v.db ≡ some t
    → value (introspect_presented client raw e v).0
      ≡ respond 200 (introspection (refresh_status e client t))
unfolding introspect_presented
introspects client raw e v t sound at = rw (sound, at, ◌>>=◌) refl

-- What introspection does with the client, if there is one.
abbrev tell : TokenForm → Option OauthClient → Handler
tell g o = do
  client ← or_stop o no_secret
  check (not client.is_public) no_secret
  check (not (is_empty g.token)) (oauth_json_error 400 "invalid_request" "token is required")
  introspect_presented client g.token

module _ (client : OauthClient) (f g : TokenForm) (e : Env) (w : World) where
  -- The token is known; a client with a secret is told that it is active, but at the moment when it
  -- expires, and a public one is refused.
  abbrev pub Told : Type 0
  Told =
      ((client.is_public ≡ true)
        × ((run (introspect_token g) e w).0
            ≡ oauth_json_error 401 "invalid_client" "confidential client authentication required"))
      ⊎ ((client.is_public ≡ false)
          × (t : RefreshToken) × (i : Introspection) × (find_refresh
                (sha256_string e f.refresh_token) client.application_id w.db
              ≡ some t)
          × ((run (introspect_token g) e w).0 ≡ respond 200 (introspection i))
          × (i.active ≡ not (e.now == t.expires_at))
          × (i.client_id ≡ client.client_id)
          × (i.scope ≡ t.scope)
          × (i.sub ≡ e.uuid_text t.user_id))

  runs :
      (P : Outcome Response Response × World → Type 0)
      → g.parses ≡ true
      → (authenticate_oauth_client g e w).0 ≡ next client
      → P (tell g (some client) e (record w { calls = w.calls + 1 }))
      → P (introspect_token g e w)
  unfolding introspect_token
  runs P parses known k =
      goes_on P (check g.parses (oauth_json_error 400 "invalid_request" "invalid form body"))
        (λ _. attempt (authenticate_oauth_client g) >>= tell g) e w
        (ap (λ b. check b (oauth_json_error 400 "invalid_request" "invalid form body") e w) parses)
        (goes_on P (attempt (authenticate_oauth_client g)) (tell g) e w
          (authenticated g e w client known) k)

  -- If no call fails, and a form authenticates a client and presents a refresh token that the
  -- client redeems with answer 200, then introspection answers 401 to a public client, and tells
  -- any other that the token is active, unless it expires at that very moment, with its scope and
  -- user.
  pub introspect_token-grant :
      ((n : ℕ) → e.fault n ≡ false)
      → (run (refresh_token_grant client f) e w).0.status ≡ 200
      → g.parses ≡ true
      → (authenticate_oauth_client g e w).0 ≡ next client
      → g.token ≡ f.refresh_token
      → is_empty g.token ≡ false
      → Told
  unfolding refresh_status
  introspect_token-grant sound answered parses known same given =
      let h = refresh_token_grant_sound client f e w answered in
      elim (Bool-cases client.is_public) [
        | inl y ↦ inl (y, runs (λ r. value (r.0) ≡ no_secret) parses known (rw (y, ◌>>=◌) refl))
        | inr n ↦ inr (
          n,
          h.0,
          refresh_status e client h.0,
          h.4,
          runs (λ r. value (r.0) ≡ respond 200 (introspection (refresh_status e client h.0))) parses
              known
              (rw (n, given, ◌>>=◌)
                (introspects client g.token e (record w { calls = w.calls + 1 }) h.0
                  (sound (w.calls + 1)) (rw same h.4))),
          ground (arith, h.5, h.6, h.7),
          refl,
          refl,
          refl,
        )
      ]
