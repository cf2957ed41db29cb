-- ===== src/OAuth/Endpoints/Laws.antt =====
-- What the endpoints promise.
use open_sso.Prelude.{
  ◌+◌, ◌*◌, ◌∷◌, [], ◌∙◌, sym, ap, text_eq, exists, Text, codes, ◌≡◌, ◌≢◌, ◌⊎◌, refl, true, false,
  Option, none, some, arith, inl, inr, coalesce, Bool-cases, Option-cases, Result, ok, err, List,
}
use open_sso.Store.{Db}
use open_sso.Web.{◌>>=◌, Env, World, Response, respond, run, tokens, TokenResponse, attempt, second}
use open_sso.Web.Rules.{Post-bind, Transacts, transaction-Ends, Attempted, attempt-Post}
use open_sso.Keys.{SigningKey}
use open_sso.Scope.{contains, contains_all, normalize_requested_scope, ScopeError}
use open_sso.OAuth.Client.{OauthClient, TokenForm}
use open_sso.OAuth.Deliver.{server_error, deliver}
use open_sso.OAuth.Issue.{issue_access_token, access_row, access_claims}
use open_sso.OAuth.Issue.Frame.{with_access, AddsAccess, issue_access_token-AddsAccess}
use open_sso.OAuth.Endpoints.{allowed_scope, own_scope, client_credentials_grant}

-- The scopes that a client gets for itself are among those allowed to it, without `openid`.
own_scope_allowed :
    (client : OauthClient) (raw scope : Text)
    → own_scope client raw ≡ some scope
    → (scopes : List Text) × (normalize_requested_scope raw ≡ ok (scope, scopes))
      × (contains_all client.allowed_scopes scopes ≡ true)
      × (contains scopes (codes "openid") ≡ false)
unfolding own_scope allowed_scope
own_scope_allowed client raw scope h = split (normalize_requested_scope raw) refl h
  where
    split :
        (r : Result ScopeError (Text × List Text))
        → normalize_requested_scope raw ≡ r
        → allowed_scope client r ≡ some scope
        → (scopes : List Text) × (normalize_requested_scope raw ≡ ok (scope, scopes))
          × (contains_all client.allowed_scopes scopes ≡ true)
          × (contains scopes (codes "openid") ≡ false)
    split (err x) at h' = ground arith
    split (ok (s, ss)) at h' = (ss, ground (arith, at, h'), ground (arith, h'), ground (arith, h'))

-- A stored access token for the client itself: no user, no refresh token.
module _ (client : OauthClient) (f : TokenForm) (e : Env) (w : World) where
  abbrev Own : Text → Response → Db → Type 0
  Own scope r db' =
      (t : TokenResponse) × (u : World) × (v : World) × AddsAccess client client.client_id none
        scope e u t v
      × (u.db ≡ w.db)
      × (r ≡ respond 200 (tokens t))
      × (db' ≡ v.db)

  abbrev Refusal : Response → Type 0
  Refusal r = r.status ≢ 200

  deliver-Own :
      (scope : Text) (v u : World) (issued : Option TokenResponse)
      → v.db ≡ w.db
      → v.saved ≡ some w.db
      → Attempted
          (AddsAccess client client.client_id none scope e v)
          (λ x. x.saved ≡ v.saved)
          issued
          u
      → Transacts (Own scope) Refusal w.db (deliver issued e u)
  unfolding deliver
  deliver-Own scope v u none same saved h = ground arith
  deliver-Own scope v u (some t) same saved h = elim (Bool-cases (e.fault u.calls)) [
    | inl x ↦ rw (x, ◌>>=◌) (ground (arith, h.2))
    | inr x ↦ rw (x, ◌>>=◌) ((t, v, u, h, same, refl, ground arith), refl)
  ]

  client_tokens :
      (scope : Text) (v : World)
      → v.db ≡ w.db
      → v.saved ≡ some w.db
      → Transacts
          (Own scope)
          Refusal
          w.db
          ((attempt (issue_access_token client client.client_id none scope) >>= deliver) e v)
  client_tokens scope v same saved =
      Post-bind
        (Attempted (AddsAccess client client.client_id none scope e v) (λ x. x.saved ≡ v.saved))
        (λ r x. Own scope r x.db × (x.saved ≡ none))
        (λ r x. Refusal r × (coalesce x.saved x.db ≡ w.db))
        (attempt (issue_access_token client client.client_id none scope)) deliver e v
        (attempt-Post (AddsAccess client client.client_id none scope e v) (λ x. x.saved ≡ v.saved)
          (λ r x. Refusal r × (coalesce x.saved x.db ≡ w.db))
          (issue_access_token client client.client_id none scope) e v
          (issue_access_token-AddsAccess client client.client_id none scope e v))
        (λ issued u h. deliver-Own scope v u issued same saved h)

  -- The two ways in which a client credentials grant ends.
  abbrev OwnGrant : Type 0
  OwnGrant =
      ((scope : Text) × (scopes : List Text) × (t : TokenResponse) × (u : World) × (v : World)
        × (client.is_public ≡ false)
        × (normalize_requested_scope f.scope ≡ ok (scope, scopes))
        × (contains_all client.allowed_scopes scopes ≡ true)
        × (contains scopes (codes "openid") ≡ false)
        × AddsAccess client client.client_id none scope e u t v
        × (u.db ≡ w.db)
        × ((run (client_credentials_grant client f) e w).0 ≡ respond 200 (tokens t))
        × ((run (client_credentials_grant client f) e w).1.db ≡ v.db))
      ⊎ (((run (client_credentials_grant client f) e w).1.db ≡ w.db)
          × ((run (client_credentials_grant client f) e w).0.status ≢ 200))

  client_credentials_grant-own : OwnGrant
  unfolding client_credentials_grant access_row access_claims
  client_credentials_grant-own = elim (Bool-cases client.is_public) [
    | inl n ↦ rw (n, ◌>>=◌) (inr (refl, λ x. omega (arith, x)))
    | inr private ↦ elim (Option-cases (own_scope client f.scope)) [
      | inl n ↦ rw (private, n, ◌>>=◌) (inr (refl, λ x. omega (arith, x)))
      | inr (scope, granted) ↦
          let (scopes, norm, within, no_openid) = own_scope_allowed client f.scope scope granted in
          rw (private, granted, ◌>>=◌)
            (elim (transaction-Ends (Own scope) Refusal (server_error "database error")
              (attempt (issue_access_token client client.client_id none scope) >>= deliver) e w
              (λ x. omega (arith, x)) (λ v same saved. client_tokens scope v same saved)) [
                | inr kept ↦ inr kept
                | inl (t, u, v, adds, same, answer, here) ↦ inl (
                  scope, scopes, t, u, v, refl, norm, within, no_openid, adds, same, answer, here,
                )
              ])
    ]
  ]

  -- The client is confidential; the token of the answer, signed, has a scope among those allowed to
  -- the client and without `openid`, and is stored for the client itself, without a user. There is
  -- no refresh token.
  pub record ForItself (r : Response) (db' : Db) : Type 0 where
    pub scope : Text
    pub scopes : List Text
    pub jti : Text
    pub key : SigningKey
    pub answered : TokenResponse
    pub confidential : client.is_public ≡ false
    pub asked : normalize_requested_scope f.scope ≡ ok (scope, scopes)
    pub allowed : contains_all client.allowed_scopes scopes ≡ true
    pub no_openid : contains scopes (codes "openid") ≡ false
    pub new_jti : exists (λ a. text_eq a.jti jti) w.db.access_tokens ≡ false
    pub written : db' ≡ record w.db {
      access_tokens =
          record {
            jti = jti;
            application_id = client.application_id;
            user_id = none;
            subject = client.client_id;
            scope = scope;
            expires_at = e.now + client.access_ttl * second;
            revoked_at = none;
          }
          ∷ w.db.access_tokens;
    }
    pub answer : r ≡ respond 200 (tokens answered)
    pub same_scope : answered.scope ≡ scope
    pub no_refresh : answered.refresh_token ≡ none
    pub signed :
        e.sign_access key.private_key key.kid (record {
          scope = scope;
          token_use = codes "access";
          issuer = e.public_url;
          subject = client.client_id;
          audience = client.client_id ∷ [];
          expires_at = e.now + client.access_ttl * second;
          issued_at = e.now;
          jti = jti;
        })
        ≡ some answered.access_token

  -- A client credentials grant either answers 200, for a confidential client, with a signed
  -- access token for the client itself and no refresh token, and stores the token without a user
  -- and with a scope among those allowed to the client and without openid, or leaves the database
  -- as it was and does not answer 200.
  pub client_credentials_grant_cases :
      ForItself
        (run (client_credentials_grant client f) e w).0
        (run (client_credentials_grant client f) e w).1.db
      ⊎ (((run (client_credentials_grant client f) e w).1.db ≡ w.db)
          × ((run (client_credentials_grant client f) e w).0.status ≢ 200))
  unfolding access_row access_claims
  client_credentials_grant_cases = elim client_credentials_grant-own [
    | inr kept ↦ inr kept
    | inl
          (
            scope,
            scopes,
            t,
            u,
            v,
            private,
            norm,
            within,
            no_openid,
            (jti, key, adds),
            same,
            answer,
            here,
          ) ↦
        inl (record {
          scope = scope;
          scopes = scopes;
          jti = jti;
          key = key;
          answered = t;
          confidential = private;
          asked = norm;
          allowed = within;
          no_openid = no_openid;
          new_jti = ap (λ d. exists (λ a. text_eq a.jti jti) d.access_tokens) (sym same) ∙ adds.0;
          written =
              here
              ∙ adds.1
              ∙ ap (with_access (access_row e client client.client_id none scope jti)) same;
          answer = answer;
          same_scope = adds.3;
          no_refresh = adds.5;
          signed = adds.6;
        })
  ]
