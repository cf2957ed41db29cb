-- ===== src/OAuth/Issue/Frame.antt =====
-- What issuing tokens writes: one access token, and one refresh token for a user.
use open_sso.Prelude.{
  ℕ, suc, ◌+◌, Text, is_empty, ◌≡◌, ◌∷◌, exists, text_eq, text_eq_refl, ◌||◌, if◌then◌else◌, true,
  false, Option, none, some, [], coalesce, arith, ◌∙◌,
}
use open_sso.Store.{Db, AccessToken, RefreshToken}
use open_sso.Web.{◌>>=◌, Env, World, TokenResponse, sha256_string}
use open_sso.Web.Rules.{Post, Post-bind, Post-both, Post-mono, SameDb, bind-SameDb}
use open_sso.Keys.{SigningKey, active}
use open_sso.Keys.Frame.{active-SameDb}
use open_sso.OAuth.Client.{OauthClient}
use open_sso.OAuth.Issue.{
  access_claims, access_row, refresh_row, access_token_by, id_token_by, maybe_id_token,
  sign_id_token, store_refresh, issue_access_token, issue_user_tokens, insert_access_token,
  insert_refresh_token,
}

-- The database and what a rollback restores are as they were.
abbrev Same : {A : Type 0} → World → A → World → Type 0
Same w _ w' = (w'.db ≡ w.db) × (w'.saved ≡ w.saved)

-- A failed call has not touched what a rollback restores.
abbrev Saved : {A : Type 0} → World → A → World → Type 0
Saved w _ w' = w'.saved ≡ w.saved

abbrev pub with_access : AccessToken → Db → Db
with_access t db = record db { access_tokens = t ∷ db.access_tokens }

abbrev pub with_refresh : RefreshToken → Db → Db
with_refresh t db = record db { refresh_tokens = t ∷ db.refresh_tokens; next_id = suc db.next_id }

module _ (client : OauthClient) (subject : Text) (user_id : Option ℕ) (scope : Text) (e : Env) where
  -- One signed access token, stored under the unused identifier `jti`.
  abbrev pub Access : Text → SigningKey → World → TokenResponse → World → Type 0
  Access jti key w r w' =
      (exists (λ u. text_eq u.jti jti) w.db.access_tokens ≡ false)
      × (w'.db ≡ with_access (access_row e client subject user_id scope jti) w.db)
      × (w'.saved ≡ w.saved)
      × (r.scope ≡ scope)
      × (r.expires_in ≡ client.access_ttl)
      × (r.refresh_token ≡ none)
      × (e.sign_access key.private_key key.kid (access_claims e client subject scope jti)
          ≡ some r.access_token)

  abbrev pub AddsAccess : World → TokenResponse → World → Type 0
  AddsAccess w r w' = (jti : Text) × (key : SigningKey) × Access jti key w r w'

  access_token_by-Access :
      (key : SigningKey) (w : World)
      → Post
          (Access (coalesce (e.entropy w.draws) []) key w)
          (Saved w)
          (access_token_by client subject user_id scope key e w)
  unfolding access_token_by insert_access_token access_row
  access_token_by-Access key w = ground arith

  pub issue_access_token-AddsAccess :
      (w : World)
      → Post (AddsAccess w) (Saved w) (issue_access_token client subject user_id scope e w)
  unfolding issue_access_token
  issue_access_token-AddsAccess w =
      Post-bind (Same w) (AddsAccess w) (Saved w) active
        (access_token_by client subject user_id scope) e w
        (Post-both (SameDb w) (Same w) (Saved w) (active e w) (active-SameDb e w)
          (λ _ _ h. (h.0, h.1)) (λ _ _ h. h.1))
        λ key v same.
          Post-mono (Access (coalesce (e.entropy v.draws) []) key v) (AddsAccess w) (Saved v)
            (Saved w) (access_token_by client subject user_id scope key e v)
            (access_token_by-Access key v)
            (λ r u h. (coalesce (e.entropy v.draws) [], key, ground arith)) (λ _ u h. h ∙ same.1)

id_token_by-SameDb :
    (client : OauthClient) (user_id : ℕ) (scope nonce : Text) (key : SigningKey) (e : Env)
    (w : World)
    → SameDb w (id_token_by client user_id scope nonce key e w).1
unfolding id_token_by
id_token_by-SameDb client user_id scope nonce key e w = ground arith

sign_id_token-SameDb :
    (client : OauthClient) (user_id : ℕ) (scope nonce : Text) (e : Env) (w : World)
    → SameDb w (sign_id_token client user_id scope nonce e w).1
unfolding sign_id_token
sign_id_token-SameDb client user_id scope nonce e w =
    bind-SameDb active (id_token_by client user_id scope nonce) e w (active-SameDb e w)
      (λ key v. id_token_by-SameDb client user_id scope nonce key e v)

maybe_id_token-SameDb :
    (client : OauthClient) (user_id : ℕ) (scope nonce : Text) (e : Env) (w : World)
    → SameDb w (maybe_id_token client user_id scope nonce e w).1
unfolding maybe_id_token
maybe_id_token-SameDb client user_id scope nonce e w =
    ground (arith, sign_id_token-SameDb client user_id scope nonce e w)

module _ (client : OauthClient) (user_id : ℕ) (scope family_id : Text) (parent_id : Option ℕ)
    (e : Env) where
  -- One refresh token, stored under an unused hash, in the family that was asked for.
  abbrev Refreshed :
      Text → Text → World → TokenResponse → Option Text → TokenResponse → World → Type 0
  Refreshed family refresh w r id_token r' w' =
      (exists (λ u. text_eq u.token_hash (sha256_string e refresh)) w.db.refresh_tokens ≡ false)
      × (w'.db
          ≡ with_refresh (refresh_row e client user_id scope family parent_id refresh w.db.next_id)
              w.db)
      × (w'.saved ≡ w.saved)
      × (r' ≡ record r { id_token = id_token; refresh_token = some refresh })
      × (is_empty family_id || text_eq family family_id ≡ true)

  family_of : World → Text
  family_of w = if is_empty family_id then coalesce (e.entropy (w.draws + 1)) [] else family_id

  store_refresh-Refreshed :
      (r : TokenResponse) (id_token : Option Text) (w : World)
      → Post
          (Refreshed (family_of w) (coalesce (e.entropy w.draws) []) w r id_token)
          (Saved w)
          (store_refresh client user_id scope family_id parent_id r id_token e w)
  unfolding store_refresh insert_refresh_token refresh_row family_of
  store_refresh-Refreshed r id_token w = ground (arith, text_eq_refl family_id)

module _ (client : OauthClient) (user_id : ℕ) (scope nonce family_id : Text) (parent_id : Option ℕ)
    (e : Env) where
  -- What a successful call has stored and answers: an access token under the unused identifier
  -- `jti`, signed by `key`, and a refresh token `refresh` of the family `family`.
  abbrev pub Tokens : Text → SigningKey → Text → Text → World → TokenResponse → World → Type 0
  Tokens jti key family refresh w r w' =
      (exists (λ u. text_eq u.jti jti) w.db.access_tokens ≡ false)
      × (exists (λ u. text_eq u.token_hash (sha256_string e refresh)) w.db.refresh_tokens ≡ false)
      × (w'.db
          ≡ with_refresh (refresh_row e client user_id scope family parent_id refresh w.db.next_id)
              (with_access (access_row e client (e.uuid_text user_id) (some user_id) scope jti)
                w.db))
      × (w'.saved ≡ w.saved)
      × (r.scope ≡ scope)
      × (r.expires_in ≡ client.access_ttl)
      × (r.refresh_token ≡ some refresh)
      × (e.sign_access key.private_key key.kid
            (access_claims e client (e.uuid_text user_id) scope jti)
          ≡ some r.access_token)
      × (is_empty family_id || text_eq family family_id ≡ true)

  abbrev pub Issued : World → TokenResponse → World → Type 0
  Issued w r w' =
      (jti : Text) × (key : SigningKey) × (family : Text) × (refresh : Text) × Tokens jti key family
        refresh w r w'

  after_access :
      (w v : World) (r : TokenResponse)
      → AddsAccess client (e.uuid_text user_id) (some user_id) scope e w r v
      → Post (Issued w) (Saved w) (
          (maybe_id_token client user_id scope nonce
              >>= store_refresh client user_id scope family_id parent_id r)
            e v)
  after_access w v r (jti, key, access) =
      Post-bind (Same v) (Issued w) (Saved w) (maybe_id_token client user_id scope nonce)
        (store_refresh client user_id scope family_id parent_id r) e v
        (Post-both (SameDb v) (Same v) (Saved w) (maybe_id_token client user_id scope nonce e v)
          (maybe_id_token-SameDb client user_id scope nonce e v) (λ _ _ h. (h.0, h.1))
          (λ _ _ h. h.1 ∙ access.2))
        λ id_token u same.
          Post-mono
            (Refreshed client user_id scope family_id parent_id e
              (family_of client user_id scope family_id parent_id e u)
              (coalesce (e.entropy u.draws) []) u r id_token)
            (Issued w) (Saved u) (Saved w)
            (store_refresh client user_id scope family_id parent_id r id_token e u)
            (store_refresh-Refreshed client user_id scope family_id parent_id e r id_token u)
            (λ r' x h. (
              jti,
              key,
              family_of client user_id scope family_id parent_id e u,
              coalesce (e.entropy u.draws) [],
              ground arith,
            ))
            (λ _ x h. h ∙ same.1 ∙ access.2)

  -- Issuing tokens to a user either stores one access token under an unused identifier and one
  -- refresh token under an unused hash, in the family asked for, and returns them signed, or does
  -- not touch what a rollback restores.
  pub issue_user_tokens-Issued :
      (w : World)
      → Post
          (Issued w)
          (Saved w)
          (issue_user_tokens client user_id scope nonce family_id parent_id e w)
  unfolding issue_user_tokens
  issue_user_tokens-Issued w =
      Post-bind (AddsAccess client (e.uuid_text user_id) (some user_id) scope e w) (Issued w)
        (Saved w) (issue_access_token client (e.uuid_text user_id) (some user_id) scope)
        (λ r.
          maybe_id_token client user_id scope nonce
          >>= store_refresh client user_id scope family_id parent_id r)
        e w (issue_access_token-AddsAccess client (e.uuid_text user_id) (some user_id) scope e w)
        (λ r v h. after_access w v r h)
