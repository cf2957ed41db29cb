-- ===== src/OAuth/Issue.antt =====
-- `issueAccessToken`, `signIDToken`, `userGroups` and `issueUserTokens`.
pub mod Frame
use open_sso.Prelude.{
  ℕ, ◌+◌, ◌*◌, suc, Text, text_eq, codes, is_empty, find, select, exists, map, ◌==◌, ◌&&◌, not,
  is_some, Bool, true, false, List, [], ◌∷◌, ◌++◌, Option, none, some, if◌then◌else◌,
}
use open_sso.Store.{Db, AccessToken, RefreshToken, User, Group, Membership}
use open_sso.Web.{
  Env, World, M, ◌>>=◌, ◌>>◌, pure, stop, or_stop, check, ask, draw, found, query, query_row,
  try_exec, sha256_string, TokenResponse, AccessClaims, IdClaims, second,
}
use open_sso.Scope.{contains, scopes_of}
use open_sso.Keys.{SigningKey, active}
use open_sso.OAuth.Client.{OauthClient}

-- `INSERT INTO oauth_access_tokens`: the `jti` is the primary key.
unfoldable pub insert_access_token : AccessToken → Db → Option Db
insert_access_token t db =
    if exists (λ u. text_eq u.jti t.jti) db.access_tokens
    then none
    else some (record db { access_tokens = t ∷ db.access_tokens })

-- `INSERT INTO refresh_tokens`: the hash is unique, and the database makes the id.
unfoldable pub insert_refresh_token : (ℕ → RefreshToken) → Db → Option Db
insert_refresh_token t db =
    if exists (λ u. text_eq u.token_hash (t db.next_id).token_hash) db.refresh_tokens
    then none
    else some
        (record db { refresh_tokens = t db.next_id ∷ db.refresh_tokens; next_id = suc db.next_id })

unfoldable pub access_claims : Env → OauthClient → Text → Text → Text → AccessClaims
access_claims e client subject scope jti = record {
  scope = scope;
  token_use = codes "access";
  issuer = e.public_url;
  subject = subject;
  audience = client.client_id ∷ [];
  expires_at = e.now + client.access_ttl * second;
  issued_at = e.now;
  jti = jti;
}

unfoldable pub access_row : Env → OauthClient → Text → Option ℕ → Text → Text → AccessToken
access_row e client subject user_id scope jti = record {
  jti = jti;
  application_id = client.application_id;
  user_id = user_id;
  subject = subject;
  scope = scope;
  expires_at = e.now + client.access_ttl * second;
  revoked_at = none;
}

-- The rest of `issueAccessToken`, with the key.
unfoldable pub access_token_by :
    OauthClient → Text → Option ℕ → Text → SigningKey → M (Unit {0}) TokenResponse
access_token_by client subject user_id scope key = do
  jti ← or_stop (← draw) tt
  claims ← ask (λ e. access_claims e client subject scope jti)
  signed ← or_stop (← ask (λ e. e.sign_access key.private_key key.kid claims)) tt
  token ← ask (λ e. access_row e client subject user_id scope jti)
  stored ← try_exec (insert_access_token token)
  check stored tt
  pure (record {
    access_token = signed;
    expires_in = client.access_ttl;
    scope = scope;
    id_token = none;
    refresh_token = none;
  })

unfoldable pub issue_access_token :
    OauthClient → Text → Option ℕ → Text → M (Unit {0}) TokenResponse
unfolding access_token_by
issue_access_token client subject user_id scope =
    active >>= access_token_by client subject user_id scope

-- `… FROM group_memberships gm JOIN groups g ON g.id=gm.group_id WHERE gm.user_id=$1`. The order of
-- the names is that of the table.
unfoldable pub groups_of : ℕ → Db → List Text
groups_of user_id db =
    map (λ g. g.name)
      (select (λ g. exists (λ m. m.user_id == user_id && m.group_id == g.id) db.memberships)
        db.groups)

unfoldable pub user_groups : {R : Type 0} → ℕ → M R (List Text)
user_groups user_id = do
  groups ← query (groups_of user_id)
  pure (elim groups [ none ↦ [] | some names ↦ names ])

abbrev pub find_user : ℕ → Db → Option User
find_user user_id db = find (λ u. u.id == user_id) db.users

unfoldable pub id_claims : Env → OauthClient → User → Text → Text → Option (List Text) → IdClaims
id_claims e client user scope nonce groups = record {
  nonce = nonce;
  names =
      if contains (scopes_of scope) (codes "profile")
      then some (user.display_name, user.username)
      else none;
  email = if contains (scopes_of scope) (codes "email") then some user.email else none;
  groups = groups;
  issuer = e.public_url;
  subject = e.uuid_text user.id;
  audience = client.client_id ∷ [];
  expires_at = e.now + client.id_ttl * second;
  issued_at = e.now;
}

-- The rest of `signIDToken`, with the key.
unfoldable pub id_token_by : OauthClient → ℕ → Text → Text → SigningKey → M (Unit {0}) Text
unfolding user_groups
id_token_by client user_id scope nonce key = do
  user ← or_stop (found (← query_row (find_user user_id))) tt
  check user.active tt
  groups ←
      (if contains (scopes_of scope) (codes "groups")
        then user_groups user_id >>= (λ g. pure (some g))
        else pure none)
  claims ← ask (λ e. id_claims e client user scope nonce groups)
  or_stop (← ask (λ e. e.sign_id key.private_key key.kid claims)) tt

unfoldable pub sign_id_token : OauthClient → ℕ → Text → Text → M (Unit {0}) Text
unfolding id_token_by
sign_id_token client user_id scope nonce = active >>= id_token_by client user_id scope nonce

unfoldable pub refresh_row :
    Env → OauthClient → ℕ → Text → Text → Option ℕ → Text → ℕ → RefreshToken
refresh_row e client user_id scope family parent_id refresh id = record {
  id = id;
  token_hash = sha256_string e refresh;
  family_id = family;
  parent_id = parent_id;
  application_id = client.application_id;
  user_id = user_id;
  scope = scope;
  expires_at = e.now + client.refresh_ttl * second;
  consumed_at = none;
  revoked_at = none;
}

-- The ID token, if the scope has `openid`.
unfoldable pub maybe_id_token : OauthClient → ℕ → Text → Text → M (Unit {0}) (Option Text)
maybe_id_token client user_id scope nonce =
    if contains (scopes_of scope) (codes "openid")
    then sign_id_token client user_id scope nonce >>= (λ t. pure (some t))
    else pure none

-- The rest of `issueUserTokens`, with the other tokens. An empty family stands for a new one,
-- named by `RandomUUID`.
unfoldable pub store_refresh :
    OauthClient
    → ℕ
    → Text
    → Text
    → Option ℕ
    → TokenResponse
    → Option Text
    → M (Unit {0}) TokenResponse
store_refresh client user_id scope family_id parent_id response id_token = do
  refresh ← or_stop (← draw) tt
  family ← (if is_empty family_id then draw >>= (λ t. or_stop t tt) else pure family_id)
  token ← ask (λ e. refresh_row e client user_id scope family parent_id refresh)
  stored ← try_exec (insert_refresh_token token)
  check stored tt
  pure (record response { id_token = id_token; refresh_token = some refresh })

unfoldable pub issue_user_tokens :
    OauthClient → ℕ → Text → Text → Text → Option ℕ → M (Unit {0}) TokenResponse
unfolding store_refresh maybe_id_token
issue_user_tokens client user_id scope nonce family_id parent_id = do
  subject ← ask (λ e. e.uuid_text user_id)
  response ← issue_access_token client subject (some user_id) scope
  id_token ← maybe_id_token client user_id scope nonce
  store_refresh client user_id scope family_id parent_id response id_token
