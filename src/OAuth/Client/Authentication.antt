-- ===== src/OAuth/Client/Authentication.antt =====
-- Which requests authenticate a client.
use open_sso.Prelude.{
  Text, text_eq_iff, is_empty, ◌≡◌, ◌⊎◌, ◌↔◌, inl, inr, Bool, true, false, is_some, some, arith,
  Option-cases,
}
use open_sso.Web.{Env, World, next, sha256_string}
use open_sso.OAuth.Client.{
  OauthClient, TokenForm, presented, select_client, accepts_secret, authenticate_oauth_client,
}

-- A public client shows no secret; any other client shows the secret whose hash is stored.
abbrev Proves : Env → OauthClient → Bool → Text → Type 0
Proves e c has_basic secret =
    ((c.is_public ≡ true) × (has_basic ≡ false) × (is_empty secret ≡ true))
    ⊎ ((c.is_public ≡ false)
        × (is_empty secret ≡ false)
        × (c.secret_hash ≡ some (sha256_string e secret)))

accepts_secret_iff :
    (e : Env) (c : OauthClient) (has_basic : Bool) (secret : Text)
    → (accepts_secret e c has_basic secret ≡ true) ↔ Proves e c has_basic secret
unfolding accepts_secret
accepts_secret_iff e c has_basic secret = elim (Option-cases (c.secret_hash)) [
  | inl n ↦ (ground (arith, n), ground (arith, n))
  | inr (h, n) ↦ (
    ground (arith, n, text_eq_iff (sha256_string e secret) h),
    ground (arith, n, text_eq_iff (sha256_string e secret) h),
  )
]

module _ (f : TokenForm) (e : Env) (w : World) (c : OauthClient) where
  abbrev pub Authenticated : Type 0
  Authenticated =
      (is_empty (presented f).0 ≡ false)
      × (e.fault w.calls ≡ false)
      × (select_client (presented f).0 w.db ≡ some c)
      × Proves e c (is_some f.basic) (presented f).1

  -- A request authenticates as a client exactly when it names an enabled client, the lookup does
  -- not fail, and the client is public and shows no credentials, or shows its secret.
  pub authenticate_oauth_client_iff : ((authenticate_oauth_client f e w).0 ≡ next c) ↔ Authenticated
  unfolding authenticate_oauth_client
  authenticate_oauth_client_iff = (
    ground (arith, accepts_secret_iff e c (is_some f.basic) (presented f).1),
    ground (arith, accepts_secret_iff e c (is_some f.basic) (presented f).1),
  )
