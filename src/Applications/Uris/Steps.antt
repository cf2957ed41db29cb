-- ===== src/Applications/Uris/Steps.antt =====
-- The steps of both handlers that register URIs.
use open_sso.Prelude.{
  ℕ, String, Text, is_empty, exists, select, ◌≡◌, refl, Bool, true, ◌||◌, Option, List, [], ◌∷◌,
  ◌++◌, All, arith, Bool-cases, inl, inr,
}
use open_sso.Store.{Db, RedirectUri}
use open_sso.Web.{Env, World, M, Handler, Response, check, ◌>>=◌, ◌>>◌}
use open_sso.Web.Invariants.{
  bind-Preserves, bind_when-Preserves, check-Preserves, Preserves, Stores, Held, preserves,
  preserving,
}
use open_sso.Web.Rules.{Post}
use open_sso.Session.{Principal}
use open_sso.Audit.{insert_event}
use open_sso.Applications.{
  ApplicationInput, valid_url, all_valid, check_uris, checked_scopes, insert_redirect,
  insert_post_logout, insert_each, is_uri, finish,
}

module _ (e : Env) where
  abbrev IsValid : RedirectUri → Type 0
  IsValid u = valid_url e u.redirect_uri ≡ true

  -- Every URI of an application, for the login and for the logout, has a scheme and a host, no
  -- fragment and no asterisk.
  abbrev pub ValidUris : Db → Type 0
  ValidUris db = All IsValid db.redirect_uris × All IsValid db.post_logout_redirect_uris

  abbrev Keeps : {A : Type 0} → M Response A → Type 0
  Keeps m = Preserves ValidUris e m

  pub All-select :
      (p : RedirectUri → Bool) (us : List RedirectUri) → All IsValid us → All IsValid (select p us)
  unfolding select
  All-select p [] a = tt
  All-select p (u ∷ us) (v, a) = elim (Bool-cases (p u)) [
    | inl x ↦ rw x (v, All-select p us a)
    | inr x ↦ rw x (All-select p us a)
  ]

  pub insert_redirect-Stores :
      (id : ℕ) (uri : Text) → valid_url e uri ≡ true → Stores ValidUris e (insert_redirect id uri)
  unfolding insert_redirect
  insert_redirect-Stores id uri v d h = elim (Bool-cases (exists (is_uri id uri) d.redirect_uris)) [
    | inl x ↦ rw x tt
    | inr x ↦ rw x ((v, h.0), h.1)
  ]

  pub insert_post_logout-Stores :
      (id : ℕ) (uri : Text)
      → valid_url e uri ≡ true
      → Stores ValidUris e (insert_post_logout id uri)
  unfolding insert_post_logout
  insert_post_logout-Stores id uri v d h =
      elim (Bool-cases (exists (is_uri id uri) d.post_logout_redirect_uris)) [
        | inl x ↦ rw x tt
        | inr x ↦ rw x (h.0, (v, h.1))
      ]

  pub insert_each-Keeps :
      (f : Text → Db → Option Db) (uris : List Text)
      → ((uri : Text) → valid_url e uri ≡ true → Stores ValidUris e (f uri))
      → all_valid (valid_url e) uris ≡ true
      → Keeps (insert_each f uris)
  unfolding insert_each all_valid
  insert_each-Keeps f [] k v = search preserving
  insert_each-Keeps f (uri ∷ uris) k v =
      let rest = insert_each-Keeps f uris k (ground (arith, v)) in
      search (preserving, k uri (ground (arith, v)), rest) depth 20

  pub finish-Keeps :
      (actor : Principal) (id : ℕ) (event : String) (r : Response) → Keeps (finish actor id event r)
  unfolding finish insert_event
  finish-Keeps actor id event r = search (preserving) depth 20

  all_valid-append :
      (p : Text → Bool) (us vs : List Text)
      → all_valid p (us ++ vs) ≡ true
      → (all_valid p us ≡ true) × (all_valid p vs ≡ true)
  unfolding all_valid
  all_valid-append p [] vs h = (refl, h)
  all_valid-append p (u ∷ us) vs h =
      let (a, b) = all_valid-append p us vs (ground (arith, h)) in (ground (arith, h, a), b)

  -- The URIs of the request are valid.
  abbrev pub AreValid : (Env → Text → Bool) → ApplicationInput → Type 0
  AreValid valid i =
      (all_valid (valid e) i.redirect_uris ≡ true)
      × (all_valid (valid e) i.post_logout_redirect_uris ≡ true)

  check_uris-Post :
      (valid : Env → Text → Bool) (i : ApplicationInput) (w : World)
      → Held ValidUris e w
      → Post
          (λ _ v. Held ValidUris e v × AreValid valid i)
          (λ _ v. Held ValidUris e v)
          (check_uris valid i e w)
  unfolding check_uris
  check_uris-Post valid i w h =
      elim (Bool-cases (all_valid (valid e) (i.redirect_uris ++ i.post_logout_redirect_uris))) [
        | inr x ↦ rw (x, ◌>>=◌) h
        | inl x ↦
            elim (Bool-cases (is_empty i.initiate_login_uri || valid e i.initiate_login_uri)) [
              | inl y ↦
                  rw (x, y, ◌>>=◌)
                    (h, all_valid-append (valid e) i.redirect_uris i.post_logout_redirect_uris x)
              | inr y ↦ rw (x, y, ◌>>=◌) h
            ]
      ]

  pub checked-Keeps :
      (b : Bool) (x : Response) (valid : Env → Text → Bool) (i : ApplicationInput) (k : Handler)
      → (AreValid valid i → Keeps k)
      → Keeps (check b x >> (check_uris valid i >> k))
  checked-Keeps b x valid i k h =
      bind-Preserves ValidUris e (check b x) (λ _. check_uris valid i >> k)
        (check-Preserves ValidUris e b x)
        (λ _.
          bind_when-Preserves ValidUris e (λ _. AreValid valid i) (check_uris valid i) (λ _. k)
            (check_uris-Post valid i) (λ _. h))

  pub checked_scopes-Keeps : (allowed : List Text) → Keeps (checked_scopes allowed)
  unfolding checked_scopes
  checked_scopes-Keeps allowed = preserves (λ w s. ground (arith, s))
