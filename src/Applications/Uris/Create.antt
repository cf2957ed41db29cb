-- ===== src/Applications/Uris/Create.antt =====
-- `createApplication` registers valid URIs only.
use open_sso.Prelude.{
  ℕ, Text, is_empty, exists, ◌==◌, ◌≡◌, Bool, true, false, ◌||◌, not, text_eq, Option, List,
  Bool-cases, inl, inr,
}
use open_sso.Web.{Env, M, Handler, Response, or_stop, draw, transaction, problem, ◌>>=◌}
use open_sso.Web.Invariants.{Preserves, Stores, preserving}
use open_sso.Session.{Principal}
use open_sso.Applications.{
  ApplicationInput, valid_url, all_valid, checked_scopes, insert_redirect, insert_post_logout,
  insert_each, insert_application, insert_client, store_application, or_default, draw_secret,
  create_application,
}
use open_sso.Applications.Uris.Steps.{
  ValidUris, insert_redirect-Stores, insert_post_logout-Stores, insert_each-Keeps, finish-Keeps,
  AreValid, checked-Keeps, checked_scopes-Keeps,
}

module _ (e : Env) where
  abbrev Keeps : {A : Type 0} → M Response A → Type 0
  Keeps m = Preserves (ValidUris e) e m

  draw_secret-Keeps : (b : Bool) → Keeps (draw_secret b)
  unfolding draw_secret
  draw_secret-Keeps true = search preserving
  draw_secret-Keeps false = search preserving depth 20

  insert_application-Stores : (name : Text) → Stores (ValidUris e) e (insert_application name)
  unfolding insert_application
  insert_application-Stores name d h =
      elim (Bool-cases (exists (λ a. text_eq a.name name) d.applications)) [
        | inl x ↦ rw x tt
        | inr x ↦ rw x h
      ]

  insert_client-Stores :
      (id : ℕ) (client_id : Text) (hash : Option Text) (b : Bool) (scopes : List Text)
      (uri : Option Text)
      → Stores (ValidUris e) e (insert_client id client_id hash b scopes uri)
  unfolding insert_client
  insert_client-Stores id client_id hash b scopes uri d h =
      elim (Bool-cases
        (exists (λ c. c.application_id == id || text_eq c.client_id client_id) d.oauth_clients)) [
          | inl x ↦ rw x tt
          | inr x ↦ rw x h
        ]

  store_application-Keeps :
      (actor : Principal) (i : ApplicationInput) (scopes : List Text) (client_id secret : Text)
      (hash : Option Text)
      → all_valid (valid_url e) i.redirect_uris ≡ true
      → all_valid (valid_url e) i.post_logout_redirect_uris ≡ true
      → Keeps (store_application actor i scopes client_id secret hash)
  unfolding store_application
  store_application-Keeps actor i scopes client_id secret hash a b =
      let logins : (id : ℕ) → Keeps (insert_each (insert_redirect id) i.redirect_uris) = λ id.
        insert_each-Keeps e (insert_redirect id) i.redirect_uris (insert_redirect-Stores e id) a in
      let logouts : (id : ℕ)
          → Keeps (insert_each (insert_post_logout id) i.post_logout_redirect_uris) =
        λ id.
          insert_each-Keeps e (insert_post_logout id) i.post_logout_redirect_uris
            (insert_post_logout-Stores e id) b in
      search
        (preserving, insert_application-Stores, insert_client-Stores, logins, logouts, finish-Keeps)
        depth 40

  -- What `createApplication` does after the tests on the URIs.
  abbrev register : Principal → ApplicationInput → Handler
  register actor i = do
    scopes ← checked_scopes (or_default i.allowed_scopes)
    client_id ← or_stop (← draw) (problem 500 "entropy failure")
    (secret, hash) ← draw_secret i.public_client
    transaction (problem 500 "database error")
        (store_application actor i scopes client_id secret hash)

  register-Keeps :
      (actor : Principal) (i : ApplicationInput) → AreValid e valid_url i → Keeps (register actor i)
  register-Keeps actor i (a, b) =
      search (preserving, checked_scopes-Keeps, draw_secret-Keeps, store_application-Keeps) depth 40

  pub create_application-Keeps :
      (actor : Principal) (i : ApplicationInput) → Keeps (create_application actor i)
  unfolding create_application
  create_application-Keeps actor i =
      checked-Keeps e (not (is_empty i.redirect_uris))
        (problem 400 "at least one redirect URI is required") valid_url i (register actor i)
        (register-Keeps actor i)
