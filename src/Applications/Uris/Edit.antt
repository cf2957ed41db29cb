-- ===== src/Applications/Uris/Edit.antt =====
-- `updateApplication` registers valid URIs only.
use open_sso.Prelude.{
  ℕ, Text, is_empty, exists, trim_space, ◌==◌, ◌≡◌, refl, Bool, true, ◌&&◌, ◌||◌, not, text_eq,
  Option, List, [], ◌∷◌, arith, Bool-cases, inl, inr,
}
use open_sso.Web.{Env, M, Handler, Response, exec, check, transaction, problem, ◌>>=◌, ◌>>◌}
use open_sso.Web.Invariants.{exec-Preserves, Preserves, Stores, preserving}
use open_sso.Session.{Principal}
use open_sso.Applications.{
  ApplicationInput, valid_url, validate_application_uri, all_valid, checked_scopes, insert_redirect,
  insert_post_logout, insert_each,
}
use open_sso.Applications.Update.{
  store_update, update_application, edit_application, edit_client, clear_redirects,
  clear_post_logout,
}
use open_sso.Applications.Uris.Steps.{
  ValidUris, All-select, insert_redirect-Stores, insert_post_logout-Stores, insert_each-Keeps,
  finish-Keeps, AreValid, checked-Keeps, checked_scopes-Keeps,
}

module _ (e : Env) where
  abbrev Keeps : {A : Type 0} → M Response A → Type 0
  Keeps m = Preserves (ValidUris e) e m

  -- The test of an update asks for an URI that is not empty, too.
  all_valid-url :
      (us : List Text)
      → all_valid (validate_application_uri e) us ≡ true
      → all_valid (valid_url e) us ≡ true
  unfolding all_valid validate_application_uri
  all_valid-url [] h = refl
  all_valid-url (u ∷ us) h = ground (arith, h, all_valid-url us (ground (arith, h)))

  edit_application-Stores :
      (id : ℕ) (name : Text) (b : Bool) → Stores (ValidUris e) e (edit_application id name b)
  unfolding edit_application
  edit_application-Stores id name b d h =
      elim (Bool-cases (
        exists (λ a. a.id == id) d.applications
        && exists (λ a. not (a.id == id) && text_eq a.name name) d.applications)) [
          | inl x ↦ rw x tt
          | inr x ↦ rw x h
        ]

  edit_client-Keeps :
      (id : ℕ) (uri : Option Text) (scopes : List Text) → Keeps (exec (edit_client id uri scopes))
  unfolding edit_client
  edit_client-Keeps id uri scopes =
      exec-Preserves (ValidUris e) e (edit_client id uri scopes) (λ d h. h)

  clear_redirects-Keeps : (id : ℕ) → Keeps (exec (clear_redirects id))
  clear_redirects-Keeps id =
      exec-Preserves (ValidUris e) e (clear_redirects id)
        (λ d h. (All-select e (λ u. not (u.application_id == id)) d.redirect_uris h.0, h.1))

  clear_post_logout-Keeps : (id : ℕ) → Keeps (exec (clear_post_logout id))
  clear_post_logout-Keeps id = exec-Preserves (ValidUris e) e (clear_post_logout id) (λ d h.
      (h.0, All-select e (λ u. not (u.application_id == id)) d.post_logout_redirect_uris h.1))

  store_update-Keeps :
      (actor : Principal) (id : ℕ) (i : ApplicationInput) (scopes : List Text)
      → AreValid e valid_url i
      → Keeps (store_update actor id i scopes)
  unfolding store_update
  store_update-Keeps actor id i scopes (a, b) =
      let logins : Keeps (insert_each (insert_redirect id) i.redirect_uris) =
        insert_each-Keeps e (insert_redirect id) i.redirect_uris (insert_redirect-Stores e id) a in
      let logouts : Keeps (insert_each (insert_post_logout id) i.post_logout_redirect_uris) =
        insert_each-Keeps e (insert_post_logout id) i.post_logout_redirect_uris
          (insert_post_logout-Stores e id) b in
      search
        (
          preserving, edit_application-Stores, edit_client-Keeps, clear_redirects-Keeps,
          clear_post_logout-Keeps, logins, logouts, finish-Keeps,
        )
        depth 40

  -- What `updateApplication` does after the tests on the URIs.
  abbrev change : Principal → ℕ → ApplicationInput → Handler
  change actor id i = do
    check (not (is_empty i.allowed_scopes)) (problem 400 "at least one allowed scope is required")
    scopes ← checked_scopes i.allowed_scopes
    transaction (problem 500 "database error") (store_update actor id i scopes)

  change-Keeps :
      (actor : Principal) (id : ℕ) (i : ApplicationInput)
      → AreValid e validate_application_uri i
      → Keeps (change actor id i)
  change-Keeps actor id i (a, b) =
      let good : AreValid e valid_url i =
        (all_valid-url i.redirect_uris a, all_valid-url i.post_logout_redirect_uris b) in
      search (preserving, checked_scopes-Keeps, store_update-Keeps, good) depth 40

  pub update_application-Keeps :
      (actor : Principal) (id : ℕ) (i : ApplicationInput) → Keeps (update_application actor id i)
  unfolding update_application
  update_application-Keeps actor id i =
      checked-Keeps e (not (is_empty (trim_space i.name) || is_empty i.redirect_uris))
        (problem 400 "application name and at least one redirect URI are required")
        validate_application_uri i (change actor id i) (change-Keeps actor id i)
