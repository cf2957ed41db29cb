-- ===== src/OAuth/Authorize/Cases.antt =====
-- Who gets a code at the authorization endpoint, and where the browser is sent: the cases, and the
-- validation of the request.
use open_sso.Prelude.{
  ℕ, ◌+◌, String, Text, text_eq, codes, is_empty, exists, ◌≡◌, ◌⊎◌, ◌∙◌, sym, inl, inr, refl, ap,
  Bool, true, false, ◌&&◌, ◌||◌, not, Option, none, some, arith, Bool-cases, Option-cases,
  if◌then◌else◌,
}
use open_sso.Store.{Db, Consent}
use open_sso.Web.{
  Env, World, ◌>>=◌, sha256_string, Response, Body, to_client, to_client_error,
  redirect_authorization_code, redirect_oauth_error,
}
use open_sso.Web.Rules.{Post}
use open_sso.Scope.{contains_all, normalize_requested_scope}
use open_sso.Mfa.Policy.{requires_mfa}
use open_sso.Session.{Principal, find_principal, touch}
use open_sso.Session.Access.{Noted}
use open_sso.OAuth.Client.{OauthClient, select_client, load_oauth_client}
use open_sso.OAuth.Consent.Outcomes.{with_code}
use open_sso.OAuth.Authorize.{
  AuthorizeForm, Accepted, requested, registered, validate_authorization_request, code_row,
  find_consent,
}

-- The client's URI that a response redirects to.
abbrev pub target : Body → Option Text
target (to_client uri _ _) = some uri
target (to_client_error uri _ _) = some uri
target _ = none

abbrev sends_code : Body → Bool
sends_code (to_client _ _ _) = true
sends_code _ = false

-- The request is one that the enabled client may make.
pub record Valid (q : AuthorizeForm) (db : Db) (a : Accepted) : Type 0 where
  pub code_flow : text_eq q.response_type (codes "code") ≡ true
  pub client : select_client q.client_id db ≡ some a.client
  pub known : registered a.client.application_id q.redirect_uri db ≡ true
  pub method : text_eq q.code_challenge_method (codes "S256") ≡ true
  pub challenge : is_empty q.code_challenge ≡ false
  pub scopes : requested a.client (normalize_requested_scope q.scope) ≡ some (a.scope, a.scopes)

-- The user of a live session has consented to the scopes of a valid request, and a code for the
-- request is stored under an unused hash and sent to the client.
pub record Granted (q : AuthorizeForm) (e : Env) (db : Db) (r : Response) (db' : Db) : Type 0 where
  pub request : Accepted
  pub valid : Valid q db request
  pub token : Text
  pub user : Principal
  pub cookie : q.session ≡ some token
  pub principal : find_principal (sha256_string e token) e.db_now db ≡ some user
  pub no_change : user.must_change_password ≡ false
  pub factor :
      not (requires_mfa user.user_id (some request.client.application_id) db) || user.mfa_verified
      ≡ true
  pub consent : Consent
  pub consented : find_consent user.user_id request.client.application_id db ≡ some consent
  pub covered : contains_all consent.granted_scopes request.scopes ≡ true
  pub code : Text
  pub unused :
      exists (λ d. text_eq d.code_hash (sha256_string e code)) db.authorization_codes ≡ false
  pub before : Db
  pub noted : Noted e.db_now user.session_id db before
  pub written :
      db'
      ≡ with_code
          (code_row e code request.client.application_id user.user_id q.redirect_uri request.scope
            q.nonce q.code_challenge before.next_id)
          before
  pub answer : r ≡ redirect_authorization_code q.redirect_uri q.state code

-- Noting the time of a session leaves the codes, the policies and the consents.
pub Noted-codes :
    (now id : ℕ) {d d' : Db} → Noted now id d d' → d'.authorization_codes ≡ d.authorization_codes
unfolding touch
Noted-codes now id (inl same) = ap (λ d. d.authorization_codes) same
Noted-codes now id (inr noted) = ap (λ d. d.authorization_codes) noted

pub Noted-rights :
    (now id user_id application_id : ℕ) {d d' : Db}
    → Noted now id d d'
    → (requires_mfa user_id (some application_id) d' ≡ requires_mfa user_id (some application_id) d)
      × (find_consent user_id application_id d' ≡ find_consent user_id application_id d)
unfolding touch requires_mfa find_consent
Noted-rights now id user_id application_id (inl same) = (
  ap (requires_mfa user_id (some application_id)) same,
  ap (find_consent user_id application_id) same,
)
Noted-rights now id user_id application_id (inr noted) = (
  ap (requires_mfa user_id (some application_id)) noted,
  ap (find_consent user_id application_id) noted,
)

pub noting :
    (now id : ℕ) (b : Bool) {d db : Db} → d ≡ db → Noted now id db (if b then d else touch now id d)
noting now id true same = inl same
noting now id false same = inr (ap (touch now id) same)

pub moved : {A : Type 0} (f : Db → A) {a : A} {d db : Db} → d ≡ db → f d ≡ a → f db ≡ a
moved f same h = ap f (sym same) ∙ h

module _ (q : AuthorizeForm) (e : Env) (db : Db) where
  -- The browser stays, or goes to a URI that is registered for the client.
  abbrev Safe : Response → Type 0
  Safe r =
      (target r.body ≡ none)
      ⊎ ((c : OauthClient) × (select_client q.client_id db ≡ some c)
          × (registered c.application_id q.redirect_uri db ≡ true)
          × (target r.body ≡ some q.redirect_uri))

  -- No code: none is stored, none is sent.
  abbrev pub Withheld : Response → World → Type 0
  Withheld r v =
      (v.db.authorization_codes ≡ db.authorization_codes) × (sends_code r.body ≡ false) × Safe r

  abbrev pub Told : Response → World → Type 0
  Told r v = Granted q e db r v.db ⊎ Withheld r v

  -- A request that was seen to name a registered URI may be refused there.
  pub refused :
      (c : OauthClient) (code : String) (u : World)
      → u.db.authorization_codes ≡ db.authorization_codes
      → select_client q.client_id db ≡ some c
      → registered c.application_id q.redirect_uri db ≡ true
      → Withheld (redirect_oauth_error q.redirect_uri q.state code) u
  refused c code u kept hit known = (kept, refl, inr (c, hit, known, refl))

  pub validate-Post :
      (v : World)
      → v.db ≡ db
      → Post (λ a u. Valid q db a × (u.db ≡ db)) Withheld (validate_authorization_request q e v)
  unfolding validate_authorization_request load_oauth_client
  validate-Post v same =
      elim (Bool-cases (
        text_eq q.response_type (codes "code")
        && not (is_empty q.client_id)
        && not (is_empty q.redirect_uri)
        && not (is_empty q.state))) [
          | inr n ↦ rw (n, ◌>>=◌) (ground (arith, same))
          | inl x ↦ elim (Bool-cases (e.fault v.calls)) [
            | inl n ↦ rw (x, n, ◌>>=◌) (ground (arith, same))
            | inr y ↦ elim (Option-cases (select_client q.client_id v.db)) [
              | inl n ↦ rw (x, y, n, ◌>>=◌) (ground (arith, same))
              | inr (c, hit) ↦ elim (Bool-cases (e.fault (v.calls + 1))) [
                | inl n ↦ rw (x, y, hit, n, ◌>>=◌) (ground (arith, same))
                | inr z ↦ elim (Bool-cases (registered c.application_id q.redirect_uri v.db)) [
                  | inr n ↦ rw (x, y, hit, z, n, ◌>>=◌) (ground (arith, same))
                  | inl known ↦
                      elim (Bool-cases (
                        text_eq q.code_challenge_method (codes "S256")
                        && not (is_empty q.code_challenge))) [
                          | inr n ↦
                              rw (x, y, hit, z, known, n, ◌>>=◌)
                                (refused c "invalid_request" (record v { calls = v.calls + 1 + 1 })
                                  (ap (λ d. d.authorization_codes) same)
                                  (moved (select_client q.client_id) same hit)
                                  (moved (registered c.application_id q.redirect_uri) same known))
                          | inl pkce ↦
                              elim (Option-cases
                                (requested c (normalize_requested_scope q.scope))) [
                                  | inl n ↦
                                      rw (x, y, hit, z, known, pkce, n, ◌>>=◌)
                                        (refused c "invalid_scope"
                                          (record v { calls = v.calls + 1 + 1 })
                                          (ap (λ d. d.authorization_codes) same)
                                          (moved (select_client q.client_id) same hit)
                                          (moved (registered c.application_id q.redirect_uri) same
                                            known))
                                  | inr ((scope, scopes), n) ↦
                                      rw (x, y, hit, z, known, pkce, n, ◌>>=◌)
                                        (
                                          record {
                                            code_flow = ground (arith, x);
                                            client = moved (select_client q.client_id) same hit;
                                            known =
                                                moved (registered c.application_id q.redirect_uri)
                                                  same known;
                                            method = ground (arith, pkce);
                                            challenge = ground (arith, pkce);
                                            scopes = n;
                                          },
                                          same,
                                        )
                                ]
                        ]
                ]
              ]
            ]
          ]
        ]
