-- ===== src/OAuth/Authorize/Grants.antt =====
-- What `authorize` does once the request and the user are known: a code, or the consent form.
use open_sso.Prelude.{
  ℕ, String, Text, text_eq, exists, ◌≡◌, ◌∙◌, sym, inl, inr, refl, ap, true, false, ◌||◌, not,
  Option, none, some, arith, Bool-cases,
}
use open_sso.Store.{Db, Consent}
use open_sso.Web.{
  Env, World, ◌>>=◌, sha256_string, Response, redirect_authorization_code, redirect_oauth_error,
  attempt, or_stop, problem, pure,
}
use open_sso.Web.Rules.{Post, Attempted, attempt-Post, Post-bind}
use open_sso.Scope.{contains_all}
use open_sso.Mfa.Policy.{requires_mfa}
use open_sso.Session.{Principal, find_principal}
use open_sso.Session.Access.{Noted}
use open_sso.OAuth.Consent.Outcomes.{with_code}
use open_sso.OAuth.Authorize.{
  AuthorizeForm, Accepted, code_row, insert_code, find_consent, insert_request, request_row,
  store_authorization_code, grant_code, ask_consent, no_prompt,
}
use open_sso.OAuth.Authorize.Cases.{Valid, Withheld, Told, Noted-codes, refused}

module _ (q : AuthorizeForm) (e : Env) (db : Db) where
  abbrev pub NoCode : Response → World → Type 0
  NoCode = Withheld q e db

  abbrev pub Answers : Response → World → Type 0
  Answers = Told q e db

  module _ (a : Accepted) (valid : Valid q db a) where
    pub withheld :
        (code : String) (u : World)
        → u.db.authorization_codes ≡ db.authorization_codes
        → NoCode (redirect_oauth_error q.redirect_uri q.state code) u
    withheld code u kept = refused q e db a.client code u kept valid.client valid.known

    pub ask_consent-Post :
        (user_id : ℕ) (v : World)
        → v.db.authorization_codes ≡ db.authorization_codes
        → Post NoCode NoCode (ask_consent q a user_id e v)
    unfolding ask_consent insert_request request_row
    ask_consent-Post user_id v kept = elim (Bool-cases (no_prompt q)) [
      | inl x ↦ rw (x, ◌>>=◌) (withheld "consent_required" v kept)
      | inr x ↦ rw (x, ◌>>=◌) (ground (arith, kept))
    ]

    abbrev Stored : ℕ → World → Text → World → Type 0
    Stored user_id v code u =
        (exists (λ d. text_eq d.code_hash (sha256_string e code)) v.db.authorization_codes ≡ false)
        × (u.db
            ≡ with_code
                (code_row e code a.client.application_id user_id q.redirect_uri a.scope q.nonce
                  q.code_challenge v.db.next_id)
                v.db)

    store-Post :
        (user_id : ℕ) (v : World)
        → Post
            (Stored user_id v)
            (λ _ u. u.db ≡ v.db)
            (store_authorization_code a.client.application_id user_id q.redirect_uri a.scope q.nonce
              q.code_challenge e v)
    unfolding store_authorization_code insert_code
    store-Post user_id v = ground arith

    module _ (token : Text) (p : Principal) (cookie : q.session ≡ some token)
        (principal : find_principal (sha256_string e token) e.db_now db ≡ some p) where
      pub grant_code-Post :
          (c : Consent) (v : World)
          → Noted e.db_now p.session_id db v.db
          → p.must_change_password ≡ false
          → not (requires_mfa p.user_id (some a.client.application_id) db) || p.mfa_verified ≡ true
          → find_consent p.user_id a.client.application_id db ≡ some c
          → contains_all c.granted_scopes a.scopes ≡ true
          → Post Answers Answers (grant_code q a p.user_id e v)
      unfolding grant_code
      grant_code-Post c v noted fresh factor hit covers =
          Post-bind (Attempted (Stored p.user_id v) (λ u. u.db ≡ v.db)) Answers Answers
            (attempt (
              store_authorization_code a.client.application_id p.user_id q.redirect_uri a.scope
                q.nonce q.code_challenge))
            (λ o. or_stop o (problem 500 "authorization code creation failed") >>= λ code.
              pure (redirect_authorization_code q.redirect_uri q.state code))
            e v
            (attempt-Post (Stored p.user_id v) (λ u. u.db ≡ v.db) Answers
              (store_authorization_code a.client.application_id p.user_id q.redirect_uri a.scope
                q.nonce q.code_challenge)
              e v (store-Post p.user_id v))
            answered
        where
          answered :
              (o : Option Text) (u : World)
              → Attempted (Stored p.user_id v) (λ x. x.db ≡ v.db) o u
              → Post Answers Answers (
                  (or_stop o (problem 500 "authorization code creation failed") >>= λ code.
                  pure (redirect_authorization_code q.redirect_uri q.state code))
                    e u)
          answered none u kept = inr (
            ap (λ d. d.authorization_codes) kept ∙ Noted-codes e.db_now p.session_id noted,
            refl,
            inl refl,
          )
          answered (some code) u (unused, wrote) = inl (record {
            request = a;
            valid = valid;
            token = token;
            user = p;
            cookie = cookie;
            principal = principal;
            no_change = fresh;
            factor = factor;
            consent = c;
            consented = hit;
            covered = covers;
            code = code;
            unused =
                ap (exists (λ d. text_eq d.code_hash (sha256_string e code)))
                  (sym (Noted-codes e.db_now p.session_id noted))
                ∙ unused;
            before = v.db;
            noted = noted;
            written = wrote;
            answer = refl;
          })
