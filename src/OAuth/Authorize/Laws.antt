-- ===== src/OAuth/Authorize/Laws.antt =====
-- What `authorize` does on each path.
use mathlib.Core.Path.{subst}
use open_sso.Prelude.{
  ◌+◌, Text, ◌≡◌, ◌⊎◌, ◌∙◌, sym, inl, inr, refl, ap, true, false, ◌&&◌, ◌||◌, not, Option, none,
  some, arith, Bool-cases, Option-cases, if◌then◌else◌,
}
use open_sso.Store.{Db, Consent}
use open_sso.Web.{
  Env, World, Handler, ◌>>=◌, Row, failed, no_rows, row, row_of, found, sha256_string, Response,
  redirect_oauth_error, respond, to_login, or_stop, run,
}
use open_sso.Web.Rules.{Post, Post-mono, Post-bind, run-Post}
use open_sso.Scope.{contains_all}
use open_sso.Mfa.Policy.{requires_mfa}
use open_sso.Session.{Principal, find_principal, session_principal}
use open_sso.Session.Access.{Noted}
use open_sso.OAuth.Authorize.{
  AuthorizeForm, Accepted, validate_authorization_request, find_consent, ask_consent, no_prompt,
  authorize_consented, authorize_user, authorize,
}
use open_sso.OAuth.Authorize.Cases.{
  Valid, Told, Noted-codes, Noted-rights, moved, noting, validate-Post,
}
use open_sso.OAuth.Authorize.Grants.{NoCode, Answers, withheld, ask_consent-Post, grant_code-Post}

module _ (q : AuthorizeForm) (e : Env) (db : Db) where
  abbrev Held : Response → World → Type 0
  Held = NoCode q e db

  abbrev Ended : Response → World → Type 0
  Ended = Answers q e db

  module _ (a : Accepted) (valid : Valid q db a) where
    module _ (token : Text) (p : Principal) (cookie : q.session ≡ some token)
        (principal : find_principal (sha256_string e token) e.db_now db ≡ some p) where
      asked :
          (v : World)
          → v.db.authorization_codes ≡ db.authorization_codes
          → Post Ended Ended (ask_consent q a p.user_id e v)
      asked v kept =
          Post-mono Held Ended Held Ended (ask_consent q a p.user_id e v)
            (ask_consent-Post q e db a valid p.user_id v kept) (λ _ _. inr) (λ _ _. inr)

      consented-Post :
          (r : Row Consent) (v : World)
          → Noted e.db_now p.session_id db v.db
          → p.must_change_password ≡ false
          → not (requires_mfa p.user_id (some a.client.application_id) db) || p.mfa_verified ≡ true
          → (found r ≡ find_consent p.user_id a.client.application_id db) ⊎ (found r ≡ none)
          → Post Ended Ended (authorize_consented q a p.user_id r e v)
      unfolding authorize_consented
      consented-Post failed v noted fresh factor hit =
          inr (Noted-codes e.db_now p.session_id noted, refl, inl refl)
      consented-Post no_rows v noted fresh factor hit =
          asked v (Noted-codes e.db_now p.session_id noted)
      consented-Post (row c) v noted fresh factor (inr hit) = ground (arith, hit)
      consented-Post (row c) v noted fresh factor (inl hit) =
          elim (Bool-cases (contains_all c.granted_scopes a.scopes)) [
            | inl x ↦ rw x (
                grant_code-Post q e db a valid token p cookie principal c v noted fresh factor
                  (sym hit) x)
            | inr x ↦ rw x (asked v (Noted-codes e.db_now p.session_id noted))
          ]

      seen_consent :
          (v : World)
          → Noted e.db_now p.session_id db v.db
          → let r =
              (if e.fault (v.calls + 1)
                then failed
                else row_of (find_consent p.user_id a.client.application_id v.db)) in
            (found r ≡ find_consent p.user_id a.client.application_id db) ⊎ (found r ≡ none)
      seen_consent v noted =
          let kept =
            (Noted-rights e.db_now p.session_id p.user_id a.client.application_id noted).1 in
          elim (Bool-cases (e.fault (v.calls + 1))) [
            | inl x ↦ rw x (inr refl)
            | inr x ↦ elim (Option-cases (find_consent p.user_id a.client.application_id v.db)) [
              | inl n ↦ rw (x, n) (inr refl)
              | inr (c, n) ↦ rw (x, n) (inl (sym n ∙ kept))
            ]
          ]

      user-Post :
          (v : World)
          → Noted e.db_now p.session_id db v.db
          → Post Ended Ended (authorize_user q a p e v)
      unfolding authorize_user
      user-Post v noted = elim (Bool-cases p.must_change_password) [
        | inl x ↦ rw (x, ◌>>=◌) (inr (Noted-codes e.db_now p.session_id noted, refl, inl refl))
        | inr fresh ↦ elim (Bool-cases (e.fault v.calls)) [
          | inl x ↦
              rw (fresh, x, ◌>>=◌) (inr (Noted-codes e.db_now p.session_id noted, refl, inl refl))
          | inr y ↦
              elim (Bool-cases (
                requires_mfa p.user_id (some a.client.application_id) v.db && not p.mfa_verified)) [
                  | inl n ↦
                      rw (fresh, y, ◌>>=◌, n)
                        (elim (Bool-cases (no_prompt q)) [
                          | inl z ↦ rw z (
                              inr (
                                withheld q e db a valid "interaction_required"
                                  (record v { calls = v.calls + 1 })
                                  (Noted-codes e.db_now p.session_id noted)))
                          | inr z ↦
                              rw z (inr (Noted-codes e.db_now p.session_id noted, refl, inl refl))
                        ])
                  | inr n ↦
                      rw (fresh, y, ◌>>=◌, n)
                        (consented-Post
                          (if e.fault (v.calls + 1)
                            then failed
                            else row_of (find_consent p.user_id a.client.application_id v.db))
                          (record v { calls = v.calls + 1 + 1 }) noted fresh
                          (ap (λ b. not b || p.mfa_verified)
                              (sym
                                (Noted-rights e.db_now p.session_id p.user_id
                                  a.client.application_id noted).0)
                            ∙ ground (arith, n))
                          (seen_consent v noted))
                ]
        ]
      ]

  -- What a look at the session of the request tells.
  abbrev Seen : Option Principal → World → Type 0
  Seen o u =
      ((o ≡ none) × (u.db ≡ db))
      ⊎ ((token : Text) × (p : Principal) × (o ≡ some p)
          × (q.session ≡ some token)
          × (find_principal (sha256_string e token) e.db_now db ≡ some p)
          × Noted e.db_now p.session_id db u.db)

  look :
      (s : Option Text) (v : World)
      → q.session ≡ s
      → v.db ≡ db
      → Post {R = Response} Seen (λ _ _. ⊥) (session_principal s e v)
  unfolding session_principal
  look none v h same = inl (refl, same)
  look (some token) v h same = elim (Bool-cases (e.fault v.calls)) [
    | inl x ↦ rw (x, ◌>>=◌) (inl (refl, same))
    | inr x ↦ elim (Option-cases (find_principal (sha256_string e token) e.db_now v.db)) [
      | inl n ↦ rw (x, n, ◌>>=◌) (inl (refl, same))
      | inr (p, n) ↦
          rw (x, n, ◌>>=◌)
            (inr (
              token,
              p,
              refl,
              h,
              moved (find_principal (sha256_string e token) e.db_now) same n,
              noting e.db_now p.session_id (e.fault (v.calls + 1)) same,
            ))
    ]
  ]

  unknown :
      (a : Accepted) (valid : Valid q db a) (v : World)
      → v.db.authorization_codes ≡ db.authorization_codes
      → Ended
          (if no_prompt q
            then redirect_oauth_error q.redirect_uri q.state "login_required"
            else respond 302 (to_login false))
          v
  unknown a valid v kept = elim (Bool-cases (no_prompt q)) [
    | inl z ↦ rw z (inr (withheld q e db a valid "login_required" v kept))
    | inr z ↦ rw z (inr (kept, refl, inl refl))
  ]

  -- What the endpoint does once it looked at the session.
  abbrev proceed : Accepted → Option Principal → Handler
  proceed a o = do
    p ← or_stop o (
        if no_prompt q
        then redirect_oauth_error q.redirect_uri q.state "login_required"
        else respond 302 (to_login false))
    authorize_user q a p

  proceed-Post :
      (a : Accepted) (valid : Valid q db a) (o : Option Principal) (v : World)
      → Seen o v
      → Post Ended Ended (proceed a o e v)
  proceed-Post a valid o v (inl (gone, still)) =
      subst (λ x. Post Ended Ended (proceed a x e v)) (sym gone)
        (unknown a valid v (ap (λ d. d.authorization_codes) still))
  proceed-Post a valid o v (inr (token, p, here, cookie, principal, noted)) =
      subst (λ x. Post Ended Ended (proceed a x e v)) (sym here)
        (user-Post a valid token p cookie principal v noted)

  authorize-Post : (w : World) → w.db ≡ db → Post Ended Ended (authorize q e w)
  unfolding authorize
  authorize-Post w same =
      Post-bind (λ a u. Valid q db a × (u.db ≡ db)) Ended Ended (validate_authorization_request q)
        (λ a. session_principal q.session >>= proceed a) e w
        (Post-mono _ _ Held Ended (validate_authorization_request q e w)
          (validate-Post q e db w same) (λ _ _ h. h) (λ _ _. inr))
        (λ a u (valid, kept).
          Post-bind Seen Ended Ended (session_principal q.session) (proceed a) e u
            (Post-mono Seen Seen (λ _ _. ⊥) Ended (session_principal q.session e u)
              (look q.session u refl kept) (λ _ _ h. h) (λ _ _ h. elim h [ ]))
            (proceed-Post a valid))

-- A request to the authorization endpoint either is a valid one of an enabled client, with the
-- session of a user who need not change the password, has shown a second factor where the
-- policies ask for one and has consented to the scopes, and then a code with its data is stored
-- under an unused hash and sent to its URI; or no code is stored or sent, and the browser is
-- redirected to no client or to a URI registered for it.
pub authorize_cases :
    (q : AuthorizeForm) (e : Env) (w : World)
    → Told q e w.db (run (authorize q) e w).0 (run (authorize q) e w).1
authorize_cases q e w = run-Post (Told q e w.db) (authorize q e w) (authorize-Post q e w.db w refl)
