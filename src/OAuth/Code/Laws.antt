-- ===== src/OAuth/Code/Laws.antt =====
-- What clients can rely on when a code is redeemed.
use open_sso.Prelude.{
  ℕ, Text, ◌≡◌, ◌≢◌, ◌∙◌, inl, inr, refl, sym, ap, true, false, Option, none, some, arith, ltb,
  find, text_eq, ◌==◌, ◌&&◌,
}
use open_sso.Store.{Db, AuthorizationCode}
use open_sso.Store.Tables.{find-update_where, updated_row}
use open_sso.Web.{Env, World, Response, run, sha256_string}
use open_sso.Scope.{verify_pkce}
use open_sso.OAuth.Client.{OauthClient, TokenForm}
use open_sso.OAuth.Code.{find_code, consume_code, code_accepted, authorization_code_grant}
use open_sso.OAuth.Code.Redeem.{Redeemed, code_accepted_parts, authorization_code_grant-Ends}

find_code_of :
    (hash : Text) (app : ℕ) (d d' : Db)
    → d.authorization_codes ≡ d'.authorization_codes
    → find_code hash app d ≡ find_code hash app d'
unfolding find_code
find_code_of hash app d d' = ap (find (λ x. text_eq x.code_hash hash && x.application_id == app))

-- An accepted code is not the one that was consumed.
not_accepted_again :
    {o : Option AuthorizationCode} (c c' : AuthorizationCode) (now : ℕ)
    → o ≡ some (record c { consumed_at = some now })
    → o ≡ some c'
    → c'.consumed_at ≢ none
not_accepted_again c c' now h h' n = ground (arith, h, h', n)

consumed : ℕ → AuthorizationCode → AuthorizationCode
consumed now c = record c { consumed_at = some now }

-- The row of the code after it was consumed.
find_code-consume_code :
    (hash : Text) (app now : ℕ) (db : Db) (c : AuthorizationCode)
    → find_code hash app db ≡ some c
    → find_code hash app (consume_code now c.id db) ≡ some (record c { consumed_at = some now })
unfolding find_code consume_code consumed
find_code-consume_code hash app now db c h =
    find-update_where (λ x. text_eq x.code_hash hash && x.application_id == app) (λ x. x.id == c.id)
      (consumed now) (λ x. refl) db.authorization_codes
    ∙ ap
        (updated_row (λ x. text_eq x.code_hash hash && x.application_id == app) (λ x. x.id == c.id)
          (consumed now))
        h
    ∙ ground arith

module _ (client : OauthClient) (f : TokenForm) (e : Env) (w : World) where
  abbrev after : World
  after = (run (authorization_code_grant client f) e w).1

  abbrev answer : Response
  answer = (run (authorization_code_grant client f) e w).0

  Redeemed-consumed :
      (r : Response) (db : Db)
      → Redeemed client f e w.db r db
      → (c : AuthorizationCode) × (find_code (sha256_string e f.code) client.application_id w.db
          ≡ some c)
        × (code_accepted e c f ≡ true)
        × (find_code (sha256_string e f.code) client.application_id db
            ≡ some (record c { consumed_at = some e.db_now }))
  unfolding find_code
  Redeemed-consumed r db (c, t, u, v, at, good, used, (jti, key, fam, ref, issued), same, ans) = (
    c,
    at,
    good,
    same_codes (same ∙ issued.2)
        ∙ same_codes used
        ∙ find_code-consume_code (sha256_string e f.code) client.application_id e.db_now w.db c at,
  )
    where
      same_codes :
          {d d' : Db}
          → d ≡ d'
          → find_code (sha256_string e f.code) client.application_id d
            ≡ find_code (sha256_string e f.code) client.application_id d'
      same_codes = ap (find_code (sha256_string e f.code) client.application_id)

  -- The code was unused, not expired, and issued for the redirect URI and for a challenge that the
  -- verifier meets; afterwards it is stored as consumed.
  abbrev pub AcceptedOnce : Type 0
  AcceptedOnce =
      (c : AuthorizationCode) × (find_code (sha256_string e f.code) client.application_id w.db
        ≡ some c)
      × (c.consumed_at ≡ none)
      × (ltb c.expires_at e.now ≡ false)
      × (c.redirect_uri ≡ f.redirect_uri)
      × (verify_pkce e f.code_verifier c.code_challenge ≡ true)
      × (find_code (sha256_string e f.code) client.application_id
            (run (authorization_code_grant client f) e w).1.db
          ≡ some (record c { consumed_at = some e.db_now }))

  -- A grant by authorization code that answers 200 found the code, unused, not expired, issued
  -- for the redirect URI and for a challenge that the verifier meets; afterwards the same code is
  -- stored as consumed.
  pub authorization_code_grant_sound :
      (run (authorization_code_grant client f) e w).0.status ≡ 200 → AcceptedOnce
  authorization_code_grant_sound answered = elim (authorization_code_grant-Ends client f e w) [
    | inr (_, failed) ↦ absurd (failed answered)
    | inl redeemed ↦
        let (c, at, good, used) = Redeemed-consumed answer after.db redeemed in
        let (fresh, live, uri, pkce) = code_accepted_parts e c f good in
        (c, at, fresh, live, uri, pkce, used)
  ]

  -- Once a grant has answered 200 for a code, no later grant of the same client for a code with
  -- that hash answers 200, as long as nothing else writes the table of codes.
  code_single_use :
      (run (authorization_code_grant client f) e w).0.status ≡ 200
      → (g : TokenForm) (e' : Env) (v : World) → sha256_string e' g.code ≡ sha256_string e f.code
      → v.db.authorization_codes
        ≡ (run (authorization_code_grant client f) e w).1.db.authorization_codes
      → (run (authorization_code_grant client g) e' v).0.status ≢ 200
  unfolding find_code
  code_single_use answered g e' v same_hash same_codes again =
      let (c, at, fresh, live, uri, pkce, used) = authorization_code_grant_sound answered in
      elim (authorization_code_grant-Ends client g e' v) [
        | inr (_, failed) ↦ failed again
        | inl (c', t, x, y, at', good, used', issued, same, ans) ↦
            not_accepted_again c c' e.db_now used
              (sym (
                  find_code_of (sha256_string e f.code) client.application_id v.db after.db
                    same_codes)
                ∙ ap (λ h. find_code h client.application_id v.db) (sym same_hash)
                ∙ at')
              (code_accepted_parts e' c' g good).0
      ]

  -- A grant by authorization code that does not answer 200 leaves the database as it was.
  authorization_code_grant_atomic :
      (run (authorization_code_grant client f) e w).0.status ≢ 200
      → (run (authorization_code_grant client f) e w).1.db ≡ w.db
  authorization_code_grant_atomic refused = elim (authorization_code_grant-Ends client f e w) [
    | inr (kept, _) ↦ kept
    | inl (c, t, x, y, at, good, used, issued, same, ans) ↦
        absurd (refused (ap (λ r. r.status) ans))
  ]
