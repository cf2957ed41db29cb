-- ===== src/OAuth/Code/Redeem.antt =====
-- What redeeming an authorization code does: all of it, or nothing.
use mathlib.Core.Path.{subst}
use open_sso.Prelude.{
  ◌*◌, ◌≤◌, suc, Text, codes, text_eq, text_eq_iff, find, exists, update_where, ltb, ◌==◌, ◌&&◌,
  ◌∷◌, false, ◌+◌, [], ◌≡◌, ◌≢◌, inl, inr, refl, true, none, some, arith, Bool-cases, Option-cases,
  coalesce, ◌∙◌, ap, sym,
}
use open_sso.Store.{Db, AuthorizationCode}
use open_sso.Web.{
  exec, Outcome, Env, World, Response, respond, tokens, TokenResponse, ◌>>=◌, run, sha256_string,
  second,
}
use open_sso.Web.Rules.{Post-mono, Transacts, Ends, transaction-Ends}
use open_sso.OAuth.Client.{OauthClient, TokenForm}
use open_sso.OAuth.Issue.{access_row, access_claims, refresh_row}
use open_sso.OAuth.Issue.Frame.{Issued, with_access, with_refresh}
use open_sso.Keys.{SigningKey}
use open_sso.Scope.{verify_pkce}
use open_sso.OAuth.Deliver.{server_error, issue_and_deliver}
use open_sso.OAuth.Deliver.Outcomes.{Delivered, Refused, issue_and_deliver-Post}
use open_sso.OAuth.Code.{
  find_code, consume_code, code_accepted, redeem_code, authorization_code_grant, well_formed,
}

pub code_accepted_parts :
    (e : Env) (c : AuthorizationCode) (f : TokenForm)
    → code_accepted e c f ≡ true
    → (c.consumed_at ≡ none)
      × (ltb c.expires_at e.now ≡ false)
      × (c.redirect_uri ≡ f.redirect_uri)
      × (verify_pkce e f.code_verifier c.code_challenge ≡ true)
unfolding code_accepted
code_accepted_parts e c f h = ground (arith, text_eq_iff c.redirect_uri f.redirect_uri)

module _ (client : OauthClient) (f : TokenForm) (e : Env) where
  -- The code was there and accepted; it is consumed, and the tokens are stored and answered.
  abbrev pub Redeemed : Db → Response → Db → Type 0
  Redeemed db r db' =
      (c : AuthorizationCode) × (t : TokenResponse) × (u : World) × (v : World) × (find_code
          (sha256_string e f.code) client.application_id db
        ≡ some c)
      × (code_accepted e c f ≡ true)
      × (u.db ≡ consume_code e.db_now c.id db)
      × Issued client c.user_id c.scope c.nonce [] none e u t v
      × (db' ≡ v.db)
      × (r ≡ respond 200 (tokens t))

  abbrev Failed : Response → Type 0
  Failed r = r.status ≢ 200

  abbrev Redeems : Db → Outcome Response Response × World → Type 0
  Redeems db = Transacts (Redeemed db) Failed db

  redeem_tail :
      (db : Db) (u : World) (c : AuthorizationCode)
      → find_code (sha256_string e f.code) client.application_id db ≡ some c
      → code_accepted e c f ≡ true
      → u.db ≡ consume_code e.db_now c.id db
      → u.saved ≡ some db
      → Redeems db (issue_and_deliver client c.user_id c.scope c.nonce [] none e u)
  redeem_tail db u c at good consumed saved =
      Post-mono (Delivered client c.user_id c.scope c.nonce [] none e u)
        (λ r v. Redeemed db r v.db × (v.saved ≡ none)) (Refused db)
        (λ r v. Failed r × (coalesce v.saved v.db ≡ db))
        (issue_and_deliver client c.user_id c.scope c.nonce [] none e u)
        (issue_and_deliver-Post client c.user_id c.scope c.nonce [] none e db u saved)
        (λ r x (t, v, issued, answer, same, closed).
          ((c, t, u, v, at, good, consumed, issued, same, answer), closed))
        (λ r x h. ((λ ok. omega (arith, h.0, ok)), h.1))

  redeem_code-Post : (w : World) → w.saved ≡ some w.db → Redeems w.db (redeem_code client f e w)
  unfolding redeem_code
  redeem_code-Post w saved = elim (Bool-cases (e.fault w.calls)) [
    | inl x ↦ rw (x, ◌>>=◌) (ground arith)
    | inr x ↦
        rw (x, ◌>>=◌)
          (elim (Option-cases (find_code (sha256_string e f.code) client.application_id w.db)) [
            | inl n ↦ rw (n, ◌>>=◌) (ground arith)
            | inr (c, hit) ↦
                rw (hit, ◌>>=◌)
                  (elim (Bool-cases (code_accepted e c f)) [
                    | inr n ↦ rw (n, ◌>>=◌) (ground arith)
                    | inl good ↦
                        rw (good, ◌>>=◌)
                          (elim (Bool-cases (e.fault (w.calls + 1))) [
                            | inl y ↦ rw (y, ◌>>=◌) (ground arith)
                            | inr y ↦
                                rw (y, ◌>>=◌)
                                  (rw hit at
                                    (redeem_tail w.db (after c) c hit good (ground arith) saved))
                          ])
                  ])
          ])
  ]
    where
      after : AuthorizationCode → World
      after c =
          (exec {R = Response} (consume_code e.db_now c.id) e (record w { calls = w.calls + 1 })).1

  pub authorization_code_grant-Ends :
      (w : World) → Ends (Redeemed w.db) Failed w.db (run (authorization_code_grant client f) e w)
  unfolding authorization_code_grant
  authorization_code_grant-Ends w = elim (Bool-cases (well_formed f)) [
    | inr n ↦ rw (n, ◌>>=◌) (inr (refl, λ x. omega (arith, x)))
    | inl good ↦
        rw (good, ◌>>=◌)
          (transaction-Ends (Redeemed w.db) Failed (server_error "database error")
            (redeem_code client f) e w (λ x. omega (arith, x))
            (λ v same saved.
              subst (λ db. Redeems db (redeem_code client f e v)) same
                (redeem_code-Post v (saved ∙ ap some (sym same)))))
  ]

  -- The code of the form was unused, in time, and issued for the redirect URI and for a challenge
  -- that the verifier meets. It is used now, and an access token and a refresh token are stored for
  -- its user and scope, under an unused identifier and an unused hash, and answered.
  pub record Exchanged (db : Db) (r : Response) (db' : Db) : Type 0 where
    pub code : AuthorizationCode
    pub found :
        find
          (λ c.
            text_eq c.code_hash (sha256_string e f.code)
            && c.application_id == client.application_id)
          db.authorization_codes
        ≡ some code
    pub fresh : code.consumed_at ≡ none
    pub in_time : e.now ≤ code.expires_at
    pub for_uri : code.redirect_uri ≡ f.redirect_uri
    pub proved : verify_pkce e f.code_verifier code.code_challenge ≡ true
    pub jti : Text
    pub key : SigningKey
    pub family : Text
    pub refresh : Text
    pub answered : TokenResponse
    pub new_jti : exists (λ a. text_eq a.jti jti) db.access_tokens ≡ false
    pub new_refresh :
        exists (λ a. text_eq a.token_hash (sha256_string e refresh)) db.refresh_tokens ≡ false
    pub written : db' ≡ record db {
      authorization_codes =
          update_where
            (λ c. c.id == code.id)
            (λ c. record c { consumed_at = some e.db_now })
            db.authorization_codes;
      access_tokens =
          record {
            jti = jti;
            application_id = client.application_id;
            user_id = some code.user_id;
            subject = e.uuid_text code.user_id;
            scope = code.scope;
            expires_at = e.now + client.access_ttl * second;
            revoked_at = none;
          }
          ∷ db.access_tokens;
      refresh_tokens =
          record {
            id = db.next_id;
            token_hash = sha256_string e refresh;
            family_id = family;
            parent_id = none;
            application_id = client.application_id;
            user_id = code.user_id;
            scope = code.scope;
            expires_at = e.now + client.refresh_ttl * second;
            consumed_at = none;
            revoked_at = none;
          }
          ∷ db.refresh_tokens;
      next_id = suc db.next_id;
    }
    pub answer : r ≡ respond 200 (tokens answered)
    pub same_scope : answered.scope ≡ code.scope
    pub sent : answered.refresh_token ≡ some refresh
    pub signed :
        e.sign_access key.private_key key.kid (record {
          scope = code.scope;
          token_use = codes "access";
          issuer = e.public_url;
          subject = e.uuid_text code.user_id;
          audience = client.client_id ∷ [];
          expires_at = e.now + client.access_ttl * second;
          issued_at = e.now;
          jti = jti;
        })
        ≡ some answered.access_token

  exchanged : (db : Db) (r : Response) (db' : Db) → Redeemed db r db' → Exchanged db r db'
  unfolding find_code consume_code access_row refresh_row access_claims
  exchanged db r db' (c, t, u, v, at, good, used, (jti, key, family, new, issued), same, ans) =
      let (unused, live, uri, proof) = code_accepted_parts e c f good in
      record {
        code = c;
        found = at;
        fresh = unused;
        in_time = ground (arith, live);
        for_uri = uri;
        proved = proof;
        jti = jti;
        key = key;
        family = family;
        refresh = new;
        answered = t;
        new_jti = ap (λ d. exists (λ a. text_eq a.jti jti) d.access_tokens) (sym used) ∙ issued.0;
        new_refresh =
            ap (λ d. exists (λ a. text_eq a.token_hash (sha256_string e new)) d.refresh_tokens)
              (sym used)
            ∙ issued.1;
        written =
            same
            ∙ issued.2
            ∙ ap
                (λ d.
                  with_refresh (refresh_row e client c.user_id c.scope family none new d.next_id) (
                    with_access
                      (access_row e client (e.uuid_text c.user_id) (some c.user_id) c.scope jti) d))
                used;
        answer = ans;
        same_scope = issued.4;
        sent = issued.6;
        signed = issued.7;
      }

  -- A grant by authorization code either marks an unused code, in time, for the redirect URI and
  -- for a challenge that the verifier meets, as used, stores an access token and a refresh token
  -- for the user, the scope and the client of the code and answers them with 200, or leaves the
  -- database as it was and does not answer 200.
  pub authorization_code_grant_cases :
      (w : World)
      → Ends
          (Exchanged w.db)
          (λ r. r.status ≢ 200)
          w.db
          (run (authorization_code_grant client f) e w)
  authorization_code_grant_cases w = elim (authorization_code_grant-Ends w) [
    | inl done ↦ inl (exchanged w.db _ _ done)
    | inr kept ↦ inr kept
  ]
