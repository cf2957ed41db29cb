-- ===== src/History/Once.antt =====
-- An authorization code gives tokens once: the grant of backend/internal/httpapi/oauth.go, then any
-- sequence of requests, then the grant again.
use open_sso.Prelude.{
  ◌≤◌, ◌==◌, is_some, Text, text_eq, count, true, none, some, ◌≡◌, ◌∙◌, ap, refl, arith, Bool-cases,
  inl, inr,
}
use open_sso.Store.Tables.{count-update_where, only_row}
use open_sso.Web.{Env, World, Handler, Response, run, ◌>>=◌, sha256_string, transaction}
use open_sso.OAuth.Client.{OauthClient, TokenForm}
use open_sso.OAuth.Deliver.{server_error}
use open_sso.OAuth.Code.{authorization_code_grant, redeem_code, well_formed, find_code}
use open_sso.OAuth.Code.Redeem.{authorization_code_grant_cases}
use open_sso.OAuth.Code.Laws.{authorization_code_grant_sound}
use open_sso.History.Guarded.{is_redeemed}
use open_sso.History.Requests.{Reach}
use open_sso.History.Replay.{Refused, redeemed_code-Refused}

-- No transaction is open after one.
transaction_closed :
    (failure : Response) (m : Handler) (e : Env) (w : World)
    → w.saved ≡ none
    → (run (transaction failure m) e w).1.saved ≡ none
transaction_closed failure m e w closed = elim (Bool-cases (e.fault w.calls)) [
  | inl x ↦ rw (x, ◌>>=◌) (ground (arith, x, closed))
  | inr x ↦ rw (x, ◌>>=◌) refl
]

module _ (client : OauthClient) (f : TokenForm) (e : Env) (w : World) where
  grant_closed : w.saved ≡ none → (run (authorization_code_grant client f) e w).1.saved ≡ none
  unfolding authorization_code_grant
  grant_closed closed = elim (Bool-cases (well_formed f)) [
    | inr n ↦ rw (n, ◌>>=◌) closed
    | inl y ↦
        rw (y, ◌>>=◌)
          (transaction_closed (server_error "database error") (redeem_code client f) e w closed)
  ]

  -- The answer says that the code is redeemed.
  grant-redeemed :
      (run (authorization_code_grant client f) e w).0.status ≡ 200
      → count (λ c. text_eq c.code_hash (sha256_string e f.code)) w.db.authorization_codes ≤ 1
      → is_redeemed (sha256_string e f.code) (run (authorization_code_grant client f) e w).1.db
        ≡ true
  unfolding is_redeemed find_code
  grant-redeemed answered few =
      let hash : Text = sha256_string e f.code in
      let (c, at, fresh, live, uri, pkce, used) =
        authorization_code_grant_sound client f e w answered in
      elim (authorization_code_grant_cases client f e w) [
        | inr (_, failed) ↦ absurd (failed answered)
        | inl x ↦
            let same : count (λ d. text_eq d.code_hash hash)
                  (run (authorization_code_grant client f) e w).1.db.authorization_codes
                ≡ count (λ d. text_eq d.code_hash hash) w.db.authorization_codes =
              ap (λ d. count (λ d. text_eq d.code_hash hash) d.authorization_codes) x.written
              ∙ count-update_where (λ d. text_eq d.code_hash hash) (λ d. d.id == x.code.id)
                  (λ d. record d { consumed_at = some e.db_now }) (λ d. refl)
                  w.db.authorization_codes in
            let (one, flagged) =
              only_row (λ d. text_eq d.code_hash hash)
                (λ d. d.application_id == client.application_id) (λ d. is_some d.consumed_at)
                (run (authorization_code_grant client f) e w).1.db.authorization_codes
                (record c { consumed_at = some e.db_now }) (omega (arith, same, few)) used refl in
            ground (arith, one, flagged)
      ]

  -- If at most one code has its hash and no transaction is open, then once a grant by
  -- authorization code has answered 200, no sequence of requests and of calls of the SAML
  -- provider, whatever their environments, leads to a state in which a grant of any client for a
  -- code with that hash answers 200.
  pub redeemed_once :
      (client' : OauthClient) (g : TokenForm) (e' : Env) (v : World)
      → w.saved ≡ none
      → count (λ c. text_eq c.code_hash (sha256_string e f.code)) w.db.authorization_codes ≤ 1
      → (run (authorization_code_grant client f) e w).0.status ≡ 200
      → Reach (run (authorization_code_grant client f) e w).1 v
      → sha256_string e' g.code ≡ sha256_string e f.code
      → Refused (run (authorization_code_grant client' g) e' v).0
  redeemed_once client' g e' v closed few answered r same =
      redeemed_code-Refused client' g e' (run (authorization_code_grant client f) e w).1 v
        (grant_closed closed)
        (ap (λ h. is_redeemed h (run (authorization_code_grant client f) e w).1.db) same
          ∙ grant-redeemed answered few)
        r
