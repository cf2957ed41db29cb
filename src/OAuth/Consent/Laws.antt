-- ===== src/OAuth/Consent/Laws.antt =====
-- What a decision on the consent page writes.
use mathlib.Core.Path.{subst}
use open_sso.Prelude.{
  ℕ, Bool, ◌*◌, ◌≤◌, ◌==◌, ◌&&◌, find, update_where, text_eq_iff, ◌+◌, suc, Text, codes, text_eq,
  List, [], ◌∷◌, ◌≡◌, ◌≢◌, ◌⊎◌, ◌∙◌, sym, inl, inr, refl, ap, true, false, none, some, exists,
  arith, Option-cases,
}
use open_sso.Store.{Db, Consent, AuthorizationRequest}
use open_sso.Store.Tables.{find-update_where, find_first, find_holds, updated_row}
use open_sso.Web.{
  Env, World, Response, run, sha256_string, row_of, problem, redirect_oauth_error,
  redirect_authorization_code, transaction, minute,
}
use open_sso.Web.Rules.{Ends}
use open_sso.Scope.{merge_scopes, scopes_of}
use open_sso.Session.{Principal}
use open_sso.OAuth.Authorize.{find_consent, code_row}
use open_sso.OAuth.Consent.{
  ConsentForm, find_request, consume_request, granted_by, upsert_consent, request_accepted, decide,
}
use open_sso.OAuth.Consent.Outcomes.{Decided, Approves, decide-Ends}

module _ (f : ConsentForm) (p : Principal) (e : Env) where
  abbrev pub used : ℕ → Db → List AuthorizationRequest
  used id db =
      update_where (λ r. r.id == id) (λ r. record r { consumed_at = some e.db_now }) db.requests

  -- What the consent of the user for the application grants; nothing without a row.
  abbrev pub Grants : AuthorizationRequest → List Text → Db → Type 0
  Grants q scopes db =
      ((find (λ c. c.user_id == q.user_id && c.application_id == q.application_id) db.consents
          ≡ none)
        × (scopes ≡ []))
      ⊎ ((c : Consent) × (find (λ c. c.user_id == q.user_id && c.application_id == q.application_id)
              db.consents
            ≡ some c)
          × (scopes ≡ c.granted_scopes))

  -- The user of the request approved it: it is used, the consent is widened by the scopes asked
  -- for, and a code with the data of the request is stored under an unused hash and sent.
  pub record Approved (q : AuthorizationRequest) (db : Db) (r : Response) (db' : Db) : Type 0 where
    pub existing : List Text
    pub code : Text
    pub pressed : f.action ≡ codes "approve"
    pub granted : Grants q existing db
    pub unused :
        exists (λ d. text_eq d.code_hash (sha256_string e code)) db.authorization_codes ≡ false
    pub requests : db'.requests ≡ used q.id db
    pub consent : Grants q (merge_scopes existing (scopes_of q.scope)) db'
    pub codes_now :
        db'.authorization_codes
        ≡ record {
          id = db.next_id;
          code_hash = sha256_string e code;
          application_id = q.application_id;
          user_id = q.user_id;
          redirect_uri = q.redirect_uri;
          scope = q.scope;
          nonce = q.nonce;
          code_challenge = q.code_challenge;
          expires_at = e.db_now + 2 * minute;
          consumed_at = none;
        }
          ∷ db.authorization_codes
    pub rest : db' ≡ record db {
      requests = db'.requests;
      consents = db'.consents;
      authorization_codes = db'.authorization_codes;
      next_id = suc db.next_id;
    }
    pub answer : r ≡ redirect_authorization_code q.redirect_uri q.state code

  -- The user refused it: it is used, and nothing else is written.
  abbrev pub Refused : AuthorizationRequest → Db → Response → Db → Type 0
  Refused q db r db' =
      (f.action ≢ codes "approve")
      × (db' ≡ record db { requests = used q.id db })
      × (r ≡ redirect_oauth_error q.redirect_uri q.state "access_denied")

  -- The token names a request of the user that is neither used nor expired.
  abbrev pub Chosen : Db → Response → Db → Type 0
  Chosen db r db' =
      (q : AuthorizationRequest) × (find
          (λ r. text_eq r.request_token_hash (sha256_string e f.request_token)) db.requests
        ≡ some q)
      × (q.user_id ≡ p.user_id)
      × (q.consumed_at ≡ none)
      × (e.now ≤ q.expires_at)
      × (Approved q db r db' ⊎ Refused q db r db')

  granted_parts :
      (q : AuthorizationRequest) (existing : List Text) (db : Db)
      → granted_by (row_of (find_consent q.user_id q.application_id db)) ≡ some existing
      → Grants q existing db
  unfolding granted_by find_consent
  granted_parts q existing db h =
      elim (Option-cases
        (find (λ c. c.user_id == q.user_id && c.application_id == q.application_id) db.consents)) [
          | inl n ↦ inl (n, ground (arith, h, n))
          | inr (c, n) ↦ inr (c, n, ground (arith, h, n))
        ]

  widened :
      (q : AuthorizationRequest) (scopes : List Text) (db : Db)
      → Grants q scopes (upsert_consent q.user_id q.application_id scopes db)
  unfolding upsert_consent find_consent
  widened q scopes db = elim (Option-cases (find mine db.consents)) [
    | inl n ↦ rw n (inr (fresh, find_first mine fresh db.consents (ground arith), refl))
    | inr (c, n) ↦ rw n (
        inr (
          record c { granted_scopes = scopes },
          find-update_where mine mine (λ x. record x { granted_scopes = scopes }) (λ x. refl)
                db.consents
              ∙ ap (updated_row mine mine (λ x. record x { granted_scopes = scopes })) n
              ∙ ground (arith, find_holds mine db.consents c n),
          refl,
        ))
  ]
    where
      mine : Consent → Bool
      mine c = c.user_id == q.user_id && c.application_id == q.application_id

      fresh : Consent
      fresh = record {
        user_id = q.user_id;
        application_id = q.application_id;
        granted_scopes = scopes;
      }

  approves :
      (q : AuthorizationRequest) (db : Db) (r : Response) (db' : Db)
      → Approves f p e q db r db'
      → Approved q db r db'
  unfolding upsert_consent consume_request code_row
  approves q db r db' (said, existing, code, had, fresh, wrote, ans) = record {
    existing = existing;
    code = code;
    pressed = (text_eq_iff f.action (codes "approve")).0 said;
    granted = granted_parts q existing db had;
    unused = fresh;
    requests = ap (λ d. d.requests) wrote;
    consent =
        subst (Grants q (merge_scopes existing (scopes_of q.scope))) (sym wrote) (
          widened q (merge_scopes existing (scopes_of q.scope)) (consume_request e.db_now q.id db));
    codes_now = ap (λ d. d.authorization_codes) wrote;
    rest =
        subst
          (λ d. d ≡ record db {
            requests = d.requests;
            consents = d.consents;
            authorization_codes = d.authorization_codes;
            next_id = suc db.next_id;
          })
          (sym wrote) refl;
    answer = ans;
  }

  chosen_parts :
      (q : AuthorizationRequest) (u : ℕ)
      → request_accepted e u q ≡ true
      → (q.user_id ≡ u) × (q.consumed_at ≡ none) × (e.now ≤ q.expires_at)
  unfolding request_accepted
  chosen_parts q u h = ground (arith, h)

  decided : (db : Db) (r : Response) (db' : Db) → Decided f p e db r db' → Chosen db r db'
  unfolding find_request consume_request
  decided db r db' (q, hit, good, way) =
      let (mine, fresh, live) = chosen_parts q p.user_id good in
      (
        q,
        hit,
        mine,
        fresh,
        live,
        elim way [
          | inl a ↦ inl (approves q db r db' a)
          | inr (other, wrote, ans) ↦ inr (
            (λ same. ground (arith, other, (text_eq_iff f.action (codes "approve")).1 same)),
            wrote,
            ans,
          )
        ],
      )

  -- A decision on the consent page finds the request of the user, unused and not expired, marks
  -- it as used, and either leaves the consent of the user as the merge of the earlier scopes with
  -- those asked for, and a code with the data of the request under an unused hash, or refuses and
  -- writes nothing else; or it leaves the database as it was and does not redirect.
  pub decide_cases :
      (w : World)
      → Ends
          (Chosen w.db)
          (λ r. r.status ≢ 302)
          w.db
          (run (transaction (problem 500 "database error") (decide f p)) e w)
  decide_cases w = elim (decide-Ends f p e w) [
    | inl done ↦ inl (decided w.db _ _ done)
    | inr kept ↦ inr kept
  ]
