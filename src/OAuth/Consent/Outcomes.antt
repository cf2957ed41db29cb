-- ===== src/OAuth/Consent/Outcomes.antt =====
-- How a decision on the consent page ends: the writes, call by call.
use mathlib.Core.Path.{subst}
use open_sso.Prelude.{
  ◌+◌, suc, Text, codes, text_eq, List, [], ◌∷◌, ◌≡◌, ◌≢◌, ◌⊎◌, ◌∙◌, sym, inl, inr, refl, ap, true,
  false, none, some, coalesce, exists, arith, Bool-cases, Option-cases, if◌then◌else◌,
}
use open_sso.Store.{Db, AuthorizationCode, AuthorizationRequest}
use open_sso.Web.{
  ◌>>=◌, Env, World, exec, Response, run, sha256_string, row_of, problem, redirect_oauth_error,
  redirect_authorization_code, transaction,
}
use open_sso.Web.Rules.{Post, Post-mono, Transacts, Ends, transaction-Ends}
use open_sso.Scope.{merge_scopes, scopes_of}
use open_sso.Session.{Principal}
use open_sso.OAuth.Authorize.{find_consent, insert_code, code_row}
use open_sso.OAuth.Consent.{
  ConsentForm, find_request, consume_request, granted_by, upsert_consent, request_accepted, deny,
  widen, approve, decide,
}

abbrev pub with_code : AuthorizationCode → Db → Db
with_code c db = record db {
  authorization_codes = c ∷ db.authorization_codes;
  next_id = suc db.next_id;
}

module _ (e : Env) (q : AuthorizationRequest) where
  -- What an approval makes of the database: the consent covers the scopes asked for, and a code with
  -- the data of the request stands under an unused hash.
  abbrev approved : List Text → Text → Db → Db
  approved existing code db =
      with_code
        (code_row e code q.application_id q.user_id q.redirect_uri q.scope q.nonce q.code_challenge
          db.next_id)
        (upsert_consent q.user_id q.application_id (merge_scopes existing (scopes_of q.scope)) db)

  abbrev Widened : List Text → Text → World → Response → World → Type 0
  Widened existing code v r v' =
      (exists (λ d. text_eq d.code_hash (sha256_string e code)) v.db.authorization_codes ≡ false)
      × (v'.db ≡ approved existing code v.db)
      × (v'.saved ≡ none)
      × (r ≡ redirect_authorization_code q.redirect_uri q.state code)

  abbrev Kept : Db → Response → World → Type 0
  Kept db r v' = (r.status ≢ 302) × (coalesce v'.saved v'.db ≡ db)

  widen-Widened :
      (db : Db) (existing : List Text) (v : World)
      → v.saved ≡ some db
      → Post (Widened existing (coalesce (e.entropy v.draws) []) v) (Kept db) (widen q existing e v)
  unfolding widen insert_code upsert_consent code_row
  widen-Widened db existing v saved = ground arith

module _ (f : ConsentForm) (p : Principal) (e : Env) where
  -- The user of the request approved it: the request is consumed, and `approved` says the rest.
  abbrev pub Approves : AuthorizationRequest → Db → Response → Db → Type 0
  Approves q db r db' =
      (text_eq f.action (codes "approve") ≡ true)
      × (existing : List Text) × (code : Text) × (granted_by
            (row_of (find_consent q.user_id q.application_id db))
          ≡ some existing)
      × (exists (λ d. text_eq d.code_hash (sha256_string e code)) db.authorization_codes ≡ false)
      × (db' ≡ approved e q existing code (consume_request e.db_now q.id db))
      × (r ≡ redirect_authorization_code q.redirect_uri q.state code)

  -- The user refused: the request is consumed, and nothing else.
  abbrev pub Denies : AuthorizationRequest → Db → Response → Db → Type 0
  Denies q db r db' =
      (text_eq f.action (codes "approve") ≡ false)
      × (db' ≡ consume_request e.db_now q.id db)
      × (r ≡ redirect_oauth_error q.redirect_uri q.state "access_denied")

  abbrev pub Decided : Db → Response → Db → Type 0
  Decided db r db' =
      (q : AuthorizationRequest) × (find_request (sha256_string e f.request_token) db ≡ some q)
      × (request_accepted e p.user_id q ≡ true)
      × (Approves q db r db' ⊎ Denies q db r db')

  abbrev Unsent : Response → Type 0
  Unsent r = r.status ≢ 302

  module _ (q : AuthorizationRequest) (db : Db) (w : World) where
    abbrev NowUsed : World → Type 0
    NowUsed v = (v.db ≡ consume_request e.db_now q.id db) × (v.saved ≡ some db)

    approve_tail :
        (v : World) (existing : List Text)
        → v.db ≡ consume_request e.db_now q.id db
        → v.saved ≡ some db
        → granted_by (row_of (find_consent q.user_id q.application_id v.db)) ≡ some existing
        → text_eq f.action (codes "approve") ≡ true
        → Transacts (Approves q db) Unsent db (widen q existing e v)
    unfolding find_consent consume_request
    approve_tail v existing here saved n yes_pressed =
        let code : Text = coalesce (e.entropy v.draws) [] in
        Post-mono (Widened e q existing code v) (λ r x. Approves q db r x.db × (x.saved ≡ none))
          (Kept e q db) (λ r x. Unsent r × (coalesce x.saved x.db ≡ db)) (widen q existing e v)
          (widen-Widened e q db existing v saved)
          (λ r x (fresh, wrote, closed, answer). (
            (
              yes_pressed,
              existing,
              code,
              sym (ap (λ d. granted_by (row_of (find_consent q.user_id q.application_id d))) here)
                  ∙ n,
              sym (
                    ap
                      (λ d.
                        exists (λ c. text_eq c.code_hash (sha256_string e code))
                          d.authorization_codes)
                      here)
                  ∙ fresh,
              wrote ∙ ap (approved e q existing code) here,
              answer,
            ),
            closed,
          ))
          (λ r x h. h)

    deny-Denies :
        (v : World)
        → NowUsed v
        → text_eq f.action (codes "approve") ≡ false
        → Transacts (Denies q db) Unsent db (deny q e v)
    unfolding deny
    deny-Denies v (here, saved) no_pressed = elim (Bool-cases (e.fault v.calls)) [
      | inl x ↦ rw (x, ◌>>=◌) (ground arith)
      | inr x ↦ rw (x, ◌>>=◌) ((no_pressed, ground arith, refl), refl)
    ]

    approve-Approves :
        (v : World)
        → NowUsed v
        → text_eq f.action (codes "approve") ≡ true
        → Transacts (Approves q db) Unsent db (approve q e v)
    unfolding approve
    approve-Approves v (here, saved) yes_pressed = elim (Bool-cases (e.fault v.calls)) [
      | inl x ↦ rw (x, ◌>>=◌) (ground arith)
      | inr x ↦
          elim (Option-cases (granted_by (row_of (find_consent q.user_id q.application_id v.db)))) [
            | inl n ↦ rw (x, n, ◌>>=◌) (ground arith)
            | inr (existing, n) ↦
                rw (x, n, ◌>>=◌)
                  (approve_tail (record v { calls = v.calls + 1 }) existing here saved n
                    yes_pressed)
          ]
    ]

  chosen :
      (q : AuthorizationRequest) (db : Db) (w v : World)
      → find_request (sha256_string e f.request_token) db ≡ some q
      → request_accepted e p.user_id q ≡ true
      → v.db ≡ consume_request e.db_now q.id db
      → v.saved ≡ some db
      → Transacts
          (Decided db)
          Unsent
          db
          ((if text_eq f.action (codes "approve") then approve q else deny q) e v)
  chosen q db w v hit good here saved = elim (Bool-cases (text_eq f.action (codes "approve"))) [
    | inl c ↦
        subst (λ b. Transacts (Decided db) Unsent db ((if b then approve q else deny q) e v))
          (sym c)
          (Post-mono (λ r x. Approves q db r x.db × (x.saved ≡ none))
            (λ r x. Decided db r x.db × (x.saved ≡ none))
            (λ r x. Unsent r × (coalesce x.saved x.db ≡ db))
            (λ r x. Unsent r × (coalesce x.saved x.db ≡ db)) (approve q e v)
            (approve-Approves q db w v (here, saved) c)
            (λ r x (a, closed). ((q, hit, good, inl a), closed)) (λ r x h. h))
    | inr c ↦
        subst (λ b. Transacts (Decided db) Unsent db ((if b then approve q else deny q) e v))
          (sym c)
          (Post-mono (λ r x. Denies q db r x.db × (x.saved ≡ none))
            (λ r x. Decided db r x.db × (x.saved ≡ none))
            (λ r x. Unsent r × (coalesce x.saved x.db ≡ db))
            (λ r x. Unsent r × (coalesce x.saved x.db ≡ db)) (deny q e v)
            (deny-Denies q db w v (here, saved) c)
            (λ r x (a, closed). ((q, hit, good, inr a), closed)) (λ r x h. h))
  ]

  decide-Post :
      (db : Db) (w : World)
      → w.db ≡ db
      → w.saved ≡ some db
      → Transacts (Decided db) Unsent db (decide f p e w)
  unfolding decide
  decide-Post db w here saved = elim (Bool-cases (e.fault w.calls)) [
    | inl x ↦ rw (x, ◌>>=◌) (ground arith)
    | inr x ↦ elim (Option-cases (find_request (sha256_string e f.request_token) w.db)) [
      | inl n ↦ rw (x, n, ◌>>=◌) (ground arith)
      | inr (q, hit) ↦ elim (Bool-cases (request_accepted e p.user_id q)) [
        | inr n ↦ rw (x, hit, n, ◌>>=◌) (ground arith)
        | inl good ↦ elim (Bool-cases (e.fault (w.calls + 1))) [
          | inl y ↦ rw (x, hit, good, y, ◌>>=◌) (ground arith)
          | inr y ↦
              rw (x, hit, good, y, ◌>>=◌)
                (chosen q db w
                  (exec {R = Response} (consume_request e.db_now q.id) e
                    (record w { calls = w.calls + 1 })).1
                  (subst (λ d. find_request (sha256_string e f.request_token) d ≡ some q) here hit)
                  good (ground arith) saved)
        ]
      ]
    ]
  ]

  pub decide-Ends :
      (w : World)
      → Ends
          (Decided w.db)
          Unsent
          w.db
          (run (transaction (problem 500 "database error") (decide f p)) e w)
  decide-Ends w =
      transaction-Ends (Decided w.db) Unsent (problem 500 "database error") (decide f p) e w
        (λ x. omega (arith, x)) (λ v same saved. decide-Post w.db v same saved)
