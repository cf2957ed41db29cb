-- ===== src/Saml/Requests/Outcomes.antt =====
-- What the operations on SAML requests write, on each path: `FinalizeAuthRequest` and
-- `AuthRequestByID`.
use open_sso.Prelude.{
  ℕ, ◌+◌, Text, count, ◌==◌, coalesce, Bool, Option, none, some, ◌≡◌, refl, ap, arith, Bool-cases,
  inl, inr,
}
use open_sso.Store.{Db, SamlRequest}
use open_sso.Web.{Env, World, ◌>>=◌, ◌>>◌, exec_count, pure}
use open_sso.Web.Rules.{Post, Post-mono, Post-bind, transaction-Commits}
use open_sso.Saml.Requests.{
  storage_failure, find_pending, may_use, complete_request, is_pending, bind_request,
  finalize_auth_request, one_written, affected, lookup, bind_found,
}
use open_sso.Saml.Requests.Cases.{Bound, pending_parts, may_saml, may_entitled}

module _ (key : Text) (e : Env) (db : Db) where
  -- The end of both: exactly one row is written, or what a rollback restores is as it was.
  write-Post :
      {A : Type 0} (p : SamlRequest → Bool) (f : Db → Db) (a : A) (v : World)
      → v.db ≡ db
      → v.saved ≡ some db
      → Post
          (λ x u. (x ≡ a) × (count p db.saml_requests ≡ 1) × (u.db ≡ f db) × (u.saved ≡ none))
          (λ _ u. coalesce u.saved u.db ≡ db)
          ((exec_count (affected p) f >>= λ n. one_written n >> pure a) e v)
  write-Post p f a v same opened = elim (Bool-cases (e.fault v.calls)) [
    | inl x ↦ rw (x, ◌>>=◌) (ground (arith, opened))
    | inr x ↦ elim (Bool-cases (count p v.db.saml_requests == 1)) [
      | inr n ↦ rw (x, n, ◌>>=◌) (ground (arith, opened))
      | inl y ↦ elim (Bool-cases (e.fault (v.calls + 1))) [
        | inl z ↦ rw (x, y, z, ◌>>=◌) (ground (arith, opened))
        | inr z ↦
            rw (x, y, z, ◌>>=◌)
              (
                refl,
                ground (arith, y, same),
                ground (arith, x, y, z, ap f same),
                ground (arith, x, y, z),
              )
      ]
    ]
  ]

  lookup-Post :
      (f : Db → Option SamlRequest) (v : World)
      → v.db ≡ db
      → v.saved ≡ some db
      → Post
          (λ q u. (f db ≡ some q) × (u.db ≡ db) × (u.saved ≡ some db))
          (λ _ u. coalesce u.saved u.db ≡ db)
          (lookup f e v)
  unfolding lookup
  lookup-Post f v same opened = ground (arith, same, opened)

  bind_found-Post :
      (user_id : ℕ) (q : SamlRequest) (v : World)
      → find_pending key e.db_now db ≡ some q
      → v.db ≡ db
      → v.saved ≡ some db
      → Post
          (λ id u. Bound key user_id e.db_now db id u.db × (u.saved ≡ none))
          (λ _ u. coalesce u.saved u.db ≡ db)
          (bind_found key user_id e.db_now q e v)
  unfolding bind_found complete_request
  bind_found-Post user_id q v hit same opened = elim (Bool-cases (e.fault v.calls)) [
    | inl x ↦ rw (x, ◌>>=◌) (ground (arith, opened))
    | inr x ↦ elim (Bool-cases (may_use q.application_id user_id v.db)) [
      | inr n ↦ rw (x, n, ◌>>=◌) (ground (arith, opened))
      | inl y ↦
          rw (x, y, ◌>>=◌)
            (Post-mono _ _ (λ _ u. coalesce u.saved u.db ≡ db) (λ _ u. coalesce u.saved u.db ≡ db)
              ((exec_count (affected (is_pending key)) (complete_request key user_id e.db_now)
                  >>= λ n. one_written n >> pure q.application_id)
                e (record v { calls = v.calls + 1 }))
              (write-Post (is_pending key) (complete_request key user_id e.db_now) q.application_id
                (record v { calls = v.calls + 1 }) same opened)
              (λ id u (named, one, new, closed). (
                let (same_key, live, undone, fresh) = pending_parts key e.db_now db q hit in
                    record {
                      pending = q;
                      named = same_key;
                      in_time = live;
                      not_completed = undone;
                      not_answered = fresh;
                      application = named;
                      is_saml = may_saml id user_id db (rw (named, ← same) y);
                      entitled = may_entitled id user_id db (rw (named, ← same) y);
                      single = one;
                      written = new;
                    },
                closed,
              ))
              (λ _ u h. h))
    ]
  ]

-- Binding a SAML request to a user either finds the only request with that key that is neither
-- completed nor answered, in time and for an enabled SAML application that is assigned to the
-- user or a group of the user, and gives it that user and the time of completion, or leaves the
-- database as it was.
pub finalize_auth_request_cases :
    (key : Text) (user_id : ℕ) (e : Env) (w : World)
    → Post
        (λ id v. Bound key user_id e.db_now w.db id v.db)
        (λ _ v. v.db ≡ w.db)
        (finalize_auth_request key user_id e w)
unfolding finalize_auth_request bind_request
finalize_auth_request_cases key user_id e w =
    transaction-Commits (Bound key user_id e.db_now w.db) storage_failure (bind_request key user_id)
      e w
      (λ v same opened.
        Post-bind
          (λ q u. (find_pending key e.db_now w.db ≡ some q) × (u.db ≡ w.db) × (u.saved ≡ some w.db))
          (λ id u. Bound key user_id e.db_now w.db id u.db × (u.saved ≡ none))
          (λ _ u. coalesce u.saved u.db ≡ w.db) (lookup (find_pending key e.db_now))
          (bind_found key user_id e.db_now) e v
          (lookup-Post key e w.db (find_pending key e.db_now) v same opened)
          (λ q u (hit, s, o). bind_found-Post key e w.db user_id q u hit s o))
