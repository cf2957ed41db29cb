-- ===== src/Session/Access.antt =====
-- Whom `require` lets pass to a handler.
use mathlib.Core.Path.{subst}
use open_sso.Prelude.{
  ℕ, ◌+◌, Text, ◌≡◌, ◌⊎◌, ◌∙◌, sym, inl, inr, refl, ap, true, false, ◌&&◌, ◌||◌, not, Option, none,
  some, arith, Bool-cases, Option-cases, if◌then◌else◌,
}
use open_sso.Store.{Db}
use open_sso.Web.{
  failed, problem, ◌>>=◌, Env, World, Handler, Response, run, sha256_string, row_of, found,
}
use open_sso.Mfa.Policy.{requires_mfa}
use open_sso.Session.{
  Principal, find_principal, touch, has_permission, check_mfa, check_permission, require,
  session_principal, with_principal, with_principal_raw,
}

-- Looking at a session may note the time, and does nothing else.
abbrev pub Noted : ℕ → ℕ → Db → Db → Type 0
Noted now id db db' = (db' ≡ db) ⊎ (db' ≡ touch now id db)

-- A refusal, whatever its cause.
abbrev pub Refusal : Response → Type 0
Refusal r = (r.status ≡ 401) ⊎ ((r.status ≡ 403) ⊎ (r.status ≡ 500))

Noted-rights :
    (now id user_id : ℕ) (permission : Text) (db db' : Db)
    → Noted now id db db'
    → (has_permission user_id permission db' ≡ has_permission user_id permission db)
      × (requires_mfa user_id none db' ≡ requires_mfa user_id none db)
unfolding touch has_permission requires_mfa
Noted-rights now id user_id permission db db' (inl same) =
    (ap (has_permission user_id permission) same, ap (requires_mfa user_id none) same)
Noted-rights now id user_id permission db db' (inr noted) =
    (ap (has_permission user_id permission) noted, ap (requires_mfa user_id none) noted)

module _ (permission : Text) (next : Principal → Handler) (p : Principal) (e : Env) where
  -- The principal has the right to go on, and the handler has run from a state `v`; or a refusal.
  abbrev Passed : World → Response × World → Type 0
  Passed v r =
      ((u : World) × (u.db ≡ v.db)
        × (p.must_change_password ≡ false)
        × (not (requires_mfa p.user_id none v.db) || p.mfa_verified ≡ true)
        × (has_permission p.user_id permission v.db ≡ true)
        × (r ≡ run (next p) e u))
      ⊎ (Refusal r.0 × (r.1.db ≡ v.db))

  permission-Passed :
      (v : World)
      → not (requires_mfa p.user_id none v.db) || p.mfa_verified ≡ true
      → Passed v (run (check_permission permission next p) e v)
  unfolding check_permission
  permission-Passed v mfa = elim (Bool-cases p.must_change_password) [
    | inl x ↦ rw (x, ◌>>=◌) (inr (inr (inl refl), refl))
    | inr x ↦ elim (Bool-cases (e.fault v.calls)) [
      | inl y ↦ rw (x, y, ◌>>=◌) (inr (inr (inl refl), refl))
      | inr y ↦ elim (Bool-cases (has_permission p.user_id permission v.db)) [
        | inr z ↦ rw (x, y, ◌>>=◌, z) (inr (inr (inl refl), refl))
        | inl z ↦
            inl (record v { calls = v.calls + 1 }, refl, x, mfa, z, simp (x, y, ◌>>=◌, z) refl)
      ]
    ]
  ]

  step :
      (v : World)
      → e.fault v.calls ≡ false
      → requires_mfa p.user_id none v.db && not p.mfa_verified ≡ false
      → run (check_mfa (check_permission permission next) p) e v
        ≡ run (check_permission permission next p) e (record v { calls = v.calls + 1 })
  unfolding check_mfa
  step v y z = rw (y, ◌>>=◌, z) refl

  mfa-Passed : (v : World) → Passed v (run (check_mfa (check_permission permission next) p) e v)
  unfolding check_mfa
  mfa-Passed v = elim (Bool-cases (e.fault v.calls)) [
    | inl y ↦ rw (y, ◌>>=◌) (inr (inr (inr refl), refl))
    | inr y ↦ elim (Bool-cases (requires_mfa p.user_id none v.db && not p.mfa_verified)) [
      | inl z ↦ rw (y, ◌>>=◌, z) (inr (inr (inl refl), refl))
      | inr z ↦
          subst (λ r. Passed v r) (sym (step v y z))
            (permission-Passed (record v { calls = v.calls + 1 }) (ground arith))
    ]
  ]

module _ (permission : Text) (next : Principal → Handler) (e : Env) where
  -- Either the cookie names a live session of an active user who has the permission, need not
  -- change the password, and has shown a second factor where the policies ask for one, and then
  -- the handler ran; or the answer is 401, 403 or 500. The database changes only as `Noted` says.
  abbrev pub Guarded : Option Text → World → Type 0
  Guarded cookie w =
      ((token : Text) × (p : Principal) × (u : World) × (cookie ≡ some token)
        × (find_principal (sha256_string e token) e.db_now w.db ≡ some p)
        × (p.must_change_password ≡ false)
        × (not (requires_mfa p.user_id none w.db) || p.mfa_verified ≡ true)
        × (has_permission p.user_id permission w.db ≡ true)
        × Noted e.db_now p.session_id w.db u.db
        × (run (require cookie permission next) e w ≡ run (next p) e u))
      ⊎ (Refusal (run (require cookie permission next) e w).0
          × (((run (require cookie permission next) e w).1.db ≡ w.db)
              ⊎ ((p : Principal) × ((run (require cookie permission next) e w).1.db
                    ≡ touch e.db_now p.session_id w.db))))

  -- The world after the session was looked up.
  abbrev seen : Principal → World → World
  seen p w = record w {
    db = if e.fault (w.calls + 1) then w.db else touch e.db_now p.session_id w.db;
    calls = w.calls + 1 + 1;
  }

  seen-Noted : (p : Principal) (w : World) → Noted e.db_now p.session_id w.db (seen p w).db
  seen-Noted p w = elim (Bool-cases (e.fault (w.calls + 1))) [
    | inl x ↦ rw x (inl refl)
    | inr x ↦ rw x (inr refl)
  ]

  require-seen :
      (token : Text) (p : Principal) (w : World)
      → e.fault w.calls ≡ false
      → find_principal (sha256_string e token) e.db_now w.db ≡ some p
      → run (require (some token) permission next) e w
        ≡ run (check_mfa (check_permission permission next) p) e (seen p w)
  unfolding require with_principal with_principal_raw session_principal
  require-seen token p w y z = simp (y, z, ◌>>=◌) refl

  Guarded-seen :
      (token : Text) (p : Principal) (w : World)
      → e.fault w.calls ≡ false
      → find_principal (sha256_string e token) e.db_now w.db ≡ some p
      → Guarded (some token) w
  Guarded-seen token p w y z =
      let here = require-seen token p w y z in
      let noted = seen-Noted p w in
      let (rights, mfa) =
        Noted-rights e.db_now p.session_id p.user_id permission w.db (seen p w).db noted in
      elim (mfa-Passed permission next p e (seen p w)) [
        | inl (u, same, pw, factor, may, ran) ↦ inl (
          token,
          p,
          u,
          refl,
          z,
          pw,
          ap (λ b. not b || p.mfa_verified) (sym mfa) ∙ factor,
          sym rights ∙ may,
          subst (λ d. Noted e.db_now p.session_id w.db d) (sym same) noted,
          here ∙ ran,
        )
        | inr (refusal, same) ↦ inr (
          subst (λ r. Refusal r.0) (sym here) refusal,
          elim noted [
            | inl k ↦ inl (ap (λ r. r.1.db) here ∙ same ∙ k)
            | inr k ↦ inr (p, ap (λ r. r.1.db) here ∙ same ∙ k)
          ],
        )
      ]

  require-unseen :
      (token : Text) (w : World)
      → found (
          if e.fault w.calls
          then failed
          else row_of (find_principal (sha256_string e token) e.db_now w.db))
        ≡ none
      → run (require (some token) permission next) e w
        ≡ (problem 401 "authentication required", record w { calls = w.calls + 1 })
  unfolding require with_principal with_principal_raw session_principal
  require-unseen token w n = simp (n, ◌>>=◌) refl

  Guarded-unseen :
      (token : Text) (w : World)
      → found (
          if e.fault w.calls
          then failed
          else row_of (find_principal (sha256_string e token) e.db_now w.db))
        ≡ none
      → Guarded (some token) w
  Guarded-unseen token w n =
      let here = require-unseen token w n in
      inr (inl (ap (λ r. r.0.status) here), inl (ap (λ r. r.1.db) here))

  -- A guarded handler runs only for a live session of an active user who has the permission, need
  -- not change the password, and has shown a second factor where the policies ask for one;
  -- otherwise the answer is 401, 403 or 500, and at most the time of the session is noted.
  pub require_lem : (cookie : Option Text) (w : World) → Guarded cookie w
  unfolding require with_principal with_principal_raw session_principal
  require_lem none w = inr (inl refl, inl refl)
  require_lem (some token) w = elim (Bool-cases (e.fault w.calls)) [
    | inl y ↦ Guarded-unseen token w (ground arith)
    | inr y ↦ elim (Option-cases (find_principal (sha256_string e token) e.db_now w.db)) [
      | inl z ↦ Guarded-unseen token w (ground arith)
      | inr (p, z) ↦ Guarded-seen token p w y z
    ]
  ]
