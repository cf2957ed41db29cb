-- ===== src/Login/Admission.antt =====
-- Who is logged in: `login`.
use mathlib.Core.Path.{subst}
use open_sso.Prelude.{
  ◌+◌, Text, trim_space, ◌==◌, ◌||◌, not, Bool, true, false, ◌≡◌, refl, sym, arith, ◌⊎◌, Option,
  none, some, ℕ, ◌<◌, ◌≢◌, ◌&&◌, text_eq, find, exists, Bool-cases, Option-cases, inl, inr,
}
use open_sso.Store.{Db, SecurityPolicy, User, PasswordCredential}
use open_sso.Web.{Env, World, Response, Outcome, next, done, run, value, ◌>>=◌}
use open_sso.Web.Rules.{Post, Post-bind}
use open_sso.Web.Limits.{allow_login, allow, incr, expire, admit}
use open_sso.Policy.{get_security_policy}
use open_sso.Password.{verify_password}
use open_sso.Login.{
  Account, find_account, admits, accepted_account, refuse, answer_login, try_login, login,
}

-- The account exists, is active and not locked, and the password fits.
unfoldable pub is_admitted : Env → Text → Text → Db → Bool
unfolding admits
is_admitted e username password db = elim (find_account e (trim_space username) db) [
  | none ↦ false
  | some a ↦ admits e a password
]

-- The answer is 200 only for an account that is admitted.
abbrev Passes : Env → Text → Text → Db → Response → Type 0
Passes e username password db r = not (r.status == 200) || is_admitted e username password db ≡ true

allow_login-db :
    (E : Response → World → Type 0) (ip : Text) (e : Env) (w : World)
    → Post {R = Response} (λ _ v. v.db ≡ w.db) E (allow_login ip e w)
unfolding allow_login allow incr admit expire
allow_login-db E ip e w = ground arith

from_Post :
    (C : Response → Type 0) (r : Outcome Response Response × World)
    → Post (λ x _. C x) (λ x _. C x) r
    → C (value (r.0))
from_Post C (next a, v) h = h
from_Post C (done x, v) h = h

to_Post :
    (C : Response → Type 0) (r : Outcome Response Response × World)
    → C (value (r.0))
    → Post (λ x _. C x) (λ x _. C x) r
to_Post C (next a, v) h = h
to_Post C (done x, v) h = h

refuse_lem :
    (p : SecurityPolicy) (a : Option Account) (e : Env) (w : World)
    → (value (refuse p a e w).0).status ≡ 401
unfolding refuse
refuse_lem p none e w = refl
refuse_lem p (some a) e w = refl

module _ (username password : Text) (e : Env) (db : Db) where
  abbrev Fits : Response → Type 0
  Fits = Passes e username password db

  refused : (p : SecurityPolicy) (a : Option Account) (v : World) → Fits (value (refuse p a e v).0)
  refused p a v = ground (arith, refuse_lem p a e v)

  admitted :
      (a : Account)
      → find_account e (trim_space username) db ≡ some a
      → admits e a password ≡ true
      → is_admitted e username password db ≡ true
  unfolding is_admitted
  admitted a h y = rw (is_admitted, h) y

  -- The answer to an account that was looked up.
  answered :
      (p : SecurityPolicy) (a : Option Account) (v : World)
      → (a ≡ none) ⊎ (a ≡ find_account e (trim_space username) db)
      → Fits (value (answer_login p a (accepted_account e a password) e v).0)
  answered p none v h = refused p none v
  answered p (some a) v (inl h) = ground arith
  answered p (some a) v (inr h) = elim (Bool-cases (admits e a password)) [
    | inl y ↦ ground (arith, admitted a (sym h) y)
    | inr n ↦ rw n (refused p (some a) v)
  ]

try_login-Passes :
    (username password : Text) (allowed : Bool) (e : Env) (v : World)
    → Passes e username password v.db (value (try_login username password allowed e v).0)
unfolding try_login get_security_policy
try_login-Passes username password false e v = refl
try_login-Passes username password true e v = elim (Bool-cases (e.fault v.calls)) [
  | inl x ↦ rw (x, ◌>>=◌) refl
  | inr x ↦ elim (Bool-cases (e.fault (v.calls + 1))) [
    | inl y ↦
        rw (x, y, ◌>>=◌) (answered username password e v.db v.db.policy none looked (inl refl))
    | inr y ↦ elim (Option-cases (find_account e (trim_space username) v.db)) [
      | inl n ↦
          rw (x, y, n, ◌>>=◌) (answered username password e v.db v.db.policy none looked (inl refl))
      | inr (a, hit) ↦
          rw (x, y, hit, ◌>>=◌)
            (answered username password e v.db v.db.policy (some a) looked (inr (sym hit)))
    ]
  ]
]
  where
    looked : World
    looked = record v { calls = v.calls + 1 + 1 }

login-Passes :
    (ip username password : Text) (e : Env) (w : World)
    → Passes e username password w.db (run (login ip username password) e w).0
unfolding login
login-Passes ip username password e w = from_Post C (login ip username password e w) (
    Post-bind (λ _ v. v.db ≡ w.db) (λ r _. C r) (λ r _. C r) (allow_login ip)
      (try_login username password) e w (allow_login-db (λ r _. C r) ip e w)
      (λ allowed v same. to_Post C (try_login username password allowed e v) (
        subst
          (λ db. Passes e username password db (value (try_login username password allowed e v).0))
          same (try_login-Passes username password allowed e v))))
  where
    C : Response → Type 0
    C = Passes e username password w.db

-- The user has that name or address, and a password.
abbrev pub named : Env → Text → Db → User → Bool
named e name db u =
    (text_eq (e.lower u.username) (e.lower name) || text_eq (e.lower u.email) (e.lower name))
    && exists (λ c. c.user_id == u.id) db.passwords

-- A user with that name or address, who has a password, is active and not locked, and whose stored
-- hash verifies the password.
abbrev pub Admitted : Env → Text → Text → Db → Type 0
Admitted e name password db =
    (u : User) × (c : PasswordCredential) × (find (named e name db) db.users ≡ some u)
    × (find (λ d. d.user_id == u.id) db.passwords ≡ some c)
    × (u.active ≡ true)
    × ((u.locked_until ≡ none) ⊎ ((t : ℕ) × (u.locked_until ≡ some t) × (t < e.now)))
    × (verify_password e c.password_hash password ≡ true)

admits_parts :
    (e : Env) (a : Account) (password : Text)
    → admits e a password ≡ true
    → (a.user.active ≡ true)
      × ((a.user.locked_until ≡ none) ⊎ ((t : ℕ) × (a.user.locked_until ≡ some t) × (t < e.now)))
      × (verify_password e a.password_hash password ≡ true)
unfolding admits
admits_parts e a password h = elim (Option-cases a.user.locked_until) [
  | inl n ↦ (ground (arith, h), inl n, ground (arith, h))
  | inr (t, n) ↦ (ground (arith, h), inr (t, n, ground (arith, h, n)), ground (arith, h))
]

is_admitted_lem :
    (e : Env) (username password : Text) (db : Db)
    → is_admitted e username password db ≡ true
    → Admitted e (trim_space username) password db
unfolding is_admitted find_account
is_admitted_lem e username password db h =
    elim (Option-cases (find (named e (trim_space username) db) db.users)) [
      | inl n ↦ ground (arith, h, n)
      | inr (u, n) ↦ elim (Option-cases (find (λ d. d.user_id == u.id) db.passwords)) [
        | inl m ↦ ground (arith, h, n, m)
        | inr (c, m) ↦
            let (active, unlocked, known) =
              admits_parts e (record { user = u; password_hash = c.password_hash }) password
                (ground (arith, h, n, m)) in
            (u, c, n, m, active, unlocked, known)
      ]
    ]

-- A login that answers 200 has found a user with that name or address who has a password, is
-- active and has no lock or one that has ended, and whose stored hash verifies the password,
-- whichever calls fail.
pub login-Admits :
    (ip username password : Text) (e : Env) (w : World)
    → ((run (login ip username password) e w).0.status ≢ 200)
      ⊎ Admitted e (trim_space username) password w.db
login-Admits ip username password e w = elim (Bool-cases (is_admitted e username password w.db)) [
  | inl y ↦ inr (is_admitted_lem e username password w.db y)
  | inr n ↦ inl (ground (arith, n, login-Passes ip username password e w))
]
