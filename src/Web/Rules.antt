-- ===== src/Web/Rules.antt =====
-- Rules for reasoning about handlers: what holds when a step ends, rule by rule.
use mathlib.Core.Path.{subst}
use open_sso.Web.Replies.{Response}
use open_sso.Prelude.{
  ◌∙◌, ◌⊎◌, inl, inr, arith, coalesce, Bool-cases, ◌≡◌, refl, sym, Option, none, some,
}
use open_sso.Store.{Db}
use open_sso.Web.Externals.{Env, World}
use open_sso.Web.Statements.{
  Outcome, next, done, M, ◌>>=◌, begin, result_of, attempt, rollback, run, value, transaction,
  Handler,
}

module _ {R A : Type 0} where
  -- `Q` holds when the step goes on, `E` when it returns early.
  abbrev pub Post : (A → World → Type 0) → (R → World → Type 0) → Outcome R A × World → Type 0
  Post Q E (next a, w) = Q a w
  Post Q E (done x, w) = E x w

  pub Post-mono :
      (Q Q' : A → World → Type 0) (E E' : R → World → Type 0) (r : Outcome R A × World)
      → Post Q E r
      → ((a : A) (w : World) → Q a w → Q' a w)
      → ((x : R) (w : World) → E x w → E' x w)
      → Post Q' E' r
  Post-mono Q Q' E E' (next a, w) h q x = q a w h
  Post-mono Q Q' E E' (done y, w) h q x = x y w h

module _ {A : Type 0} where
  -- What holds however a function ends holds of its result.
  pub run-Post :
      (Q : A → World → Type 0) (r : Outcome A A × World) → Post Q Q r → Q (value (r.0)) r.1
  run-Post Q (next a, w) h = h
  run-Post Q (done x, w) h = h

module _ {R A B : Type 0} where
  -- The rule for a sequence, by what holds between its parts.
  pub Post-bind :
      (Q' : A → World → Type 0) (Q : B → World → Type 0) (E : R → World → Type 0) (m : M R A)
      (f : A → M R B) (e : Env) (w : World)
      → Post Q' E (m e w)
      → ((a : A) (w' : World) → Q' a w' → Post Q E (f a e w'))
      → Post Q E ((m >>= f) e w)
  Post-bind Q' Q E m f e w h k = split (m e w) h
    where
      split :
          (r : Outcome R A × World)
          → Post Q' E r
          → Post Q E (elim (r.0) [ next a ↦ f a e r.1 | done x ↦ (done x, r.1) ])
      split (next a, w') h' = k a w' h'
      split (done x, w') h' = h'

module _ {R A : Type 0} where
  -- What holds of the world however a step ends.
  pub Post-both :
      (P : World → Type 0) (Q : A → World → Type 0) (E : R → World → Type 0)
      (r : Outcome R A × World)
      → P r.1
      → ((a : A) (w : World) → P w → Q a w)
      → ((x : R) (w : World) → P w → E x w)
      → Post Q E r
  Post-both P Q E (next a, w) h q x = q a w h
  Post-both P Q E (done y, w) h q x = x y w h

-- A step that goes on is left out of account.
pub goes_on :
    {R A B : Type 0} (P : Outcome R B × World → Type 0) (m : M R A) (f : A → M R B) (e : Env)
    (w : World) {a : A} {v : World}
    → m e w ≡ (next a, v)
    → P (f a e v)
    → P ((m >>= f) e w)
goes_on P m f e w h k =
    subst (λ r. P (elim (r.0) [ next a ↦ f a e r.1 | done x ↦ (done x, r.1) ])) (sym h) k

-- The database, what a rollback restores and the counters are as they were.
abbrev pub SameDb : World → World → Type 0
SameDb w w' = (w'.db ≡ w.db) × (w'.saved ≡ w.saved) × (w'.counters ≡ w.counters)

module _ {R A B : Type 0} where
  pub bind-SameDb :
      (m : M R A) (f : A → M R B) (e : Env) (w : World)
      → SameDb w (m e w).1
      → ((a : A) (v : World) → SameDb v (f a e v).1)
      → SameDb w ((m >>= f) e w).1
  bind-SameDb m f e w h k = split (m e w) h
    where
      split :
          (r : Outcome R A × World)
          → SameDb w r.1
          → SameDb w
              (let y : Outcome R B × World = elim (r.0) [
                | next a ↦ f a e r.1
                | done x ↦ (done x, r.1)
              ] in
                y).1
      split (next a, v) h' = let s = k a v in (s.0 ∙ h'.0, s.1 ∙ h'.1, s.2 ∙ h'.2)
      split (done x, v) h' = h'

-- What is known after a call whose error is handled.
abbrev pub Attempted :
    {A : Type 0} → (A → World → Type 0) → (World → Type 0) → Option A → World → Type 0
Attempted Q X none w = X w
Attempted Q X (some a) w = Q a w

module _ {R E A : Type 0} where
  pub attempt-Post :
      (Q : A → World → Type 0) (X : World → Type 0) (N : R → World → Type 0) (m : M E A) (e : Env)
      (w : World)
      → Post Q (λ _. X) (m e w)
      → Post {R = R} (Attempted Q X) N (attempt m e w)
  attempt-Post Q X N m e w h = split (m e w) h
    where
      split :
          (r : Outcome E A × World)
          → Post Q (λ _. X) r
          → Post {R = R} {A = Option A} (Attempted Q X) N (next (result_of (r.0)), r.1)
      split (next a, v) h' = h'
      split (done x, v) h' = h'

-- A handler does all that `Q` says, or keeps the database and refuses as `F` says.
abbrev pub Ends : (Response → Db → Type 0) → (Response → Type 0) → Db → Response × World → Type 0
Ends Q F db (r, w') = Q r (w'.db) ⊎ ((w'.db ≡ db) × F r)

module _ (Q : Response → Db → Type 0) (F : Response → Type 0) where
  -- What the part in a transaction has to ensure, where `db` is what a rollback restores.
  abbrev pub Transacts : Db → Outcome Response Response × World → Type 0
  Transacts db =
      Post (λ r v. Q r v.db × (v.saved ≡ none)) (λ r v. F r × (coalesce v.saved v.db ≡ db))

  rollback-Ends :
      (db : Db) (r : Outcome Response Response × World)
      → Transacts db r
      → Ends Q F db (value (r.0), rollback r.1)
  rollback-Ends db (next a, v) (q, closed) = inl (subst (Q a) (ground arith) q)
  rollback-Ends db (done x, v) (f, kept) = inr (kept, f)

  pub transaction-Ends :
      (failure : Response) (m : Handler) (e : Env) (w : World)
      → F failure
      → ((v : World) → v.db ≡ w.db → v.saved ≡ some w.db → Transacts w.db (m e v))
      → Ends Q F w.db (run (transaction failure m) e w)
  transaction-Ends failure m e w f h = elim (Bool-cases (e.fault w.calls)) [
    | inl x ↦ rw (x, ◌>>=◌) (inr (refl, f))
    | inr x ↦ rw (x, ◌>>=◌) (rollback-Ends w.db (m e begun) (h begun refl (ground arith)))
  ]
    where
      begun : World
      begun = (begin {R = Response} e w).1

module _ {R A : Type 0} (Q : A → Db → Type 0) where
  -- The same for a function that is not a handler: it ends with `Q`, or keeps the database.
  abbrev pub Commits : Db → Outcome R A × World → Type 0
  Commits db = Post (λ a v. Q a v.db × (v.saved ≡ none)) (λ _ v. coalesce v.saved v.db ≡ db)

  rollback-Commits :
      (db : Db) (r : Outcome R A × World)
      → Commits db r
      → Post (λ a v. Q a v.db) (λ _ v. v.db ≡ db) (r.0, rollback r.1)
  rollback-Commits db (next a, v) (q, closed) = subst (Q a) (ground arith) q
  rollback-Commits db (done x, v) kept = kept

  pub transaction-Commits :
      (failure : R) (m : M R A) (e : Env) (w : World)
      → ((v : World) → v.db ≡ w.db → v.saved ≡ some w.db → Commits w.db (m e v))
      → Post (λ a v. Q a v.db) (λ _ v. v.db ≡ w.db) (transaction failure m e w)
  transaction-Commits failure m e w h = elim (Bool-cases (e.fault w.calls)) [
    | inl x ↦ rw (x, ◌>>=◌) refl
    | inr x ↦ rw (x, ◌>>=◌) (rollback-Commits w.db (m e begun) (h begun refl (ground arith)))
  ]
    where
      begun : World
      begun = (begin {R = R} e w).1
