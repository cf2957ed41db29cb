-- ===== src/Web/Invariants.antt =====
-- A property of the database that a function keeps, step by step, with what a rollback restores.
use open_sso.Prelude.{
  ℕ, Bool, true, false, Option, none, some, coalesce, Bool-cases, inl, inr, if◌then◌else◌,
}
use open_sso.Store.{Db}
use open_sso.Web.Externals.{Env, World}
use open_sso.Web.Rules.{Post}
use open_sso.Web.Statements.{
  Outcome, next, done, M, ◌>>=◌, pure, or_stop, ask, check, draw, exec, try_exec, try_exec_count,
  insert_returning, commit, begin, rollback, transaction,
}

module _ (P : Db → Type 0) (e : Env) where
  abbrev pub Held : World → Type 0
  Held w = P w.db × P (coalesce w.saved w.db)

  -- Whatever holds before the step holds after it.
  pub data Preserves {R A : Type 0} (m : M R A) : Type 0 where
    preserves : ((w : World) → Held w → Held (m e w).1) → Preserves m

  pub held : {R A : Type 0} (m : M R A) → Preserves m → (w : World) → Held w → Held (m e w).1
  held m (preserves h) = h

  restored : (o : Option Db) (d d' : Db) → P (coalesce o d) → P d' → P (coalesce o d')
  restored none d d' h k = k
  restored (some s) d d' h k = h

  written :
      (b : Bool) (d : Db) (w : World)
      → P d
      → Held w
      → P (if b then w.db else d) × P (coalesce w.saved (if b then w.db else d))
  written true d w p h = h
  written false d w p h = (p, restored w.saved w.db d h.1 p)

  -- What a statement that may violate a constraint writes, if it does.
  abbrev pub Written : Option Db → Type 0
  Written none = Unit
  Written (some d) = P d

  abbrev pub Stores : (Db → Option Db) → Type 0
  Stores f = (d : Db) → P d → Written (f d)

  stored :
      (o : Option Db) (w : World)
      → Written o
      → Held w
      → P (coalesce o w.db) × P (coalesce w.saved (coalesce o w.db))
  stored none w p h = h
  stored (some d) w p h = (p, restored w.saved w.db d h.1 p)

  tried :
      (b : Bool) (f : Db → Option Db) (w : World)
      → Stores f
      → Held w
      → let o = (if b then none else f w.db) in
        P (coalesce o w.db) × P (coalesce w.saved (coalesce o w.db))
  tried true f w k h = h
  tried false f w k h = stored (f w.db) w (k w.db h.0) h

  committed :
      (b : Bool) (w : World)
      → Held w
      → let d = (if b then coalesce w.saved w.db else w.db) in P d × P d
  committed true w h = (h.1, h.1)
  committed false w h = (h.0, h.0)

  opened :
      (b : Bool) (w : World)
      → Held w
      → P w.db × P (coalesce (if b then w.saved else some w.db) w.db)
  opened true w h = h
  opened false w h = (h.0, h.0)

  closed : (v : World) → Held v → Held (rollback v)
  closed v h = (h.1, h.1)

  module _ {R A : Type 0} where
    pub pure-Preserves : (a : A) → Preserves {R = R} (pure a)
    pure-Preserves a = preserves (λ w h. h)

    pub or_stop-Preserves : (o : Option A) (x : R) → Preserves (or_stop o x)
    or_stop-Preserves o x = preserves (λ w h. h)

    pub ask-Preserves : (f : Env → A) → Preserves {R = R} (ask f)
    ask-Preserves f = preserves (λ w h. h)

  module _ {R : Type 0} where
    pub check-Preserves : (b : Bool) (x : R) → Preserves (check b x)
    check-Preserves b x = preserves (λ w h. h)

    pub draw-Preserves : Preserves (draw {R = R})
    draw-Preserves = preserves (λ w h. h)

    pub exec-Preserves : (f : Db → Db) → ((d : Db) → P d → P (f d)) → Preserves (exec {R = R} f)
    exec-Preserves f k = preserves (λ w h. written (e.fault w.calls) (f w.db) w (k w.db h.0) h)

    pub try_exec-Preserves : (f : Db → Option Db) → Stores f → Preserves (try_exec {R = R} f)
    try_exec-Preserves f k = preserves (λ w h. tried (e.fault w.calls) f w k h)

    pub try_exec_count-Preserves :
        (n : Db → ℕ) (f : Db → Option Db) → Stores f → Preserves (try_exec_count {R = R} n f)
    try_exec_count-Preserves n f k = preserves (λ w h. tried (e.fault w.calls) f w k h)

    pub insert_returning-Preserves :
        {A : Type 0} (g : Db → A) (f : Db → Option Db)
        → Stores f
        → Preserves (insert_returning {R = R} g f)
    insert_returning-Preserves g f k = preserves (λ w h. tried (e.fault w.calls) f w k h)

    pub commit-Preserves : Preserves (commit {R = R})
    commit-Preserves = preserves (λ w h. committed (e.fault w.calls) w h)

  module _ {R A B : Type 0} where
    pub bind-Preserves :
        (m : M R A) (f : A → M R B)
        → Preserves m
        → ((a : A) → Preserves (f a))
        → Preserves (m >>= f)
    bind-Preserves m f h k = preserves (λ w holds. split (m e w) (held m h w holds))
      where
        split :
            (r : Outcome R A × World)
            → Held r.1
            → Held
                (let y : Outcome R B × World = elim (r.0) [
                  | next a ↦ f a e r.1
                  | done x ↦ (done x, r.1)
                ] in
                  y).1
        split (next a, v) h' = held (f a) (k a) v h'
        split (done x, v) h' = h'

    -- The same, where the rest relies on what the step made sure of.
    pub bind_when-Preserves :
        (Q : A → Type 0) (m : M R A) (f : A → M R B)
        → ((w : World) → Held w → Post (λ a v. Held v × Q a) (λ _ v. Held v) (m e w))
        → ((a : A) → Q a → Preserves (f a))
        → Preserves (m >>= f)
    bind_when-Preserves Q m f h k = preserves (λ w holds. split (m e w) (h w holds))
      where
        split :
            (r : Outcome R A × World)
            → Post (λ a v. Held v × Q a) (λ _ v. Held v) r
            → Held
                (let y : Outcome R B × World = elim (r.0) [
                  | next a ↦ f a e r.1
                  | done x ↦ (done x, r.1)
                ] in
                  y).1
        split (next a, v) h' = held (f a) (k a h'.1) v h'.0
        split (done x, v) h' = h'

  module _ {R A : Type 0} where
    pub transaction-Preserves :
        (failure : R) (m : M R A) → Preserves m → Preserves (transaction failure m)
    transaction-Preserves failure m k = preserves (λ w h. elim (Bool-cases (e.fault w.calls)) [
      | inl x ↦ rw (x, ◌>>=◌) (opened (e.fault w.calls) w h)
      | inr x ↦
          rw (x, ◌>>=◌)
            (closed (m e (begin {R = R} e w).1).1
              (held m k (begin {R = R} e w).1 (opened (e.fault w.calls) w h)))
    ])

pub ruleset preserving = (
  pure-Preserves, or_stop-Preserves, ask-Preserves, check-Preserves, draw-Preserves,
  commit-Preserves, bind-Preserves, transaction-Preserves, exec-Preserves, try_exec-Preserves,
  try_exec_count-Preserves, insert_returning-Preserves,
)
