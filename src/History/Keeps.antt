-- ===== src/History/Keeps.antt =====
-- Rules for what a handler keeps, whichever of its calls fail.
use open_sso.Prelude.{
  Bool, true, false, Option, none, some, coalesce, if◌then◌else◌, ◌≡◌, refl, ℕ, ◌+◌,
}
use open_sso.Store.{Db}
use open_sso.Web.{
  Env, World, Outcome, next, done, M, ◌>>=◌, ◌>>◌, pure, stop, or_stop, or_answer, or_else, attempt,
  ask, check, draw, query, query_row, exec, exec_, exec_count, try_exec, try_exec_count,
  update_returning, insert_returning, commit, begin, defer_rollback, transaction,
}
use open_sso.History.Guarded.{Guarded, Guarded-refl, Guarded-trans}

-- The database follows from `db`, and so does what a rollback goes back to.
abbrev pub Follows : Db → World → Type 0
Follows db w = Guarded db w.db × Guarded db (coalesce w.saved w.db)

-- From whatever follows, the step leads to what follows.
pub data Keeps {E A : Type 0} (m : M E A) : Type 0 where
  keeps : ((db : Db) (e : Env) (w : World) → Follows db w → Follows db (m e w).1) → Keeps m

pub carry :
    {E A : Type 0} (m : M E A)
    → Keeps m
    → (db : Db) (e : Env) (w : World) → Follows db w
    → Follows db (m e w).1
carry m (keeps h) = h

-- The steps that leave the world's databases as they are.
abbrev pub StaysAt : World → World → Type 0
StaysAt w v = (v.db ≡ w.db) × (v.saved ≡ w.saved)

stays : (db : Db) (w v : World) → StaysAt w v → Follows db w → Follows db v
stays db w v (d, s) h = rw (d, s) h

pub quiet : {E A : Type 0} {m : M E A} → ((e : Env) (w : World) → StaysAt w (m e w).1) → Keeps m
quiet {m = m} h = keeps (λ db e w start. stays db w ((m e w).1) (h e w) start)

module _ {E A : Type 0} where
  pub pure-Keeps : (a : A) → Keeps {E = E} (pure a)
  pure-Keeps a = quiet (λ e w. (refl, refl))

  pub stop-Keeps : (x : E) → Keeps {A = A} (stop x)
  stop-Keeps x = quiet (λ e w. (refl, refl))

  pub or_stop-Keeps : (o : Option A) (x : E) → Keeps (or_stop o x)
  or_stop-Keeps o x = quiet (λ e w. (refl, refl))

  pub ask-Keeps : (f : Env → A) → Keeps {E = E} (ask f)
  ask-Keeps f = quiet (λ e w. (refl, refl))

  pub query-Keeps : (f : Db → A) → Keeps {E = E} (query f)
  query-Keeps f = quiet (λ e w. (refl, refl))

  pub query_row-Keeps : (f : Db → Option A) → Keeps {E = E} (query_row f)
  query_row-Keeps f = quiet (λ e w. (refl, refl))

module _ {E : Type 0} where
  pub check-Keeps : (b : Bool) (x : E) → Keeps (check b x)
  check-Keeps b x = quiet (λ e w. (refl, refl))

  pub draw-Keeps : Keeps {E = E} draw
  draw-Keeps = quiet (λ e w. (refl, refl))

-- A world that only the current database of has changed, to what follows from it.
written :
    (db : Db) (w : World) (b : Db) (n : ℕ)
    → Follows db w
    → Guarded w.db b
    → Follows db (record w { db = b; calls = n })
written db w b n (h, s) g = (Guarded-trans db w.db b h g, kept (w.saved) s)
  where
    kept : (o : Option Db) → Guarded db (coalesce o w.db) → Guarded db (coalesce o b)
    kept none t = Guarded-trans db w.db b t g
    kept (some d) t = t

-- A statement keeps what its function keeps, whether it fails or not.
if_sent : (a b : Db) (fails : Bool) → Guarded a b → Guarded a (if fails then a else b)
if_sent a b true g = Guarded-refl a
if_sent a b false g = g

module _ (f : Db → Db) (g : (a : Db) → Guarded a (f a)) where
  sent :
      (db : Db) (e : Env) (w : World)
      → Follows db w
      → Follows db (record w { db = if e.fault w.calls then w.db else f w.db; calls = w.calls + 1 })
  sent db e w start =
      written db w (if e.fault w.calls then w.db else f w.db) (w.calls + 1) start
        (if_sent w.db (f w.db) (e.fault w.calls) (g w.db))

  pub exec-Keeps : {E : Type 0} → Keeps {E = E} (exec f)
  exec-Keeps = keeps sent

  pub exec_-Keeps : {E : Type 0} → Keeps {E = E} (exec_ f)
  exec_-Keeps = keeps sent

  pub exec_count-Keeps : {E : Type 0} (n : Db → ℕ) → Keeps {E = E} (exec_count n f)
  exec_count-Keeps n = keeps sent

  pub update_returning-Keeps :
      {E A : Type 0} (h : Db → Option A) → Keeps {E = E} (update_returning h f)
  update_returning-Keeps h = keeps sent

-- What a statement leaves if it succeeds.
abbrev pub Stores : Db → Option Db → Type 0
Stores a none = Unit
Stores a (some b) = Guarded a b

stored_or_kept : (a : Db) (o : Option Db) → Stores a o → Guarded a (coalesce o a)
stored_or_kept a none g = Guarded-refl a
stored_or_kept a (some b) g = g

if_stored :
    (a : Db) (o : Option Db) (fails : Bool)
    → Stores a o
    → Guarded a (coalesce (if fails then none else o) a)
if_stored a o true g = Guarded-refl a
if_stored a o false g = stored_or_kept a o g

module _ (f : Db → Option Db) (g : (a : Db) → Stores a (f a)) where
  tried :
      (db : Db) (e : Env) (w : World)
      → Follows db w
      → Follows db (record w {
        db = coalesce (if e.fault w.calls then none else f w.db) w.db;
        calls = w.calls + 1;
      })
  tried db e w start =
      written db w (coalesce (if e.fault w.calls then none else f w.db) w.db) (w.calls + 1) start
        (if_stored w.db (f w.db) (e.fault w.calls) (g w.db))

  pub try_exec-Keeps : {E : Type 0} → Keeps {E = E} (try_exec f)
  try_exec-Keeps = keeps tried

  pub try_exec_count-Keeps : {E : Type 0} (n : Db → ℕ) → Keeps {E = E} (try_exec_count n f)
  try_exec_count-Keeps n = keeps tried

  pub insert_returning-Keeps : {E A : Type 0} (n : Db → A) → Keeps {E = E} (insert_returning n f)
  insert_returning-Keeps n = keeps tried

module _ {E : Type 0} where
  begin-Keeps : Keeps {E = E} begin
  begin-Keeps = keeps (λ db e w start. (start.0, opened db w (e.fault w.calls) start))
    where
      opened :
          (db : Db) (w : World) (b : Bool)
          → Follows db w
          → Guarded db (coalesce (if b then w.saved else some w.db) w.db)
      opened db w true (h, s) = s
      opened db w false (h, s) = h

  pub commit-Keeps : Keeps {E = E} commit
  commit-Keeps = keeps (λ db e w start. ended db w (e.fault w.calls) start)
    where
      ended :
          (db : Db) (w : World) (b : Bool)
          → Follows db w
          → Follows db (record w {
            db = if b then coalesce w.saved w.db else w.db;
            saved = none;
            calls = w.calls + 1;
          })
      ended db w true (h, s) = (s, s)
      ended db w false (h, s) = (h, h)

module _ {E A B : Type 0} where
  pub bind-Keeps : {m : M E A} {f : A → M E B} → Keeps m → ((a : A) → Keeps (f a)) → Keeps (m >>= f)
  bind-Keeps {m = m} {f = f} (keeps h) k =
      keeps (λ db e w start. split db e (m e w) (h db e w start))
    where
      split :
          (db : Db) (e : Env) (r : Outcome E A × World)
          → Follows db r.1
          → Follows db
              (let y : Outcome E B × World = elim (r.0) [
                | next a ↦ f a e r.1
                | done x ↦ (done x, r.1)
              ] in
                y).1
      split db e (next a, w) start = carry (f a) (k a) db e w start
      split db e (done x, w) start = start

module _ {E A : Type 0} where
  -- A rollback goes back to what follows, too.
  pub transaction-Keeps : (failure : E) (m : M E A) → Keeps m → Keeps (transaction failure m)
  transaction-Keeps failure m h =
      bind-Keeps {m = begin} {f = λ b. check b failure >> defer_rollback m} begin-Keeps (λ b.
        bind-Keeps {m = check b failure} {f = λ _. defer_rollback m} (check-Keeps b failure)
          (λ _. keeps rolled))
    where
      rolled : (db : Db) (e : Env) (w : World) → Follows db w → Follows db (defer_rollback m e w).1
      rolled db e w start = let (p, s) = carry m h db e w start in (s, s)

  pub attempt-Keeps : {R : Type 0} (m : M E A) → Keeps m → Keeps {E = R} (attempt m)
  attempt-Keeps m (keeps h) = keeps h

module _ {R E A : Type 0} where
  pub or_answer-Keeps : (m : M E A) (f : E → R) → Keeps m → Keeps (or_answer m f)
  or_answer-Keeps m f h = keeps (λ db e w start. carry m h db e w start)

  pub or_else-Keeps :
      (m : M E A) (f : E → M R A) → Keeps m → ((x : E) → Keeps (f x)) → Keeps (or_else m f)
  or_else-Keeps m f h k = keeps (λ db e w start. split db e (m e w) (carry m h db e w start))
    where
      split :
          (db : Db) (e : Env) (r : Outcome E A × World)
          → Follows db r.1
          → Follows db
              (let y : Outcome R A × World = elim (r.0) [
                | next a ↦ (next a, r.1)
                | done x ↦ f x e r.1
              ] in
                y).1
      split db e (next a, w) start = start
      split db e (done x, w) start = carry (f x) (k x) db e w start

module _ {E A : Type 0} where
  pub if-Keeps : (b : Bool) (m n : M E A) → Keeps m → Keeps n → Keeps (if b then m else n)
  if-Keeps true m n h k = h
  if-Keeps false m n h k = k

  pub elim-Keeps :
      {X : Type 0} (o : Option X) (m : M E A) (f : X → M E A)
      → Keeps m
      → ((x : X) → Keeps (f x))
      → Keeps (elim o [ none ↦ m | some x ↦ f x ])
  elim-Keeps none m f h k = h
  elim-Keeps (some x) m f h k = k x

pub ruleset steps = (
  pure-Keeps, stop-Keeps, or_stop-Keeps, ask-Keeps, query-Keeps, query_row-Keeps, check-Keeps,
  draw-Keeps, exec-Keeps, exec_-Keeps, exec_count-Keeps, update_returning-Keeps, try_exec-Keeps,
  try_exec_count-Keeps, insert_returning-Keeps, commit-Keeps, bind-Keeps, transaction-Keeps,
  attempt-Keeps, or_answer-Keeps, or_else-Keeps, if-Keeps, elim-Keeps,
)
