-- ===== src/Web/Statements.antt =====
-- Sequencing with early return, the statements, and transactions.
use open_sso.Prelude.{ℕ, ◌+◌, Text, Bool, Option, none, some, if◌then◌else◌, not, is_some, coalesce}
use open_sso.Store.{Db}
use open_sso.Web.Externals.{Env, World}
use open_sso.Web.Replies.{Response}

-- A step goes on with a value, or returns from the function with an `R`.
pub data Outcome (R A : Type 0) : Type 0 where
  next : A → Outcome R A
  done : R → Outcome R A

abbrev pub M : Type 0 → Type 0 → Type 0
M R A = Env → World → Outcome R A × World

infixl 5 ◌>>=◌ ◌>>◌
abbrev pub ◌>>=◌ : {R A B : Type 0} → M R A → (A → M R B) → M R B
◌>>=◌ m f e w = let (r, w') = m e w in elim r [ next a ↦ f a e w' | done x ↦ (done x, w') ]

abbrev pub ◌>>◌ : {R B : Type 0} → M R (Unit {0}) → M R B → M R B
m >> k = m >>= λ _. k

-- A handler returns a response on every path.
abbrev pub Handler : Type 0
Handler = M Response Response

abbrev pub value : {A : Type 0} → Outcome A A → A
value (next a) = a
value (done a) = a

-- A handler's response, and the world it leaves.
abbrev pub run : {A : Type 0} → M A A → Env → World → A × World
run m e w = let (r, w') = m e w in (value r, w')

module _ {R A : Type 0} where
  abbrev pub pure : A → M R A
  pure a e w = (next a, w)

  abbrev pub stop : R → M R A
  stop x e w = (done x, w)

  -- `if err != nil { return … }`.
  abbrev pub or_stop : Option A → R → M R A
  or_stop o x e w = (elim o [ none ↦ done x | some a ↦ next a ], w)

  abbrev pub ask : (Env → A) → M R A
  ask f e w = (next (f e), w)

abbrev pub check : {R : Type 0} → Bool → R → M R (Unit {0})
check b x e w = (if b then next tt else done x, w)

abbrev pub result_of : {R A : Type 0} → Outcome R A → Option A
result_of (next a) = some a
result_of (done _) = none

-- A function that returns a value or an error, called where errors are handled.
abbrev pub attempt : {R E A : Type 0} → M E A → M R (Option A)
attempt m e w = let (r, w') = m e w in (next (result_of r), w')

-- The same, where an error is answered.
abbrev pub or_answer : {R E A : Type 0} → M E A → (E → R) → M R A
or_answer m f e w = let (r, w') = m e w in (elim r [ next a ↦ next a | done x ↦ done (f x) ], w')

-- The same, where statements are sent on an error.
abbrev pub or_else : {R E A : Type 0} → M E A → (E → M R A) → M R A
or_else m f e w = let (r, w') = m e w in elim r [ next a ↦ (next a, w') | done x ↦ f x e w' ]

-- What `QueryRow(…).Scan` gives.
pub data Row (A : Type 0) : Type 0 where
  failed no_rows : Row A
  row : A → Row A

abbrev pub found : {A : Type 0} → Row A → Option A
found failed = none
found no_rows = none
found (row a) = some a

abbrev pub row_of : {A : Type 0} → Option A → Row A
row_of none = no_rows
row_of (some a) = row a

module _ {R : Type 0} where
  abbrev pub query : {A : Type 0} → (Db → A) → M R (Option A)
  query f e w =
      (next (if e.fault w.calls then none else some (f w.db)), record w { calls = w.calls + 1 })

  abbrev pub query_row : {A : Type 0} → (Db → Option A) → M R (Row A)
  query_row f e w =
      (next (if e.fault w.calls then failed else row_of (f w.db)), record w { calls = w.calls + 1 })

  -- A statement that writes; `none` is a violated constraint. The result says whether it succeeded.
  abbrev pub try_exec : (Db → Option Db) → M R Bool
  try_exec f e w =
      let r = (if e.fault w.calls then none else f w.db) in
      (next (is_some r), record w { db = coalesce r w.db; calls = w.calls + 1 })

  abbrev pub exec : (Db → Db) → M R Bool
  exec f e w = (
    next (not (e.fault w.calls)),
    record w { db = if e.fault w.calls then w.db else f w.db; calls = w.calls + 1 },
  )

  -- A statement whose `RowsAffected` is read.
  abbrev pub exec_count : (Db → ℕ) → (Db → Db) → M R (Option ℕ)
  exec_count affected f e w = (
    next (if e.fault w.calls then none else some (affected w.db)),
    record w { db = if e.fault w.calls then w.db else f w.db; calls = w.calls + 1 },
  )

  -- The same, for a statement that may violate a constraint.
  abbrev pub try_exec_count : (Db → ℕ) → (Db → Option Db) → M R (Option ℕ)
  try_exec_count affected f e w =
      let r = (if e.fault w.calls then none else f w.db) in
      (
        next (if is_some r then some (affected w.db) else none),
        record w { db = coalesce r w.db; calls = w.calls + 1 },
      )

  -- An insert that returns what `g` gives on the table it finds.
  abbrev pub insert_returning : {A : Type 0} → (Db → A) → (Db → Option Db) → M R (Option A)
  insert_returning g f e w =
      let r = (if e.fault w.calls then none else f w.db) in
      (
        next (if is_some r then some (g w.db) else none),
        record w { db = coalesce r w.db; calls = w.calls + 1 },
      )

  -- An update that returns what `g` gives of the row it finds; `none` without a row.
  abbrev pub update_returning : {A : Type 0} → (Db → Option A) → (Db → Db) → M R (Option A)
  update_returning g f e w = (
    next (if e.fault w.calls then none else g w.db),
    record w { db = if e.fault w.calls then w.db else f w.db; calls = w.calls + 1 },
  )

  -- A statement whose error is ignored.
  abbrev pub exec_ : (Db → Db) → M R (Unit {0})
  exec_ f e w =
      (next tt, record w { db = if e.fault w.calls then w.db else f w.db; calls = w.calls + 1 })

  abbrev pub begin : M R Bool
  begin e w = (
    next (not (e.fault w.calls)),
    record w { saved = if e.fault w.calls then w.saved else some w.db; calls = w.calls + 1 },
  )

  -- A commit that fails has rolled back. Either way the transaction is closed.
  abbrev pub commit : M R Bool
  commit e w = (
    next (not (e.fault w.calls)),
    record w {
      db = if e.fault w.calls then coalesce w.saved w.db else w.db;
      saved = none;
      calls = w.calls + 1;
    },
  )

  -- The next text of the random source: `security.RandomToken`, `security.RandomUUID`.
  abbrev pub draw : M R (Option Text)
  draw e w = (next (e.entropy w.draws), record w { draws = w.draws + 1 })

-- `tx.Rollback`, which does nothing after a commit.
abbrev pub rollback : World → World
rollback w = record w { db = coalesce w.saved w.db; saved = none }

-- `defer tx.Rollback(ctx)` over the rest of a function.
abbrev pub defer_rollback : {R A : Type 0} → M R A → M R A
defer_rollback m e w = let (r, w') = m e w in (r, rollback w')

-- `tx, err := s.db.Begin(ctx)`, the answer if that fails, `defer tx.Rollback(ctx)` and the rest.
abbrev pub transaction : {R A : Type 0} → R → M R A → M R A
transaction failure m = do started ← begin; check started failure; defer_rollback m
