-- ===== src/Keys/Frame.antt =====
-- The key manager writes to the table of signing keys only.
use open_sso.Prelude.{◌+◌, arith, if◌then◌else◌}
use open_sso.Store.{SigningKeyRow}
use open_sso.Web.{Env, World, Row, failed, no_rows, row, row_of}
use open_sso.Web.Rules.{SameDb}
use open_sso.Keys.Defs.{rotate, active, active_row, use_row}

pub rotate-SameDb : (e : Env) (w : World) → SameDb w (rotate e w).1
unfolding rotate
rotate-SameDb e w = ground arith

use_row-SameDb : (r : Row SigningKeyRow) (e : Env) (w : World) → SameDb w (use_row r e w).1
unfolding use_row
use_row-SameDb failed e w = ground arith
use_row-SameDb no_rows e w = rotate-SameDb e w
use_row-SameDb (row k) e w = ground arith

-- Looking up the active key, also when it makes the first one, leaves the database alone.
pub active-SameDb : (e : Env) (w : World) → SameDb w (active e w).1
unfolding active
active-SameDb e w =
    use_row-SameDb (if e.fault w.calls then failed else row_of (active_row w.keys)) e
      (record w { calls = w.calls + 1 })
