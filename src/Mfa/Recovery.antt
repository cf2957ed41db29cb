-- ===== src/Mfa/Recovery.antt =====
-- Recovery codes and `ResetUser` of service.go.
use open_sso.Prelude.{
  ℕ, zero, suc, Text, codes, text_eq, trim_space, map, select, find, exists, count, update_where,
  take, drop, leb, ◌==◌, ◌&&◌, not, is_some, Bool, Option, none, some, if◌then◌else◌, ◌-◌, List, [],
  ◌∷◌, ◌++◌,
}
use open_sso.Store.{Db, RecoveryCode}
use open_sso.Web.{
  Env, M, MfaError, invalid_code, failure, ◌>>=◌, ◌>>◌, pure, or_stop, check, ask, draw, found,
  query, query_row, exec, try_exec, commit, transaction, sha256_string,
}
use open_sso.Users.{end_user_sessions}
pub mod Redeem

-- `normalizeRecoveryCode`.
unfoldable pub normalize_recovery_code : Env → Text → Text
normalize_recovery_code e code = e.to_upper (select (λ c. not (c == b'-')) (trim_space code))

-- `… FROM mfa_recovery_codes WHERE user_id=$1 AND code_hash=$2`.
unfoldable pub find_recovery : ℕ → Text → Db → Option RecoveryCode
find_recovery user_id hash db =
    find (λ c. text_eq c.code_hash hash && c.user_id == user_id) db.recovery_codes

-- `UPDATE mfa_recovery_codes SET used_at=now() WHERE id=$1`.
unfoldable pub use_recovery : ℕ → ℕ → Db → Db
use_recovery now id db = record db {
  recovery_codes =
      update_where (λ c. c.id == id) (λ c. record c { used_at = some now }) db.recovery_codes;
}

-- The part in the transaction.
unfoldable pub redeem_recovery : ℕ → Text → M MfaError (Unit {0})
unfolding find_recovery use_recovery
redeem_recovery user_id hash = do
  c ← or_stop (found (← query_row (find_recovery user_id hash))) invalid_code
  check (not (is_some c.used_at)) invalid_code
  now ← ask (λ e. e.db_now)
  used ← exec (use_recovery now c.id)
  check used failure
  committed ← commit
  check committed failure

-- `VerifyRecoveryCode`.
unfoldable pub verify_recovery_code : ℕ → Text → M MfaError (Unit {0})
unfolding normalize_recovery_code redeem_recovery
verify_recovery_code user_id code = do
  hash ← ask (λ e. sha256_string e (normalize_recovery_code e code))
  transaction failure (redeem_recovery user_id hash)

-- Four groups of four characters.
unfoldable format_code : Text → Text
format_code compact =
    take 4 compact
    ++ codes "-"
    ++ take 4 (drop 4 compact)
    ++ codes "-"
    ++ take 4 (drop 8 compact)
    ++ codes "-"
    ++ take 4 (drop 12 compact)

-- `INSERT INTO mfa_recovery_codes`: the hash is unique for a user, and the user has to exist.
unfoldable pub insert_recovery : ℕ → Text → Db → Option Db
insert_recovery user_id hash db =
    if exists (λ c. c.user_id == user_id && text_eq c.code_hash hash) db.recovery_codes
    then none
    else if exists (λ u. u.id == user_id) db.users
    then some (record db {
      recovery_codes =
          record { id = db.next_id; user_id = user_id; code_hash = hash; used_at = none }
          ∷ db.recovery_codes;
      next_id = suc db.next_id;
    })
    else none

-- `generateRecoveryCodesTx`.
unfoldable pub generate_recovery_codes : ℕ → ℕ → M MfaError (List Text)
unfolding format_code insert_recovery normalize_recovery_code
generate_recovery_codes user_id zero = pure []
generate_recovery_codes user_id (suc n) = do
  raw ← or_stop (← draw) failure
  code ← ask (λ e. format_code (e.base32 raw))
  hash ← ask (λ e. sha256_string e (normalize_recovery_code e code))
  stored ← try_exec (insert_recovery user_id hash)
  check stored failure
  rest ← generate_recovery_codes user_id n
  pure (code ∷ rest)

abbrev delete_recovery : ℕ → Db → Db
delete_recovery user_id db = record db {
  recovery_codes = select (λ c. not (c.user_id == user_id)) db.recovery_codes;
}

-- `RegenerateRecoveryCodes`.
unfoldable pub regenerate_recovery_codes : ℕ → M MfaError (List Text)
unfolding generate_recovery_codes
regenerate_recovery_codes user_id = transaction failure (do
  deleted ← exec (delete_recovery user_id)
  check deleted failure
  new ← generate_recovery_codes user_id 10
  committed ← commit
  check committed failure
  pure new)

abbrev pub unused_codes : ℕ → Db → ℕ
unused_codes user_id db =
    count (λ c. c.user_id == user_id && not (is_some c.used_at)) db.recovery_codes

-- `EnsureRecoveryCodes`.
unfoldable pub ensure_recovery_codes : ℕ → M MfaError (List Text)
unfolding regenerate_recovery_codes
ensure_recovery_codes user_id = do
  n ← or_stop (← query (unused_codes user_id)) failure
  (if n == 0 then regenerate_recovery_codes user_id else pure [])

-- The statements of `ResetUser`, in their order.
abbrev pub delete_totp : ℕ → Db → Db
delete_totp user_id db = record db {
  totp_credentials = select (λ c. not (c.user_id == user_id)) db.totp_credentials;
}

abbrev delete_webauthn : ℕ → Db → Db
delete_webauthn user_id db = record db {
  webauthn_credentials = select (λ c. not (c.user_id == user_id)) db.webauthn_credentials;
}

abbrev delete_handle : ℕ → Db → Db
delete_handle user_id db = record db {
  webauthn_users = select (λ u. not (u.user_id == user_id)) db.webauthn_users;
}

-- The loop over the statements.
unfoldable pub exec_all : List (Db → Db) → M MfaError (Unit {0})
exec_all [] = pure tt
exec_all (stmt ∷ stmts) = do ok ← exec stmt; check ok failure; exec_all stmts

unfoldable pub reset_user : ℕ → M MfaError (Unit {0})
unfolding exec_all end_user_sessions
reset_user user_id = transaction failure (do
  now ← ask (λ e. e.db_now)
  exec_all (
      delete_totp user_id
      ∷ delete_recovery user_id
      ∷ delete_webauthn user_id
      ∷ delete_handle user_id
      ∷ end_user_sessions now user_id
      ∷ [])
  committed ← commit
  check committed failure)
