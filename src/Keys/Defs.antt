-- ===== src/Keys/Defs.antt =====
-- `KeyManager`: its statements run on the table `signing_keys` alone, so `World.keys` is that table
-- and a transaction of `Rotate` saves it in a variable.
use open_sso.Prelude.{
  take, drop, ℕ, ◌+◌, Text, text_eq, length, find, map, leb, if◌then◌else◌, Bool, true, false, not,
  List, ◌∷◌, ◌++◌, Option, none, some, select, is_some, coalesce,
}
use open_sso.Store.{SigningKeyRow}
use open_sso.Web.{
  Env, M, ◌>>=◌, ◌>>◌, pure, stop, or_stop, check, ask, draw, Row, failed, no_rows, row, row_of,
  found, Outcome, next, done,
}

pub record SigningKey : Type 0 where
  pub kid : Text
  pub private_key : Text

-- `gcm.NonceSize()`.
abbrev nonce_size : ℕ
nonce_size = 12

-- Statements on `signing_keys`.
abbrev query_key :
    {R : Type 0} → (List SigningKeyRow → Option SigningKeyRow) → M R (Row SigningKeyRow)
query_key f e w =
    (next (if e.fault w.calls then failed else row_of (f w.keys)), record w { calls = w.calls + 1 })

abbrev exec_keys : {R : Type 0} → (List SigningKeyRow → Option (List SigningKeyRow)) → M R Bool
exec_keys f e w =
    let r = (if e.fault w.calls then none else f w.keys) in
    (next (is_some r), record w { keys = coalesce r w.keys; calls = w.calls + 1 })

-- `Begin`, the advisory lock and `Commit` change no row; they may fail.
abbrev no_change : List SigningKeyRow → Option (List SigningKeyRow)
no_change ks = some ks

-- Whether a step went on.
abbrev went_on : {R A : Type 0} → Outcome R A → Bool
went_on (next _) = true
went_on (done _) = false

-- `defer tx.Rollback(ctx)`: without a commit the table is as it was.
abbrev key_transaction : {R A : Type 0} → M R A → M R A
key_transaction m e w =
    let (r, w') = m e w in (r, record w' { keys = if went_on r then w'.keys else w.keys })

-- `SELECT … WHERE active=true LIMIT 1`.
unfoldable pub active_row : List SigningKeyRow → Option SigningKeyRow
active_row = find (λ k. k.active)

-- `UPDATE signing_keys SET active=false,retired_at=now() WHERE active=true`.
abbrev pub retire : ℕ → SigningKeyRow → SigningKeyRow
retire now k = if k.active then record k { active = false; retired_at = some now } else k

-- `INSERT INTO signing_keys`: the kid is unique, and at most one key is active.
unfoldable pub insert_key : SigningKeyRow → List SigningKeyRow → Option (List SigningKeyRow)
unfolding active_row
insert_key k ks = elim (find (λ j. text_eq j.kid k.kid) ks) [
  | some _ ↦ none
  | none ↦ elim (active_row ks) [ some _ ↦ none | none ↦ some (k ∷ ks) ]
]

-- `encryptPrivateKey`: the nonce in front of the sealed DER.
unfoldable pub encrypt_private_key : Text → Text → M (Unit {0}) Text
encrypt_private_key kid der = do
  nonce ← or_stop (← draw) tt
  ask (λ e. nonce ++ e.seal nonce der kid)

-- `decryptPrivateKey`.
unfoldable pub decrypt_private_key : Env → Text → Text → Option Text
decrypt_private_key e kid encrypted =
    if leb (length encrypted) nonce_size
    then none
    else elim (e.open_sealed (take nonce_size encrypted) (drop nonce_size encrypted) kid) [
      | none ↦ none
      | some der ↦ e.parse_private_key der
    ]

-- `rsa.GenerateKey`, which also reads the random source.
abbrev generate : M (Unit {0}) (Text × Text)
generate e w = or_stop (e.generate_key w.draws) tt e (record w { draws = w.draws + 1 })

abbrev or_fail : M (Unit {0}) Bool → M (Unit {0}) (Unit {0})
or_fail m = m >>= λ ok. check ok tt

-- The rest of `Rotate`, once the active key is looked up.
unfoldable pub rotate_from : Row SigningKeyRow → M (Unit {0}) SigningKey
unfolding encrypt_private_key
rotate_from current = do
  now ← ask (λ e. e.db_now)
  or_fail (elim current [
    | failed ↦ pure false
    | no_rows ↦ pure true
    | row _ ↦ exec_keys (λ ks. some (map (retire now) ks))
  ])
  pair ← generate
  kid ← or_stop (← draw) tt
  encrypted ← encrypt_private_key kid pair.0
  jwk ← ask (λ e. e.public_jwk kid pair.1)
  or_fail (
      exec_keys (
        insert_key (record {
          kid = kid;
          encrypted_private_key = encrypted;
          public_jwk = jwk;
          active = true;
          retired_at = none;
        })))
  or_fail (exec_keys no_change)
  pure (record { kid = kid; private_key = pair.0 })

-- `Rotate`.
unfoldable pub rotate : M (Unit {0}) SigningKey
unfolding rotate_from active_row
rotate = do
  or_fail (exec_keys no_change)
  key_transaction (do or_fail (exec_keys no_change); rotate_from (← query_key active_row))

-- What `Active` does with the row that it looked up.
unfoldable pub use_row : Row SigningKeyRow → M (Unit {0}) SigningKey
unfolding decrypt_private_key
use_row failed = stop tt
use_row no_rows = rotate
use_row (row k) = do
  private_key ← or_stop (← ask (λ e. decrypt_private_key e k.kid k.encrypted_private_key)) tt
  pure (record { kid = k.kid; private_key = private_key })

-- `Active`: the active key, or a new one if there is none.
unfoldable pub active : M (Unit {0}) SigningKey
unfolding active_row use_row
active = do use_row (← query_key active_row)

-- `JWKS`: the active key first, then the others, newest first.
unfoldable jwks : List SigningKeyRow → List Text
jwks ks =
    map (λ k. k.public_jwk) (select (λ k. k.active) ks)
    ++ map (λ k. k.public_jwk) (select (λ k. not k.active) ks)

-- `PublicKeyByKID`.
unfoldable pub public_key_by_kid : Text → M (Unit {0}) Text
public_key_by_kid kid = do
  k ← or_stop (found (← query_key (find (λ j. text_eq j.kid kid)))) tt
  or_stop (← ask (λ e. e.jwk_public_key k.public_jwk)) tt
