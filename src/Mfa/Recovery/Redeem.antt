-- ===== src/Mfa/Recovery/Redeem.antt =====
-- A recovery code is accepted once.
use open_sso.Prelude.{
  ℕ, Text, text_eq, ◌==◌, ==_refl, ◌&&◌, is_some, Bool, true, false, ◌≡◌, refl, arith, none, some,
  Option-cases, Bool-cases, inl, inr,
}
use open_sso.Store.{Db, RecoveryCode}
use open_sso.Store.Tables.{find-update_where}
use open_sso.Web.{Env, World, MfaError, Outcome, ◌>>=◌, sha256_string, failure, result_of, begin}
use open_sso.Web.Rules.{Post, Post-mono, Commits, transaction-Commits}
use open_sso.Mfa.Recovery.{
  find_recovery, use_recovery, redeem_recovery, verify_recovery_code, normalize_recovery_code,
}

-- The code that is found under the hash is used.
unfoldable is_used : ℕ → Text → Db → Bool
unfolding find_recovery
is_used user_id hash db = elim (find_recovery user_id hash db) [
  | none ↦ false
  | some c ↦ is_some c.used_at
]

use_recovery-is_used :
    (now user_id : ℕ) (hash : Text) (db : Db) (c : RecoveryCode)
    → find_recovery user_id hash db ≡ some c
    → is_used user_id hash (use_recovery now c.id db) ≡ true
unfolding is_used find_recovery use_recovery
use_recovery-is_used now user_id hash db c hit = ground (
  arith,
  ==_refl c.id,
  find-update_where (λ d. text_eq d.code_hash hash && d.user_id == user_id) (λ d. d.id == c.id)
      (λ d. record d { used_at = some now }) (λ d. refl) db.recovery_codes,
)

redeem_recovery-is_used :
    (user_id : ℕ) (hash : Text) (e : Env) (db : Db) (w : World)
    → w.db ≡ db
    → w.saved ≡ some db
    → Commits (λ _ db'. is_used user_id hash db' ≡ true) db (redeem_recovery user_id hash e w)
unfolding redeem_recovery
redeem_recovery-is_used user_id hash e db w same saved =
    elim (Option-cases (find_recovery user_id hash w.db)) [
      | inl n ↦ ground arith
      | inr (c, hit) ↦ ground (arith, use_recovery-is_used e.db_now user_id hash w.db c hit)
    ]

-- The answer to a code that is used is an error.
abbrev pub Rejected : Outcome MfaError (Unit {0}) → Type 0
Rejected r = is_some (result_of r) ≡ false

redeem_recovery-Rejected :
    (user_id : ℕ) (hash : Text) (e : Env) (w : World)
    → is_used user_id hash w.db ≡ true
    → Rejected (redeem_recovery user_id hash e w).0
unfolding redeem_recovery is_used
redeem_recovery-Rejected user_id hash e w h =
    elim (Option-cases (find_recovery user_id hash w.db)) [
      | inl n ↦ ground arith
      | inr (c, hit) ↦ ground arith
    ]

verify_recovery_code-Rejected :
    (user_id : ℕ) (code : Text) (e : Env) (w : World)
    → is_used user_id (sha256_string e (normalize_recovery_code e code)) w.db ≡ true
    → Rejected (verify_recovery_code user_id code e w).0
unfolding verify_recovery_code
verify_recovery_code-Rejected user_id code e w h = elim (Bool-cases (e.fault w.calls)) [
  | inl x ↦ rw (x, ◌>>=◌) refl
  | inr x ↦
      rw (x, ◌>>=◌)
        (redeem_recovery-Rejected user_id (sha256_string e (normalize_recovery_code e code)) e
          (begin {R = MfaError} e w).1 h)
]

-- A recovery code is accepted once: after a check that succeeds, every further check of the same
-- text fails, if the hash function gives the same value; a check that fails keeps the database.
pub verify_recovery_code_once :
    (user_id : ℕ) (code : Text) (e f : Env) (w : World)
    → sha256_string f (normalize_recovery_code f code)
      ≡ sha256_string e (normalize_recovery_code e code)
    → Post
        (λ _ v. Rejected (verify_recovery_code user_id code f v).0)
        (λ _ v. v.db ≡ w.db)
        (verify_recovery_code user_id code e w)
unfolding verify_recovery_code
verify_recovery_code_once user_id code e f w same =
    Post-mono (λ _ v. is_used user_id hash v.db ≡ true)
      (λ _ v. Rejected (verify_recovery_code user_id code f v).0) (λ _ v. v.db ≡ w.db)
      (λ _ v. v.db ≡ w.db) (verify_recovery_code user_id code e w)
      (transaction-Commits (λ _ db. is_used user_id hash db ≡ true) failure
        (redeem_recovery user_id hash) e w
        (λ v kept saved. redeem_recovery-is_used user_id hash e w.db v kept saved))
      (λ _ v used. verify_recovery_code-Rejected user_id code f v (rw same used)) (λ _ v kept. kept)
  where
    hash : Text
    hash = sha256_string e (normalize_recovery_code e code)
