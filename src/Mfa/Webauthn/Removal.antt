-- ===== src/Mfa/Webauthn/Removal.antt =====
-- The last factor that a policy requires cannot be removed: `DeleteWebAuthn`.
use open_sso.Prelude.{ℕ, ◌≤◌, ◌||◌, ◌==◌, not, count, true, ◌≡◌, arith, none}
use open_sso.Store.{Db}
use open_sso.Store.Tables.{count-select, count-both}
use open_sso.Web.{Env, World}
use open_sso.Web.Rules.{Post}
use open_sso.Mfa.Policy.{requires_mfa, required, factors}
use open_sso.Mfa.Webauthn.{keep_key, delete_key}

abbrev pub StillHasFactor : ℕ → Db → Db → Type 0
StillHasFactor user_id db db' =
    not (requires_mfa user_id none db) || (factors user_id db').has_primary_factor ≡ true

-- If the deletion of a security key succeeds, the user still has a primary factor where the
-- policies require one; the id names at most one key.
pub delete_key-StillHasFactor :
    (user_id id : ℕ) (e : Env) (w : World)
    → count (λ c. c.id == id) w.db.webauthn_credentials ≤ 1
    → Post (λ _ v. StillHasFactor user_id w.db v.db) (λ _ _. Unit) (delete_key user_id id e w)
unfolding delete_key keep_key required factors
delete_key-StillHasFactor user_id id e w unique = ground (
  arith,
  count-select (λ c. c.user_id == user_id) (λ c. c.id == id) w.db.webauthn_credentials,
  count-both (λ c. c.user_id == user_id) (λ c. c.id == id) w.db.webauthn_credentials,
)
