-- ===== src/Mfa/Totp/Removal.antt =====
-- The last factor that a policy requires cannot be removed: `DisableTOTP`.
use open_sso.Prelude.{ℕ, ◌||◌, ◌==◌, not, exists, true, false, ◌≡◌, arith, none}
use open_sso.Store.{Db}
use open_sso.Store.Tables.{exists-select}
use open_sso.Web.{Env, World}
use open_sso.Web.Rules.{Post}
use open_sso.Mfa.Policy.{requires_mfa, required, factors}
use open_sso.Mfa.Totp.{keep_factor, disable_totp}

-- The user has no TOTP any more, and still has a factor where one is required.
abbrev pub TotpRemoved : ℕ → Db → Db → Type 0
TotpRemoved user_id db db' =
    (exists (λ t. t.user_id == user_id) db'.totp_credentials ≡ false)
    × (not (requires_mfa user_id none db) || (factors user_id db').has_primary_factor ≡ true)

-- If disabling TOTP succeeds, the user has no TOTP credential any more, and still has a primary
-- factor where the policies require one.
pub disable_totp-TotpRemoved :
    (user_id : ℕ) (e : Env) (w : World)
    → Post (λ _ v. TotpRemoved user_id w.db v.db) (λ _ _. Unit) (disable_totp user_id e w)
unfolding disable_totp keep_factor required factors
disable_totp-TotpRemoved user_id e w =
    ground (arith, exists-select (λ t. t.user_id == user_id) w.db.totp_credentials)
