-- ===== src/Tests/FactorRuns.antt =====
-- Second factors and groups on the server of the setup.
use open_sso.Prelude.{codes, count, ◌==◌, ◌≤◌, true, false, ◌≡◌, refl, none, ◌∷◌, [], arith}
use open_sso.Web.{World}
use open_sso.Web.Rules.{Post}
use open_sso.Mfa.Recovery.{verify_recovery_code}
use open_sso.Mfa.Recovery.Redeem.{Rejected, verify_recovery_code_once}
use open_sso.Mfa.Totp.{disable_totp}
use open_sso.Mfa.Totp.Removal.{TotpRemoved, disable_totp-TotpRemoved}
use open_sso.Mfa.Webauthn.{delete_key}
use open_sso.Mfa.Webauthn.Removal.{StillHasFactor, delete_key-StillHasFactor}
use open_sso.Tests.Setup.{env, world, db}

-- A group with the user, whose members need a second factor; the user has a key, a TOTP credential and
-- a recovery code.
abbrev guarded : World
guarded = record world {
  db = record db {
    groups = record { id = 60; name = codes "staff"; description = [] } ∷ [];
    memberships = record { group_id = 60; user_id = 7 } ∷ [];
    group_mfa_policies = record { group_id = 60; required = true } ∷ [];
    totp_credentials =
        record {
          user_id = 7;
          encrypted_secret = codes "nonce nonce secret";
          active = true;
          verified_at = none;
          last_used_at = none;
        }
        ∷ [];
    webauthn_credentials =
        record {
          id = 70;
          user_id = 7;
          credential_id = codes "key";
          encrypted_credential = codes "nonce nonce key";
          display_name = codes "Key";
          discoverable = false;
          last_used_at = none;
        }
        ∷ [];
    recovery_codes = record { id = 80; user_id = 7; code_hash = codes "ABCD"; used_at = none } ∷ [];
  };
}

verify_recovery_code_once_example :
    Post
      (λ _ v. Rejected (verify_recovery_code 7 (codes "ab-cd") env v).0)
      (λ _ v. v.db ≡ guarded.db)
      (verify_recovery_code 7 (codes "ab-cd") env guarded)
verify_recovery_code_once_example = verify_recovery_code_once 7 (codes "ab-cd") env env guarded refl

disable_totp-TotpRemoved_example :
    Post (λ _ v. TotpRemoved 7 guarded.db v.db) (λ _ _. Unit) (disable_totp 7 env guarded)
disable_totp-TotpRemoved_example = disable_totp-TotpRemoved 7 env guarded

one_key : count (λ c. c.id == 70) guarded.db.webauthn_credentials ≤ 1
unfolding count
one_key = omega arith

delete_key-StillHasFactor_example :
    Post (λ _ v. StillHasFactor 7 guarded.db v.db) (λ _ _. Unit) (delete_key 7 70 env guarded)
delete_key-StillHasFactor_example = delete_key-StillHasFactor 7 70 env guarded one_key
