-- ===== src/Mfa/Policy.antt =====
-- `Allow`, `Required`, `Status` and the policies of service.go.
use open_sso.Prelude.{
  ℕ, Text, codes, find, exists, count, select, ◌∷◌, ◌==◌, ◌&&◌, ◌||◌, not, is_some, ltb, Bool, true,
  false, Option, none, some, ◌++◌, if◌then◌else◌,
}
use open_sso.Store.{Db}
use open_sso.Web.{M, MfaStatus, MfaError, failure, ◌>>=◌, pure, check, query, exec, try_exec}
use open_sso.Web.Limits.{allow}

unfoldable pub mfa_allow : {R : Type 0} → Text → Text → ℕ → ℕ → M R Bool
unfolding allow
mfa_allow bucket key limit ttl =
    allow (codes "opensso:mfa:" ++ bucket ++ codes ":" ++ key) limit ttl

-- The query of `Required`: the global policy, that of a group of the user, or that of the
-- application, if there is one.
unfoldable pub requires_mfa : ℕ → Option ℕ → Db → Bool
requires_mfa user_id application_id db =
    db.policy.mfa_required
    || exists
        (λ m.
          m.user_id == user_id
          && exists (λ p. p.group_id == m.group_id && p.required) db.group_mfa_policies)
        db.memberships
    || elim application_id [
      | none ↦ false
      | some id ↦ exists (λ p. p.application_id == id && p.required) db.application_mfa_policies
    ]

unfoldable pub required : {R : Type 0} → ℕ → Option ℕ → M R (Option Bool)
required user_id application_id = query (requires_mfa user_id application_id)

-- The factors that a user has.
unfoldable pub factors : ℕ → Db → MfaStatus
factors user_id db =
    let totp = exists (λ t. t.user_id == user_id && t.active) db.totp_credentials in
    let keys = count (λ c. c.user_id == user_id) db.webauthn_credentials in
    record {
      required = false;
      totp_enabled = totp;
      webauthn_credentials = keys;
      passkeys = count (λ c. c.user_id == user_id && c.discoverable) db.webauthn_credentials;
      recovery_codes_remaining =
          count (λ c. c.user_id == user_id && not (is_some c.used_at)) db.recovery_codes;
      has_primary_factor = totp || ltb 0 keys;
    }

abbrev with_required : Option MfaStatus → Option Bool → Option MfaStatus
with_required none r = none
with_required (some st) none = none
with_required (some st) (some r) = some (record st { required = r })

-- `Status`: the second query is not sent if the first fails.
unfoldable pub status : {R : Type 0} → ℕ → Option ℕ → M R (Option MfaStatus)
unfolding factors required
status user_id application_id = do
  st ← query (factors user_id)
  (if is_some st
      then required user_id application_id >>= (λ r. pure (with_required st r))
      else pure none)

-- `GroupPolicy` and `ApplicationPolicy`.
unfoldable pub group_policy : {R : Type 0} → ℕ → M R (Option Bool)
group_policy id = query (λ db. elim (find (λ p. p.group_id == id) db.group_mfa_policies) [
  | none ↦ false
  | some p ↦ p.required
])

unfoldable pub application_policy : {R : Type 0} → ℕ → M R (Option Bool)
application_policy id = query (λ db.
    elim (find (λ p. p.application_id == id) db.application_mfa_policies) [
      | none ↦ false
      | some p ↦ p.required
    ])

-- `SetGlobalPolicy`.
unfoldable require_all : Bool → Db → Db
require_all needed db = record db { policy = record db.policy { mfa_required = needed } }

unfoldable set_global_policy : Bool → M MfaError (Unit {0})
unfolding require_all
set_global_policy needed = do stored ← exec (require_all needed); check stored failure

-- A policy that is not required is deleted; one that is required needs the group, and replaces the
-- row that is there.
unfoldable pub put_group_policy : ℕ → Bool → Db → Option Db
put_group_policy id needed db =
    let others = select (λ p. not (p.group_id == id)) db.group_mfa_policies in
    if not needed
    then some (record db { group_mfa_policies = others })
    else if exists (λ g. g.id == id) db.groups
    then some
        (record db { group_mfa_policies = record { group_id = id; required = true } ∷ others })
    else none

-- `SetGroupPolicy`.
unfoldable pub set_group_policy : ℕ → Bool → M MfaError (Unit {0})
unfolding put_group_policy
set_group_policy id needed = do stored ← try_exec (put_group_policy id needed); check stored failure

unfoldable pub put_application_policy : ℕ → Bool → Db → Option Db
put_application_policy id needed db =
    let others = select (λ p. not (p.application_id == id)) db.application_mfa_policies in
    if not needed
    then some (record db { application_mfa_policies = others })
    else if exists (λ a. a.id == id) db.applications
    then some (record db {
      application_mfa_policies = record { application_id = id; required = true } ∷ others;
    })
    else none

-- `SetApplicationPolicy`.
unfoldable pub set_application_policy : ℕ → Bool → M MfaError (Unit {0})
unfolding put_application_policy
set_application_policy id needed = do
  stored ← try_exec (put_application_policy id needed)
  check stored failure
