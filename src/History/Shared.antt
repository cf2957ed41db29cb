-- ===== src/History/Shared.antt =====
-- What the steps keep that several handlers share.
use open_sso.Prelude.{ℕ, Text, String, false, Option, none, some, refl, arith}
use open_sso.Web.{Handler, Response, pure, check, problem}
use open_sso.Web.Limits.{incr, expire, admit, allow, allow_login, allow_oauth_request}
use open_sso.Session.{
  Principal, touched, session_principal, end_presented, with_principal_raw, check_mfa,
  with_principal, check_permission, require,
}
use open_sso.Mfa.Policy.{status, required, mfa_allow}
use open_sso.Keys.{rotate, active, public_key_by_kid}
use open_sso.Keys.Frame.{rotate-SameDb, active-SameDb}
use open_sso.Policy.{get_security_policy}
use open_sso.Users.{check_policy}
use open_sso.Password.{hash_password}
use open_sso.History.Keeps.{Keeps, quiet, steps}
use open_sso.History.Writes.{writes}

pub status-Keeps : {R : Type 0} (id : ℕ) (a : Option ℕ) → Keeps {E = R} (status id a)
unfolding status required
status-Keeps id a = search (steps, writes) depth 20

pub required-Keeps : {R : Type 0} (id : ℕ) (a : Option ℕ) → Keeps {E = R} (required id a)
unfolding required
required-Keeps id a = search (steps, writes)

pub get_security_policy-Keeps : {R : Type 0} → Keeps {E = R} get_security_policy
unfolding get_security_policy
get_security_policy-Keeps = search (steps, writes)

admits-Keeps :
    (o : Option String)
    → Keeps {E = Response}
        (elim o [ none ↦ pure tt | some message ↦ check false (problem 400 message) ])
admits-Keeps none = search (steps, writes)
admits-Keeps (some message) = search (steps, writes)

pub check_policy-Keeps : (password : Text) → Keeps (check_policy password)
unfolding check_policy
check_policy-Keeps password = search (steps, writes, admits-Keeps) depth 20

pub hash_password-Keeps : (password : Text) → Keeps (hash_password password)
unfolding hash_password
hash_password-Keeps password = search (steps, writes) depth 20

incr-Keeps : {R : Type 0} (key : Text) → Keeps {E = R} (incr key)
unfolding incr
incr-Keeps key = quiet (λ e w. (refl, refl))

expire-Keeps : {R : Type 0} (key : Text) (ttl : ℕ) → Keeps {E = R} (expire key ttl)
unfolding expire
expire-Keeps key ttl = quiet (λ e w. (refl, refl))

admit-Keeps :
    {R : Type 0} (key : Text) (limit ttl : ℕ) (o : Option ℕ) → Keeps {E = R} (admit key limit ttl o)
unfolding admit
admit-Keeps key limit ttl none = search (steps, writes)
admit-Keeps key limit ttl (some n) = search (steps, writes, expire-Keeps)

pub allow-Keeps : {R : Type 0} (key : Text) (limit ttl : ℕ) → Keeps {E = R} (allow key limit ttl)
unfolding allow
allow-Keeps key limit ttl = search (steps, incr-Keeps, admit-Keeps)

pub mfa_allow-Keeps :
    {R : Type 0} (bucket key : Text) (limit ttl : ℕ)
    → Keeps {E = R} (mfa_allow bucket key limit ttl)
unfolding mfa_allow
mfa_allow-Keeps bucket key limit ttl = allow-Keeps _ limit ttl

pub allow_login-Keeps : {R : Type 0} (ip : Text) → Keeps {E = R} (allow_login ip)
unfolding allow_login
allow_login-Keeps ip = allow-Keeps _ _ _

pub allow_oauth_request-Keeps :
    {R : Type 0} (bucket key : Text) (limit ttl : ℕ)
    → Keeps {E = R} (allow_oauth_request bucket key limit ttl)
unfolding allow_oauth_request
allow_oauth_request-Keeps bucket key limit ttl = allow-Keeps _ limit ttl

touched-Keeps : {R : Type 0} (now : ℕ) (p : Option Principal) → Keeps {E = R} (touched now p)
touched-Keeps now none = search (steps, writes)
touched-Keeps now (some p) = search (steps, writes)

pub session_principal-Keeps :
    {R : Type 0} (cookie : Option Text) → Keeps {E = R} (session_principal cookie)
unfolding session_principal
session_principal-Keeps none = search (steps, writes)
session_principal-Keeps (some token) = search (steps, writes, touched-Keeps) depth 20

module _ (next : Principal → Handler) (h : (p : Principal) → Keeps (next p)) where
  pub with_principal_raw-Keeps : (cookie : Option Text) → Keeps (with_principal_raw cookie next)
  unfolding with_principal_raw
  with_principal_raw-Keeps cookie = search (steps, h, session_principal-Keeps cookie)

  check_mfa-Keeps : (p : Principal) → Keeps (check_mfa next p)
  unfolding check_mfa
  check_mfa-Keeps p = search (steps, h) depth 20

  check_permission-Keeps :
      (permission : Text) (p : Principal) → Keeps (check_permission permission next p)
  unfolding check_permission
  check_permission-Keeps permission p = search (steps, h) depth 20

pub with_principal-Keeps :
    (next : Principal → Handler)
    → ((p : Principal) → Keeps (next p))
    → (cookie : Option Text) → Keeps (with_principal cookie next)
unfolding with_principal
with_principal-Keeps next h cookie =
    with_principal_raw-Keeps (check_mfa next) (check_mfa-Keeps next h) cookie

pub require-Keeps :
    (next : Principal → Handler)
    → ((p : Principal) → Keeps (next p))
    → (cookie : Option Text) (permission : Text) → Keeps (require cookie permission next)
unfolding require
require-Keeps next h cookie permission =
    with_principal-Keeps (check_permission permission next)
      (check_permission-Keeps next h permission) cookie

pub active-Keeps : Keeps active
active-Keeps = quiet (λ e w. let s = active-SameDb e w in (s.0, s.1))

pub rotate-Keeps : Keeps rotate
rotate-Keeps = quiet (λ e w. let s = rotate-SameDb e w in (s.0, s.1))

pub public_key_by_kid-Keeps : (kid : Text) → Keeps (public_key_by_kid kid)
unfolding public_key_by_kid
public_key_by_kid-Keeps kid = quiet (λ e w. (ground arith, ground arith))

pub end_presented-Keeps :
    {R : Type 0} (now : ℕ) (hash : Option Text) → Keeps {E = R} (end_presented now hash)
end_presented-Keeps now none = search steps
end_presented-Keeps now (some hash) = search (steps, writes)

pub ruleset keeping = (
  steps, writes, status-Keeps, required-Keeps, get_security_policy-Keeps, check_policy-Keeps,
  hash_password-Keeps, mfa_allow-Keeps, allow_login-Keeps, allow_oauth_request-Keeps,
  session_principal-Keeps, active-Keeps, rotate-Keeps, public_key_by_kid-Keeps, end_presented-Keeps,
)
