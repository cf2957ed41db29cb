-- ===== src/Policy.antt =====
-- The security policy: `passwordPolicyViolation`, `getSecurityPolicy` and `updateSecurityPolicy` of
-- backend/internal/httpapi/stage1.go.
use open_sso.Prelude.{
  ℕ, String, Text, length, ltb, ◌&&◌, ◌||◌, not, Bool, true, false, List, [], ◌∷◌, Option, none,
  some, if◌then◌else◌, ◌≡◌, ◌↔◌, ◌≤◌, arith,
}
use open_sso.Store.{Db, SecurityPolicy, Target}
use open_sso.Web.{
  Env, M, Handler, ◌>>=◌, ◌>>◌, pure, check, or_stop, query, exec, Response, respond, problem,
  policy,
}
use open_sso.Audit.{audit}
use open_sso.Session.{Principal}
pub mod Bounds

-- The loop over a password: whether some character is in the class.
unfoldable pub some_char : (ℕ → Bool) → Text → Bool
some_char p [] = false
some_char p (c ∷ s) = p c || some_char p s

-- `passwordPolicyViolation`: none stands for the empty text.
unfoldable pub password_policy_violation : Env → SecurityPolicy → Text → Option String
unfolding some_char
password_policy_violation e p password =
    if ltb (length password) p.password_min_length
    then some "password does not meet current minimum length"
    else if p.password_require_upper && not (some_char e.is_upper password)
    then some "password must contain an uppercase letter"
    else if p.password_require_lower && not (some_char e.is_lower password)
    then some "password must contain a lowercase letter"
    else if p.password_require_digit && not (some_char e.is_digit password)
    then some "password must contain a digit"
    else if p.password_require_symbol && not (some_char e.is_symbol password)
    then some "password must contain a symbol"
    else none

-- `getSecurityPolicy`: the table has one row.
unfoldable pub get_security_policy : {R : Type 0} → M R (Option SecurityPolicy)
get_security_policy = query (λ db. db.policy)

-- `securityPolicy`.
unfoldable pub show_security_policy : Handler
unfolding get_security_policy
show_security_policy = do
  p ← or_stop (← get_security_policy) (problem 500 "database error")
  pure (respond 200 (policy p))

-- The bounds that an update must keep. A negative number of the source is out of bounds like 0.
unfoldable pub in_bounds : SecurityPolicy → Bool
in_bounds p = not (
    ltb p.password_min_length 12
    || ltb 128 p.password_min_length
    || ltb p.lockout_threshold 3
    || ltb 100 p.lockout_threshold
    || ltb p.lockout_minutes 1
    || ltb 1_440 p.lockout_minutes
    || ltb p.session_ttl_minutes 5
    || ltb 10_080 p.session_ttl_minutes)

-- `UPDATE security_policies SET … WHERE id=1`.
unfoldable pub set_policy : SecurityPolicy → Db → Db
set_policy p db = record db { policy = p }

-- `updateSecurityPolicy`, for a body that was decoded.
unfoldable pub update_security_policy : Principal → SecurityPolicy → Handler
unfolding in_bounds set_policy
update_security_policy actor p = do
  check (in_bounds p) (problem 400 "invalid security policy values")
  updated ← exec (set_policy p)
  check updated (problem 500 "database error")
  audit (some actor.user_id) "POLICY_CHANGED" Target.security_policy true
  pure (respond 200 (policy p))
