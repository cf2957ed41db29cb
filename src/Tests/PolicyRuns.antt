-- ===== src/Tests/PolicyRuns.antt =====
-- The security policy and a password reset on the server of `Setup`.
use open_sso.Prelude.{◌≡◌, ◌≢◌, ◌↔◌, ◌≤◌, refl, codes, none, true, false, length, arith}
use open_sso.Store.{SecurityPolicy}
use open_sso.Web.{run, problem, transaction}
use open_sso.Web.Rules.{Ends}
use open_sso.Policy.{password_policy_violation, update_security_policy}
use open_sso.Policy.Bounds.{
  IsBounded, Meets, password_policy_violation_iff, update_security_policy-IsBounded,
}
use open_sso.Users.{store_reset}
use open_sso.Users.Reset.{WasReset, store_reset_cases}
use open_sso.Password.{
  verify_password, verify_parts, split_on, read_cost, read_item, split_pair, parse_uint, digits,
  set_cost, compare_key, encode_hash,
}
use open_sso.Prelude.{text_eq, byte_len, utf8_len}
use open_sso.Tests.Setup.{env, world, admin}

-- A hash that was made is accepted for its password, and for no other.
hash_accepts :
    verify_password env
      (encode_hash env (codes "salt") (codes "correct horse"))
      (codes "correct horse")
    ≡ true
unfolding verify_password verify_parts split_on read_cost read_item split_pair parse_uint digits
    set_cost compare_key encode_hash text_eq byte_len utf8_len
hash_accepts = refl

hash_refuses :
    verify_password env
      (encode_hash env (codes "salt") (codes "correct horse"))
      (codes "battery staple")
    ≡ false
unfolding verify_password verify_parts split_on read_cost read_item split_pair parse_uint digits
    set_cost compare_key encode_hash text_eq byte_len utf8_len
hash_refuses = refl

abbrev lax : SecurityPolicy
lax = record world.db.policy { password_min_length = 1 }

update_security_policy-IsBounded_example :
    IsBounded (run (update_security_policy admin lax) env world).1.db.policy
update_security_policy-IsBounded_example = update_security_policy-IsBounded admin lax env world (
  omega arith,
  omega arith,
  omega arith,
  omega arith,
  omega arith,
  omega arith,
  omega arith,
  omega arith,
)

password_policy_violation_iff_example :
    (password_policy_violation env world.db.policy (codes "correct horse") ≡ none) ↔ (
      (world.db.policy.password_min_length ≤ length (codes "correct horse"))
      × Meets world.db.policy.password_require_upper env.is_upper (codes "correct horse")
      × Meets world.db.policy.password_require_lower env.is_lower (codes "correct horse")
      × Meets world.db.policy.password_require_digit env.is_digit (codes "correct horse")
      × Meets world.db.policy.password_require_symbol env.is_symbol (codes "correct horse"))
password_policy_violation_iff_example =
    password_policy_violation_iff env world.db.policy (codes "correct horse")

store_reset_cases_example :
    Ends
      (WasReset admin 7 (codes "hash") env world.db)
      (λ r. r.status ≢ 204)
      world.db
      (run
        (transaction (problem 500 "database error") (store_reset admin 7 (codes "hash")))
        env
        world)
store_reset_cases_example = store_reset_cases admin 7 (codes "hash") env world
