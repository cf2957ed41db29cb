-- ===== src/Tests/ScopeRuns.antt =====
-- Scopes and verifiers.
use open_sso.Prelude.{
  ◌≡◌, ◌↔◌, ◌≤◌, refl, codes, true, Text, List, [], ◌∷◌, fields, ok, split_words, is_space, text_eq,
  join_words, byte_len,
}
use open_sso.Tests.Setup.{env, verifier}
use open_sso.Scope.{
  contains, split_scope, split_loop, scope_char, scope_chars, normalize_requested_scope,
  verify_pkce, verifier_chars,
}
use open_sso.Scope.Split.{split_scope-normalize}
use open_sso.Scope.Pkce.{verify_pkce_iff}

abbrev raw : Text
raw = codes " email  openid email"

abbrev split : List Text
split = codes "email" ∷ codes "openid" ∷ []

normalizes : normalize_requested_scope raw ≡ ok (codes "email openid", split)
unfolding normalize_requested_scope split_scope split_loop fields split_words is_space contains
    text_eq scope_char scope_chars join_words
normalizes = refl

split_scope-normalize_example : split_scope (codes "email openid") ≡ ok split
split_scope-normalize_example = split_scope-normalize raw (codes "email openid") split normalizes

verify_pkce_iff_example : (verify_pkce env verifier verifier ≡ true) ↔ (
    (43 ≤ byte_len verifier)
    × (byte_len verifier ≤ 128)
    × (verifier_chars verifier ≡ true)
    × (env.raw_url_encode (env.sha256_sum verifier) ≡ verifier))
verify_pkce_iff_example = verify_pkce_iff env verifier verifier
