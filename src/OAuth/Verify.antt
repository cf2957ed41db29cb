-- ===== src/OAuth/Verify.antt =====
-- `parseAccessToken` and `parseIDToken`, and `bearerToken`.
use open_sso.Prelude.{
  ℕ, Text, text_eq, codes, is_empty, byte_len, ltb, take, drop, trim_space, map, leb, ◌+◌, ◌&&◌,
  ◌||◌, not, [], if◌then◌else◌,
}
use open_sso.Web.{M, ◌>>=◌, ◌>>◌, or_stop, check, ask, AccessClaims, IdClaims}
use open_sso.Keys.{public_key_by_kid}

-- The key for a token: only RS256, and a key of this server.
unfoldable pub verification_key : Text → M (Unit {0}) Text
verification_key raw = do
  (alg, kid) ← ask (λ e. e.token_header raw)
  check (text_eq alg (codes "RS256") && not (is_empty kid)) tt
  public_key_by_kid kid

unfoldable pub parse_access_token : Text → M (Unit {0}) AccessClaims
unfolding verification_key
parse_access_token raw = do
  key ← verification_key raw
  or_stop (← ask (λ e. e.parse_access key e.public_url e.now raw)) tt

unfoldable pub parse_id_token : Text → M (Unit {0}) IdClaims
unfolding verification_key
parse_id_token raw = do
  key ← verification_key raw
  or_stop (← ask (λ e. e.parse_id key e.public_url e.now raw)) tt

-- Case folding on the letters that fold to those of `Bearer`.
abbrev fold : ℕ → ℕ
fold c = if leb b'A' c && leb c b'Z' then c + 32 else c

-- `bearerToken`, on the header's value.
unfoldable bearer_token : Text → Text
unfolding byte_len text_eq trim_space
bearer_token header =
    if ltb (byte_len header) 8 || not (text_eq (map fold (take 7 header)) (codes "bearer "))
    then []
    else trim_space (drop 7 header)
