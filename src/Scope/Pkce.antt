-- ===== src/Scope/Pkce.antt =====
-- What `validPKCEVerifier` and `verifyPKCE` accept.
use open_sso.Prelude.{
  ◌≤◌, Text, text_eq_iff, byte_len, length, utf8_len, ◌≡◌, ◌↔◌, true, [], ◌∷◌, arith,
}
use open_sso.Web.{Env, sha256_string}
use open_sso.Scope.Defs.{verifier_char, verifier_chars, valid_pkce_verifier, verify_pkce}

-- A verifier passes exactly when it has 43 to 128 bytes, all of them of the allowed alphabet, and
-- the challenge is the base64url text of its SHA-256 sum.
pub verify_pkce_iff :
    (e : Env) (verifier expected : Text)
    → (verify_pkce e verifier expected ≡ true) ↔ (
        (43 ≤ byte_len verifier)
        × (byte_len verifier ≤ 128)
        × (verifier_chars verifier ≡ true)
        × (e.raw_url_encode (e.sha256_sum verifier) ≡ expected))
unfolding verify_pkce valid_pkce_verifier
verify_pkce_iff e verifier expected = (
  (λ h. ground (arith, text_eq_iff (sha256_string e verifier) expected)),
  (λ h. ground (arith, text_eq_iff (sha256_string e verifier) expected)),
)

-- An accepted character is one byte, so the bytes of a verifier are its characters.
byte_len-verifier : (s : Text) → verifier_chars s ≡ true → byte_len s ≡ length s
unfolding verifier_chars byte_len verifier_char utf8_len
byte_len-verifier [] h = omega arith
byte_len-verifier (c ∷ s) h = ground (arith, byte_len-verifier s)

-- An accepted verifier has 43 to 128 characters.
valid_pkce_verifier-length :
    (s : Text) → valid_pkce_verifier s ≡ true → (43 ≤ length s) × (length s ≤ 128)
unfolding valid_pkce_verifier
valid_pkce_verifier-length s h = ground (arith, byte_len-verifier s)
