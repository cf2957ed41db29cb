-- ===== src/Mfa/Box.antt =====
-- The sealed secrets of backend/internal/mfa/crypto.go.
use open_sso.Prelude.{ℕ, Text, length, leb, take, drop, Option, none, if◌then◌else◌, ◌++◌}
use open_sso.Web.{Env, MfaError, failure, M, ◌>>=◌, ask, draw, or_stop}
pub mod Laws

abbrev pub nonce_size : ℕ
nonce_size = 12

abbrev pub sealed : Env → Text → Text → Text → Text
sealed e nonce plaintext aad = nonce ++ e.seal nonce plaintext aad

-- `encrypt`: the nonce in front of the sealed text.
unfoldable pub encrypt : Text → Text → M MfaError Text
encrypt plaintext aad = do nonce ← or_stop (← draw) failure; ask (λ e. sealed e nonce plaintext aad)

-- `decrypt`.
unfoldable pub decrypt : Env → Text → Text → Option Text
decrypt e ciphertext aad =
    if leb (length ciphertext) nonce_size
    then none
    else e.open_sealed (take nonce_size ciphertext) (drop nonce_size ciphertext) aad
