-- ===== src/Mfa/Box/Laws.antt =====
-- What `encrypt` seals, `decrypt` opens.
use mathlib.Core.Path.{subst}
use open_sso.Prelude.{
  ◌+◌, ◌<◌, Text, length, leb, take, drop, ◌++◌, ◌≡◌, refl, ap, some, none, [], ◌∷◌, false,
  if◌then◌else◌, arith,
}
use open_sso.Web.{Env}
use open_sso.Mfa.Box.{nonce_size, sealed, decrypt}

take-append : (s t : Text) → take (length s) (s ++ t) ≡ s
take-append [] t = refl
take-append (c ∷ s) t = ap (λ x. c ∷ x) (take-append s t)

drop-append : (s t : Text) → drop (length s) (s ++ t) ≡ t
drop-append [] t = refl
drop-append (c ∷ s) t = drop-append s t

length-append : (s t : Text) → length (s ++ t) ≡ length s + length t
length-append [] t = ground arith
length-append (c ∷ s) t = ground (arith, length-append s t)

-- What is sealed with a nonce of the size that is read back is opened to the same plaintext under
-- the same additional data; AES-GCM opens what it sealed, and what it seals is not empty.
decrypt-sealed :
    (e : Env) (nonce plaintext aad : Text)
    → length nonce ≡ nonce_size
    → 0 < length (e.seal nonce plaintext aad)
    → e.open_sealed nonce (e.seal nonce plaintext aad) aad ≡ some plaintext
    → decrypt e (sealed e nonce plaintext aad) aad ≡ some plaintext
unfolding decrypt
decrypt-sealed e nonce plaintext aad size tagged opens =
    subst
      (λ n.
        (if leb (length (nonce ++ box)) n
          then none
          else e.open_sealed (take n (nonce ++ box)) (drop n (nonce ++ box)) aad)
        ≡ some plaintext)
      size (rw (fits, take-append nonce box, drop-append nonce box) opens)
  where
    box : Text
    box = e.seal nonce plaintext aad

    fits : leb (length (nonce ++ box)) (length nonce) ≡ false
    fits = ground (arith, length-append nonce box)
