-- ===== src/Password/RoundTrip.antt =====
-- What `HashPassword` builds, `VerifyPassword` reads back.
use mathlib.Core.List.{append_assoc}
use open_sso.Prelude.{
  ℕ, Text, codes, text_eq, length, exists, ◌==◌, false, List, [], ◌∷◌, ◌++◌, some, ◌≡◌, ap, ◌∙◌,
  refl, arith,
}
use open_sso.Web.{Env}
use open_sso.Password.{
  split_on, split_pair, digits, parse_uint, set_cost, read_item, read_cost, compare_key,
  verify_parts, verify_password, encode_hash,
}

-- A text without the separator is a part of its own.
split_on-part :
    (sep : ℕ) (s t : Text)
    → exists (λ c. c == sep) s ≡ false
    → split_on sep (s ++ (sep ∷ t)) ≡ s ∷ split_on sep t
unfolding split_on exists
split_on-part sep [] t h = ground arith
split_on-part sep (c ∷ s) t h = ground (arith, h, split_on-part sep s t)

split_on-last : (sep : ℕ) (s : Text) → exists (λ c. c == sep) s ≡ false → split_on sep s ≡ s ∷ []
unfolding split_on exists
split_on-last sep [] h = refl
split_on-last sep (c ∷ s) h = ground (arith, h, split_on-last sep s)

-- The key that is stored for a password.
abbrev pub key_of : Env → Text → Text → Text
key_of e salt password = e.argon_id_key password salt 3 65_536 2 32

-- What the encoding of crypto/base64 and the length of a key have to satisfy.
pub record Encodes (e : Env) : Type 0 where
  pub reads_back : (t : Text) → e.std_decode (e.std_encode t) ≡ some t
  pub no_dollar : (t : Text) → exists (λ c. c == b'$') (e.std_encode t) ≡ false
  pub key_size : (password salt : Text) → length (e.argon_id_key password salt 3 65_536 2 32) ≡ 32

-- The parts in front of the salt.
abbrev after_cost : List Text → List Text
after_cost parts = [] ∷ codes "argon2id" ∷ codes "v=19" ∷ codes "m=65536,t=3,p=2" ∷ parts

ends :
    (e : Env)
    → Encodes e
    → (salt key : Text)
    → split_on b'$' ((e.std_encode salt ++ codes "$") ++ e.std_encode key)
      ≡ e.std_encode salt ∷ e.std_encode key ∷ []
ends e h salt key =
    ap (split_on b'$') (append_assoc (e.std_encode salt) (codes "$") (e.std_encode key))
    ∙ split_on-part b'$' (e.std_encode salt) (e.std_encode key) (h.no_dollar salt)
    ∙ ap (λ parts. e.std_encode salt ∷ parts)
        (split_on-last b'$' (e.std_encode key) (h.no_dollar key))

splits :
    (e : Env)
    → Encodes e
    → (salt password : Text)
    → split_on b'$' (encode_hash e salt password)
      ≡ after_cost (e.std_encode salt ∷ e.std_encode (key_of e salt password) ∷ [])
unfolding encode_hash split_on
splits e h salt password = ap after_cost (ends e h salt (key_of e salt password))

parts_lem :
    (e : Env)
    → Encodes e
    → (salt password given : Text)
    → verify_parts e given
        (after_cost (e.std_encode salt ∷ e.std_encode (key_of e salt password) ∷ []))
      ≡ text_eq (key_of e salt password) (key_of e salt given)
unfolding verify_parts compare_key text_eq read_cost read_item split_pair parse_uint digits set_cost
    split_on
parts_lem e h salt password given =
    rw (h.reads_back salt, h.reads_back (key_of e salt password), h.key_size password salt) refl

-- A hash of a password accepts exactly the texts that have the same key under its salt, and so
-- the password itself; base64 reads back what it writes, without a dollar sign, and a key has 32
-- bytes.
pub verify_password-encode_hash :
    (e : Env)
    → Encodes e
    → (salt password given : Text)
    → verify_password e (encode_hash e salt password) given
      ≡ text_eq (key_of e salt password) (key_of e salt given)
unfolding verify_password
verify_password-encode_hash e h salt password given =
    ap (verify_parts e given) (splits e h salt password) ∙ parts_lem e h salt password given
