-- ===== src/Keys/Rotation.antt =====
-- What a rotation of the signing key writes.
use open_sso.Prelude.{
  ℕ, Text, List, [], ◌∷◌, map, find, count, ◌≡◌, refl, true, false, none, some, arith,
  if◌then◌else◌, is_some,
}
use open_sso.Store.{SigningKeyRow}
use open_sso.Web.{Env, World}
use open_sso.Web.Rules.{Post, Post-mono}
use open_sso.Keys.Defs.{
  SigningKey, rotate, rotate_from, active_row, retire, insert_key, encrypt_private_key,
}

-- The keys that were there, as the rotation leaves them.
abbrev retired : ℕ → List SigningKeyRow → List SigningKeyRow
retired now ks = if is_some (active_row ks) then map (retire now) ks else ks

-- The new key stands in front of the earlier ones, of which none is active.
abbrev Newest : ℕ → SigningKey → List SigningKeyRow → List SigningKeyRow → Type 0
Newest now key old [] = true ≡ false
Newest now key old (r ∷ rest) =
    (r.kid ≡ key.kid) × (r.active ≡ true) × (rest ≡ retired now old) × (active_row rest ≡ none)

rotate-Newest :
    (e : Env) (w : World)
    → Post (λ key v. Newest e.db_now key w.keys v.keys) (λ _ v. v.keys ≡ w.keys) (rotate e w)
unfolding rotate rotate_from insert_key encrypt_private_key
rotate-Newest e w = ground arith

map-retired :
    (f : SigningKeyRow → Text) (now : ℕ)
    → ((k : SigningKeyRow) → f (retire now k) ≡ f k)
    → (ks : List SigningKeyRow) → map f (map (retire now) ks) ≡ map f ks
map-retired f now keep [] = refl
map-retired f now keep (k ∷ ks) = ground (arith, keep k, map-retired f now keep ks)

none_active : (ks : List SigningKeyRow) → active_row ks ≡ none → count (λ k. k.active) ks ≡ 0
unfolding active_row find count
none_active [] h = refl
none_active (k ∷ ks) h = ground (arith, none_active ks)

-- The names and public keys of the keys that were there.
abbrev pub kids : List SigningKeyRow → List Text
kids = map (λ k. k.kid)

abbrev published : List SigningKeyRow → List Text
published = map (λ k. k.public_jwk)

abbrev pub OneActive : SigningKey → List SigningKeyRow → List SigningKeyRow → Type 0
OneActive key old new =
    (jwk : Text) × (r : SigningKeyRow) × (active_row new ≡ some r)
    × (r.kid ≡ key.kid)
    × (count (λ k. k.active) new ≡ 1)
    × (kids new ≡ key.kid ∷ kids old)
    × (published new ≡ jwk ∷ published old)

Newest-OneActive :
    (now : ℕ) (key : SigningKey) (old new : List SigningKeyRow)
    → Newest now key old new
    → OneActive key old new
unfolding count active_row find
Newest-OneActive now key old [] h = absurd (ground (arith, h))
Newest-OneActive now key old (r ∷ rest) (named, is_active, same, idle) = (
  r.public_jwk,
  r,
  ground (arith, is_active),
  named,
  ground (arith, is_active, none_active rest idle),
  ground (arith, named, same, map-retired (λ k. k.kid) now (λ k. ground arith) old),
  ground (arith, same, map-retired (λ k. k.public_jwk) now (λ k. ground arith) old),
)

-- A rotation of the signing key that succeeds leaves exactly one active key, the one it returns,
-- in front of all the earlier ones, whose names and public parts it keeps; one that fails leaves
-- the keys as they were.
pub rotate_lem :
    (e : Env) (w : World)
    → Post (λ key v. OneActive key w.keys v.keys) (λ _ v. v.keys ≡ w.keys) (rotate e w)
rotate_lem e w =
    Post-mono (λ key v. Newest e.db_now key w.keys v.keys) (λ key v. OneActive key w.keys v.keys)
      (λ _ v. v.keys ≡ w.keys) (λ _ v. v.keys ≡ w.keys) (rotate e w) (rotate-Newest e w)
      (λ key v h. Newest-OneActive e.db_now key w.keys v.keys h) (λ _ v h. h)
