-- ===== src/Saml/Certificates/Rotation.antt =====
-- What a rotation of the SAML certificate writes: `Rotate` and `Active` of
-- backend/internal/samlidp/certificates.go.
use open_sso.Prelude.{
  ℕ, ◌+◌, Text, text_eq, List, [], ◌∷◌, map, find, exists, count, update_where, ◌||◌, coalesce,
  true, false, none, some, ◌≡◌, refl, ap, ◌∙◌, arith, Bool-cases, inl, inr,
}
use open_sso.Store.{Db, SamlCertificate}
use open_sso.Web.{Env, World, ◌>>=◌}
use open_sso.Web.Rules.{Post, Post-mono, Post-bind, transaction-Commits}
use open_sso.Saml.Certificates.{
  CertificateAndKey, retire_certificates, new_certificate, encrypt_saml_key, replace_certificate,
  store_certificate, rotate_certificate,
}

-- The new certificate stands in front of the earlier ones, of which none is active any more.
record Replaced (now : ℕ) (a : Db) (k : CertificateAndKey) (b : Db) : Type 0 where
  pub first : SamlCertificate
  pub is_active : first.active ≡ true
  pub returned : first.certificate_der ≡ k.certificate
  pub fresh :
      exists (λ d. text_eq d.kid first.kid) (retire_certificates now a).saml_certificates ≡ false
  pub idle : exists (λ d. d.active) (retire_certificates now a).saml_certificates ≡ false
  pub written :
      b ≡ record a { saml_certificates = first ∷ (retire_certificates now a).saml_certificates }

abbrev with_first : SamlCertificate → Db → Db
with_first c db = record db { saml_certificates = c ∷ db.saml_certificates }

-- A new certificate is active, and is the one that is returned; no row is written.
new_certificate-Post :
    (e : Env) (v : World)
    → Post
        (λ c u.
          (c.0.active ≡ true)
          × (c.0.certificate_der ≡ c.1.certificate)
          × (u.db ≡ v.db)
          × (u.saved ≡ v.saved))
        (λ _ u. (u.db ≡ v.db) × (u.saved ≡ v.saved))
        (new_certificate e v)
unfolding new_certificate encrypt_saml_key
new_certificate-Post e v = ground arith

module _ (e : Env) (db : Db) where
  store-Replaced :
      (c : SamlCertificate × CertificateAndKey) (v : World)
      → c.0.active ≡ true
      → c.0.certificate_der ≡ c.1.certificate
      → v.db ≡ retire_certificates e.db_now db
      → v.saved ≡ some db
      → Post
          (λ k u. Replaced e.db_now db k u.db × (u.saved ≡ none))
          (λ _ u. coalesce u.saved u.db ≡ db)
          (store_certificate c e v)
  unfolding store_certificate retire_certificates
  store-Replaced c v works named same opened = elim (Bool-cases (e.fault v.calls)) [
    | inl x ↦ rw (x, ◌>>=◌) (ground (arith, opened))
    | inr x ↦
        elim (Bool-cases (
          exists (λ d. text_eq d.kid c.0.kid) v.db.saml_certificates
          || exists (λ d. d.active) v.db.saml_certificates)) [
            | inl y ↦ ground (arith, x, y, opened)
            | inr y ↦ elim (Bool-cases (e.fault (v.calls + 1))) [
              | inl z ↦ ground (arith, x, y, z, opened)
              | inr z ↦
                  rw (x, y, z, ◌>>=◌)
                    (
                      record {
                        first = c.0;
                        is_active = works;
                        returned = named;
                        fresh = ground (arith, y, same);
                        idle = ground (arith, y, same);
                        written = rw (x, y, z) (ap (with_first c.0) same);
                      },
                      ground (arith, x, y, z),
                    )
            ]
          ]
  ]

  made-Replaced :
      (v : World)
      → v.db ≡ retire_certificates e.db_now db
      → v.saved ≡ some db
      → Post
          (λ k u. Replaced e.db_now db k u.db × (u.saved ≡ none))
          (λ _ u. coalesce u.saved u.db ≡ db)
          ((new_certificate >>= store_certificate) e v)
  made-Replaced v same opened =
      Post-bind
        (λ c u.
          (c.0.active ≡ true)
          × (c.0.certificate_der ≡ c.1.certificate)
          × (u.db ≡ retire_certificates e.db_now db)
          × (u.saved ≡ some db))
        (λ k u. Replaced e.db_now db k u.db × (u.saved ≡ none)) (λ _ u. coalesce u.saved u.db ≡ db)
        new_certificate store_certificate e v
        (Post-mono _ _ _ (λ _ u. coalesce u.saved u.db ≡ db) (new_certificate e v)
          (new_certificate-Post e v)
          (λ c u (works, named, s, o). (works, named, s ∙ same, o ∙ opened))
          (λ _ u (s, o). ground (arith, o, opened)))
        (λ c u (works, named, s, o). store-Replaced c u works named s o)

  replace-Replaced :
      (v : World)
      → v.db ≡ db
      → v.saved ≡ some db
      → Post
          (λ k u. Replaced e.db_now db k u.db × (u.saved ≡ none))
          (λ _ u. coalesce u.saved u.db ≡ db)
          (replace_certificate e v)
  unfolding replace_certificate
  replace-Replaced v same opened = elim (Bool-cases (e.fault v.calls)) [
    | inl x ↦ rw (x, ◌>>=◌) (ground (arith, opened))
    | inr x ↦ elim (Bool-cases (e.fault (v.calls + 1))) [
      | inl y ↦ rw (x, y, ◌>>=◌) (ground (arith, opened))
      | inr y ↦
          rw (x, y, ◌>>=◌)
            (made-Replaced _ (ground (arith, x, y, ap (retire_certificates e.db_now) same))
              (ground (arith, x, y, opened)))
    ]
  ]

none_active :
    (cs : List SamlCertificate) → exists (λ d. d.active) cs ≡ false → count (λ d. d.active) cs ≡ 0
unfolding exists count
none_active [] h = refl
none_active (c ∷ cs) h = ground (arith, none_active cs)

map-update :
    (f : SamlCertificate → Text) (g : SamlCertificate → SamlCertificate)
    → ((c : SamlCertificate) → f (g c) ≡ f c)
    → (cs : List SamlCertificate) → map f (update_where (λ d. d.active) g cs) ≡ map f cs
unfolding update_where
map-update f g keep [] = refl
map-update f g keep (c ∷ cs) = ground (arith, keep c, map-update f g keep cs)

-- Exactly one certificate is active, and it is the one that is returned; the earlier ones are kept.
pub record OneActive (k : CertificateAndKey) (a b : Db) : Type 0 where
  pub kid : Text
  pub found :
      (c : SamlCertificate) × (find (λ d. d.active) b.saml_certificates ≡ some c)
      × (c.certificate_der ≡ k.certificate)
  pub single : count (λ d. d.active) b.saml_certificates ≡ 1
  pub kids : map (λ d. d.kid) b.saml_certificates ≡ kid ∷ map (λ d. d.kid) a.saml_certificates
  pub others : b ≡ record a { saml_certificates = b.saml_certificates }

Replaced-OneActive :
    (now : ℕ) (a : Db) (k : CertificateAndKey) (b : Db) → Replaced now a k b → OneActive k a b
unfolding retire_certificates find count
Replaced-OneActive now a k b h = record {
  kid = h.first.kid;
  found = (h.first, rw (h.written, h.is_active) refl, h.returned);
  single = rw (h.written, h.is_active) (ground (arith, none_active _ h.idle));
  kids = rw h.written (
      ap (λ ks. h.first.kid ∷ ks)
        (map-update (λ d. d.kid) (λ c. record c { active = false; retired_at = some now })
          (λ c. refl) a.saml_certificates));
  others = rw h.written refl;
}

-- A rotation of the SAML certificate that succeeds leaves exactly one active certificate, the one
-- that it returns, in front of all the earlier ones; one that fails leaves the database as it
-- was.
pub rotate_certificate_lem :
    (e : Env) (w : World)
    → Post (λ k v. OneActive k w.db v.db) (λ _ v. v.db ≡ w.db) (rotate_certificate e w)
unfolding rotate_certificate
rotate_certificate_lem e w =
    Post-mono _ _ (λ _ v. v.db ≡ w.db) (λ _ v. v.db ≡ w.db) (rotate_certificate e w)
      (transaction-Commits (Replaced e.db_now w.db) tt replace_certificate e w
        (λ v same opened. replace-Replaced e w.db v same opened))
      (λ k v h. Replaced-OneActive e.db_now w.db k v.db h) (λ _ v h. h)
