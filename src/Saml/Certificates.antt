-- ===== src/Saml/Certificates.antt =====
-- `CertificateManager` of backend/internal/samlidp/certificates.go.
use open_sso.Prelude.{
  ℕ, ◌+◌, ◌-◌, ◌*◌, Text, codes, text_eq, length, take, drop, find, exists, select, map,
  update_where, leb, ltb, ◌||◌, not, Bool, true, false, Option, none, some, if◌then◌else◌, List,
  ◌∷◌, ◌++◌,
}
use open_sso.Store.{Db, SamlCertificate}
use open_sso.Web.{
  Env, M, Row, failed, no_rows, row, ◌>>=◌, ◌>>◌, pure, stop, or_stop, check, ask, draw, query,
  query_row, exec, try_exec, commit, transaction, minute, CertificateInfo,
}
pub mod Rotation

-- `key.CertificateAndKey`.
pub record CertificateAndKey : Type 0 where
  pub certificate : Text
  pub key : Text

-- `UPDATE saml_signing_certificates SET active=false,retired_at=now() WHERE active=true`.
unfoldable pub retire_certificates : ℕ → Db → Db
retire_certificates now db = record db {
  saml_certificates =
      update_where (λ c. c.active) (λ c. record c { active = false; retired_at = some now })
        db.saml_certificates;
}

-- `INSERT INTO saml_signing_certificates`: the kid is unique, and at most one row is active.
unfoldable pub insert_certificate : SamlCertificate → Db → Option Db
insert_certificate c db =
    if exists (λ d. text_eq d.kid c.kid) db.saml_certificates
      || exists (λ d. d.active) db.saml_certificates
    then none
    else some (record db { saml_certificates = c ∷ db.saml_certificates })

-- The additional data under which a private key is sealed.
abbrev sealed_for : Text → Text
sealed_for kid = codes "saml:" ++ kid

-- `encryptPrivateKey`, for a key that is given as DER.
unfoldable pub encrypt_saml_key : Text → Text → M (Unit {0}) Text
encrypt_saml_key kid der = do
  nonce ← or_stop (← draw) tt
  ask (λ e. nonce ++ e.seal nonce der (sealed_for kid))

-- `decryptPrivateKey`; the nonce has 12 bytes.
unfoldable decrypt_saml_key : Env → Text → Text → Option Text
decrypt_saml_key e kid encrypted =
    if leb (length encrypted) 12
    then none
    else elim (e.open_sealed (take 12 encrypted) (drop 12 encrypted) (sealed_for kid)) [
      | none ↦ none
      | some der ↦ e.parse_private_key der
    ]

-- `rsa.GenerateKey`, which also reads the random source.
abbrev pub generate_saml : M (Unit {0}) Text
generate_saml e w = or_stop (e.generate_saml_key w.draws) tt e (record w { draws = w.draws + 1 })

abbrev or_fail : M (Unit {0}) Bool → M (Unit {0}) (Unit {0})
or_fail m = m >>= λ ok. check ok tt

-- The new key with its certificate, which is valid from five minutes ago.
unfoldable pub new_certificate : M (Unit {0}) (SamlCertificate × CertificateAndKey)
unfolding encrypt_saml_key
new_certificate = do
  key ← generate_saml
  serial ← or_stop (← draw) tt
  from ← ask (λ e. e.now - 5 * minute)
  to ← ask (λ e. e.add_two_years e.now)
  certificate ← or_stop (← ask (λ e. e.create_certificate serial key from to)) tt
  kid ← or_stop (← draw) tt
  encrypted ← encrypt_saml_key kid key
  pure (
    record {
      kid = kid;
      encrypted_private_key = encrypted;
      certificate_der = certificate;
      not_before = from;
      not_after = to;
      active = true;
      retired_at = none;
    },
    record { certificate = certificate; key = key },
  )

unfoldable pub store_certificate :
    SamlCertificate × CertificateAndKey → M (Unit {0}) CertificateAndKey
unfolding insert_certificate
store_certificate c = do or_fail (try_exec (insert_certificate c.0)); or_fail commit; pure c.1

-- The part of `Rotate` in the transaction. The advisory lock changes no row.
unfoldable pub replace_certificate : M (Unit {0}) CertificateAndKey
unfolding retire_certificates new_certificate store_certificate
replace_certificate = do
  now ← ask (λ e. e.db_now)
  or_fail (exec (λ db. db))
  or_fail (exec (retire_certificates now))
  c ← new_certificate
  store_certificate c

-- `Rotate`.
unfoldable pub rotate_certificate : M (Unit {0}) CertificateAndKey
unfolding replace_certificate
rotate_certificate = transaction tt replace_certificate

-- Thirty days.
abbrev month : ℕ
month = 30 * 24 * 60 * minute

-- What `Active` does with the row that it looked up: a certificate that ends soon is replaced.
unfoldable pub use_certificate : Row SamlCertificate → M (Unit {0}) CertificateAndKey
unfolding rotate_certificate decrypt_saml_key
use_certificate failed = stop tt
use_certificate no_rows = rotate_certificate
use_certificate (row c) = do
  ends_soon ← ask (λ e. ltb c.not_after (e.now + month))
  if ends_soon then rotate_certificate else (do
    key ← or_stop (← ask (λ e. decrypt_saml_key e c.kid c.encrypted_private_key)) tt
    pure (record { certificate = c.certificate_der; key = key }))

-- `Active`, which is also `GetCA`, `GetMetadataSigningKey` and `GetResponseSigningKey`.
unfoldable pub active_certificate : M (Unit {0}) CertificateAndKey
unfolding use_certificate
active_certificate = do
  use_certificate (← query_row (λ db. find (λ c. c.active) db.saml_certificates))

abbrev certificate_info : SamlCertificate → CertificateInfo
certificate_info c = record {
  kid = c.kid;
  active = c.active;
  not_before = c.not_before;
  not_after = c.not_after;
  retired_at = c.retired_at;
}

-- `Metadata`: the active certificate first, then the others, newest first.
unfoldable pub list_certificates : {R : Type 0} → M R (Option (List CertificateInfo))
list_certificates = query (λ db. map certificate_info (
    select (λ c. c.active) db.saml_certificates ++ select (λ c. not c.active) db.saml_certificates))
