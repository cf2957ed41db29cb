-- ===== src/Web/Externals.antt =====
-- What the program calls and does not implement.
use open_sso.Prelude.{ℕ, ◌*◌, ◌/◌, Text, Bool, List, Option}
use open_sso.Store.{Db, SigningKeyRow}

-- `accessClaims` with the registered claims of the token.
pub record AccessClaims : Type 0 where
  pub scope : Text
  pub token_use : Text
  pub issuer : Text
  pub subject : Text
  pub audience : List Text
  pub expires_at : ℕ
  pub issued_at : ℕ
  pub jti : Text

-- `idClaims`.
pub record IdClaims : Type 0 where
  pub nonce : Text
  pub names : Option (Text × Text)
  pub email : Option Text
  pub groups : Option (List Text)
  pub issuer : Text
  pub subject : Text
  pub audience : List Text
  pub expires_at : ℕ
  pub issued_at : ℕ

-- A user and the unsealed credentials, as github.com/go-webauthn/webauthn gets them.
pub record KeyOwner : Type 0 where
  pub handle : Text
  pub name : Text
  pub display_name : Text
  pub keys : List Text

-- What the library returns for a new key: its id, its data, and whether the browser said that it is
-- resident.
pub record NewKey : Type 0 where
  pub credential_id : Text
  pub raw : Text
  pub resident : Option Bool

-- Metadata of a SAML service provider, as github.com/zitadel/saml parses it: the binding and the
-- location of each AssertionConsumerService, if there is a descriptor of a service provider.
pub record SpMetadata : Type 0 where
  pub entity_id : Text
  pub services : Option (List (Text × Text))

-- What net/url makes of a request URI.
pub record RequestUri : Type 0 where
  pub scheme : Text
  pub host : Text
  pub path : Text
  pub fragment : Text
  pub has_user : Bool

-- `fault n` says whether the n-th call to the database or to Redis fails, and `entropy n` is the
-- n-th text that the random source gives. `now` is `time.Now()`, `db_now` the SQL `now()`, in
-- nanoseconds, both fixed for a request.
pub record Env : Type 0 where
  pub fault : ℕ → Bool
  pub entropy : ℕ → Option Text
  pub now : ℕ
  pub db_now : ℕ
  pub public_url : Text
  -- crypto/sha256 with encoding/base64, on the bytes of a text.
  pub sha256_sum : Text → Text
  pub raw_url_encode : Text → Text
  -- golang.org/x/crypto/argon2: `IDKey` of a password, a salt, the time, the memory, the
  -- parallelism and the length of the key; base64.RawStdEncoding on bytes.
  pub argon_id_key : Text → Text → ℕ → ℕ → ℕ → ℕ → Text
  pub std_encode : Text → Text
  pub std_decode : Text → Option Text
  -- unicode.IsUpper, IsLower, IsDigit, and IsPunct or IsSymbol; SQL's `lower`;
  -- `strings.ToLower` and `strings.ToUpper`.
  pub is_upper : ℕ → Bool
  pub is_lower : ℕ → Bool
  pub is_digit : ℕ → Bool
  pub is_symbol : ℕ → Bool
  pub lower : Text → Text
  pub to_lower : Text → Text
  pub to_upper : Text → Text
  -- An uuid as the text that PostgreSQL prints.
  pub uuid_text : ℕ → Text
  -- github.com/golang-jwt/jwt: signing with a private key; the algorithm and the `kid` of a token;
  -- the check of signature, issuer and expiry at a time with a public key.
  pub sign_access : Text → Text → AccessClaims → Option Text
  pub sign_id : Text → Text → IdClaims → Option Text
  pub token_header : Text → Text × Text
  pub parse_access : Text → Text → ℕ → Text → Option AccessClaims
  pub parse_id : Text → Text → ℕ → Text → Option IdClaims
  -- crypto/rsa and crypto/x509: a key pair of the random source, as private DER and public key;
  -- reading DER back; the JSON that `jwkFromPublicKey` marshals to.
  pub generate_key : ℕ → Option (Text × Text)
  pub parse_private_key : Text → Option Text
  pub public_jwk : Text → Text → Text
  pub jwk_public_key : Text → Option Text
  -- AES-GCM under the master key: sealing and opening with a nonce and additional data.
  pub seal : Text → Text → Text → Text
  pub open_sealed : Text → Text → Text → Option Text
  -- github.com/pquerna/otp/totp: a secret of the random source with its URL; whether a code fits a
  -- secret at a time, with one period of skew; the PNG of a URL as a data URL.
  pub totp_generate : ℕ → Text → Option (Text × Text)
  pub totp_valid : Text → Text → ℕ → Option Bool
  pub qr_image : Text → Option Text
  -- encoding/base32 without padding.
  pub base32 : Text → Text
  -- github.com/go-webauthn/webauthn: options and session of a ceremony begun with the random source,
  -- for a registration of a passkey or not; the end of a ceremony on the request of the browser; the
  -- JSON of a stored credential.
  pub webauthn_register : ℕ → Bool → KeyOwner → Option (Text × Text)
  pub webauthn_registered : KeyOwner → Text → Text → Option NewKey
  pub webauthn_challenge : ℕ → KeyOwner → Option (Text × Text)
  pub webauthn_answered : KeyOwner → Text → Text → Option NewKey
  pub webauthn_parse : Text → Option Text
  -- net/url: the scheme, the host and the fragment of a URL.
  pub parse_url : Text → Option (Text × (Text × Text))
  pub parse_request_uri : Text → Option RequestUri
  -- github.com/zitadel/saml: the parser of metadata; what `NewServiceProvider` reads of metadata as
  -- AuthnRequestsSigned, if there is a descriptor; and `PostBinding`.
  pub parse_metadata : Text → Option SpMetadata
  pub new_service_provider : Text → Option (Option Text)
  pub post_binding : Text
  -- crypto/rsa and crypto/x509 with 3072 bits: the private key as DER; the certificate of a serial
  -- number and a key, valid from and to a time; `AddDate(2, 0, 0)`.
  pub generate_saml_key : ℕ → Option Text
  pub create_certificate : Text → Text → ℕ → ℕ → Option Text
  pub add_two_years : ℕ → ℕ
  -- The order of PostgreSQL's collation.
  pub before : Text → Text → Bool

-- The nanoseconds in a second and in a minute.
abbrev pub second : ℕ
second = 1_000_000_000

abbrev pub minute : ℕ
minute = 60 * second

-- `security.SHA256String`.
abbrev pub sha256_string : Env → Text → Text
sha256_string e v = e.raw_url_encode (e.sha256_sum v)

-- A time in seconds: `Time.Unix`.
abbrev pub unix : ℕ → ℕ
unix t = t / second

-- A Redis counter, with the life that `Expire` gave it.
pub record Counter : Type 0 where
  pub key : Text
  pub hits : ℕ
  pub ttl : Option ℕ

-- A WebAuthn ceremony in Redis, by the hash of its token.
pub record Ceremony : Type 0 where
  pub hash : Text
  pub user_id : ℕ
  pub kind : Text
  pub session : Text

-- The state of the world. While a transaction is open, `saved` is the database to go back to.
-- The signing keys stand apart: their statements never run in a handler's transaction.
pub record World : Type 0 where
  pub db : Db
  pub saved : Option Db
  pub keys : List SigningKeyRow
  pub counters : List Counter
  pub ceremonies : List Ceremony
  pub calls : ℕ
  pub draws : ℕ
