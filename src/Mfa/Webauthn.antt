-- ===== src/Mfa/Webauthn.antt =====
-- Security keys and passkeys: backend/internal/mfa/webauthn.go.
use open_sso.Prelude.{
  ℕ, suc, ◌+◌, ◌*◌, Text, codes, text_eq, is_empty, trim_space, find, exists, count, select,
  update_where, map, take, leb, ◌==◌, ◌&&◌, ◌||◌, not, is_some, coalesce, Bool, true, false, Option,
  none, some, if◌then◌else◌, List, [], ◌∷◌, ◌++◌,
}
use open_sso.Store.{Db, User, WebauthnCredential, WebauthnUser}
use open_sso.Web.{
  Env, World, Ceremony, KeyOwner, NewKey, KeyInfo, M, MfaError, not_enrolled, last_required_factor,
  failure, next, done, ◌>>=◌, ◌>>◌, pure, stop, or_stop, check, ask, draw, Row, failed, no_rows,
  row, found, query, query_row, exec, exec_count, try_exec, update_returning, insert_returning,
  sha256_string,
}
use open_sso.Mfa.Box.{encrypt, decrypt}
use open_sso.Mfa.Policy.{required}
pub mod Removal
use open_sso.Mfa.Owner.{webauthn_aad, store_ceremony, consume_ceremony, load_user, credentials_of}

abbrev pub registration : Text → Text
registration kind = codes "register:" ++ kind

-- A ceremony of the library, begun with the random source.
abbrev pub begin_with : (ℕ → Env → Option (Text × Text)) → M MfaError (Text × Text)
begin_with f e w = or_stop (f w.draws e) failure e (record w { draws = suc w.draws })

-- `BeginRegistration`: the token of the ceremony, and the options for the browser.
unfoldable pub begin_registration : ℕ → Text → M MfaError (Text × Text)
unfolding load_user store_ceremony
begin_registration user_id kind = do
  check (text_eq kind (codes "security_key") || text_eq kind (codes "passkey")) failure
  owner ← load_user user_id true
  (options, session) ←
      begin_with (λ n e. e.webauthn_register n (text_eq kind (codes "passkey")) owner)
  token ← store_ceremony user_id (registration kind) session
  pure (token, options)

-- `INSERT INTO webauthn_credentials`: the id of a credential is unique.
unfoldable pub insert_key_row : (ℕ → WebauthnCredential) → Db → Option Db
insert_key_row c db =
    if exists (λ d. text_eq d.credential_id (c db.next_id).credential_id) db.webauthn_credentials
    then none
    else some (record db {
      webauthn_credentials = c db.next_id ∷ db.webauthn_credentials;
      next_id = suc db.next_id;
    })

abbrev has_prefix : Text → Text → Bool
has_prefix p s = text_eq (take_as p s) p
  where
    take_as : Text → Text → Text
    take_as [] t = []
    take_as (_ ∷ q) [] = []
    take_as (_ ∷ q) (c ∷ t) = c ∷ take_as q t

-- The name of a new key.
unfoldable key_name : Text → Text → Text
key_name kind display_name =
    if is_empty (trim_space display_name)
    then (if text_eq kind (codes "register:passkey") then codes "Passkey" else codes "Security key")
    else trim_space display_name

abbrev key_row : ℕ → NewKey → Text → Text → Bool → ℕ → WebauthnCredential
key_row user_id key encrypted name discoverable id = record {
  id = id;
  user_id = user_id;
  credential_id = key.credential_id;
  encrypted_credential = encrypted;
  display_name = name;
  discoverable = discoverable;
  last_used_at = none;
}

abbrev info_of : WebauthnCredential → KeyInfo
info_of c = record {
  id = c.id;
  display_name = c.display_name;
  discoverable = c.discoverable;
  last_used_at = c.last_used_at;
}

-- `FinishRegistration`.
unfoldable pub finish_registration : ℕ → Text → Text → Text → M MfaError KeyInfo
unfolding consume_ceremony load_user encrypt insert_key_row key_name webauthn_aad
finish_registration user_id token display_name request = do
  c ← consume_ceremony token
  check (c.user_id == user_id && has_prefix (codes "register:") c.kind) failure
  owner ← load_user user_id false
  key ← or_stop (← ask (λ e. e.webauthn_registered owner c.session request)) failure
  aad ← ask (λ e. webauthn_aad e user_id key.credential_id)
  encrypted ← encrypt key.raw aad
  r ← ask (λ e.
      key_row user_id key encrypted (key_name c.kind display_name)
        (coalesce key.resident (text_eq c.kind (codes "register:passkey"))))
  id ← or_stop (← insert_returning (λ db. db.next_id) (insert_key_row r)) failure
  pure (info_of (r id))

-- `BeginLogin`.
unfoldable pub begin_login : ℕ → M MfaError (Text × Text)
unfolding load_user store_ceremony
begin_login user_id = do
  owner ← load_user user_id false
  check (not (is_empty owner.keys)) not_enrolled
  (options, session) ← begin_with (λ n e. e.webauthn_challenge n owner)
  token ← store_ceremony user_id (codes "login") session
  pure (token, options)

-- `UPDATE webauthn_credentials SET encrypted_credential=$1,last_used_at=now() WHERE …`.
unfoldable pub use_key : ℕ → ℕ → Text → Text → Db → Db
use_key now user_id credential_id encrypted db = record db {
  webauthn_credentials =
      update_where (λ c. c.user_id == user_id && text_eq c.credential_id credential_id)
        (λ c. record c { encrypted_credential = encrypted; last_used_at = some now })
        db.webauthn_credentials;
}

abbrev find_key : ℕ → Text → Db → Option WebauthnCredential
find_key user_id credential_id db =
    find (λ c. c.user_id == user_id && text_eq c.credential_id credential_id)
      db.webauthn_credentials

-- `FinishLogin`: the update returns the row, or no row.
unfoldable pub finish_login : ℕ → Text → Text → M MfaError KeyInfo
unfolding consume_ceremony load_user encrypt use_key webauthn_aad
finish_login user_id token request = do
  c ← consume_ceremony token
  check (c.user_id == user_id && text_eq c.kind (codes "login")) failure
  owner ← load_user user_id false
  key ← or_stop (← ask (λ e. e.webauthn_answered owner c.session request)) failure
  aad ← ask (λ e. webauthn_aad e user_id key.credential_id)
  encrypted ← encrypt key.raw aad
  now ← ask (λ e. e.db_now)
  old ←
      update_returning (find_key user_id key.credential_id)
        (use_key now user_id key.credential_id encrypted)
  k ← or_stop old failure
  pure (record (info_of k) { last_used_at = some now })

-- `List`, in the order of creation.
unfoldable pub list_keys : {R : Type 0} → ℕ → M R (Option (List KeyInfo))
list_keys user_id = query (λ db. map info_of (credentials_of user_id db))

-- Under a policy that requires a second factor, the last one has to stay.
unfoldable pub keep_key : ℕ → Bool → M MfaError (Unit {0})
keep_key user_id false = pure tt
keep_key user_id true = do
  n ←
      or_stop
        (← query {A = Bool × ℕ} (λ db. (
          exists (λ c. c.user_id == user_id && c.active) db.totp_credentials,
          count (λ c. c.user_id == user_id) db.webauthn_credentials,
        )))
        failure
  check (not (not n.0 && leb n.1 1)) last_required_factor

-- `DELETE FROM webauthn_credentials WHERE id=$1 AND user_id=$2`.
abbrev remove_key : ℕ → ℕ → Db → Db
remove_key user_id id db = record db {
  webauthn_credentials =
      select (λ c. not (c.id == id && c.user_id == user_id)) db.webauthn_credentials;
}

-- `DeleteWebAuthn`.
unfoldable pub delete_key : ℕ → ℕ → M MfaError (Unit {0})
unfolding keep_key required
delete_key user_id id = do
  needed ← or_stop (← required user_id none) failure
  keep_key user_id needed
  n ←
      or_stop
        (← exec_count
          (λ db. count (λ c. c.id == id && c.user_id == user_id) db.webauthn_credentials)
          (remove_key user_id id))
        failure
  check (not (n == 0)) not_enrolled
