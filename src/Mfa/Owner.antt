-- ===== src/Mfa/Owner.antt =====
-- The ceremonies in Redis and the user as the WebAuthn library gets it:
-- `storeCeremony`, `consumeCeremony`, `loadUser` of backend/internal/mfa/webauthn.go.
use open_sso.Prelude.{
  ℕ, ◌+◌, Text, codes, text_eq, is_empty, find, exists, select, ◌==◌, ◌&&◌, not, is_some, Bool,
  Option, none, some, if◌then◌else◌, List, [], ◌∷◌, ◌++◌,
}
use open_sso.Store.{Db, WebauthnCredential, WebauthnUser}
use open_sso.Web.{
  Env, Ceremony, KeyOwner, M, MfaError, not_enrolled, failure, next, done, ◌>>=◌, ◌>>◌, pure, stop,
  or_stop, check, ask, draw, Row, failed, no_rows, row, found, query, query_row, try_exec,
  sha256_string,
}
use open_sso.Mfa.Box.{decrypt}

-- `webAuthnAAD`.
unfoldable pub webauthn_aad : Env → ℕ → Text → Text
webauthn_aad e user_id credential_id =
    codes "webauthn:" ++ e.uuid_text user_id ++ codes ":" ++ e.raw_url_encode credential_id

-- The Redis store of ceremonies: `Set` and `GetDel`, on the key without its prefix.
unfoldable pub store_value : Ceremony → M MfaError (Unit {0})
store_value c e w = (
  if e.fault w.calls then done failure else next tt,
  record w {
    ceremonies =
        if e.fault w.calls
        then w.ceremonies
        else c ∷ select (λ d. not (text_eq d.hash c.hash)) w.ceremonies;
    calls = w.calls + 1;
  },
)

unfoldable pub take_value : Text → M MfaError Ceremony
take_value hash e w = (
  elim (if e.fault w.calls then none else find (λ d. text_eq d.hash hash) w.ceremonies) [
    | none ↦ done failure
    | some c ↦ next c
  ],
  record w {
    ceremonies =
        if e.fault w.calls
        then w.ceremonies
        else select (λ d. not (text_eq d.hash hash)) w.ceremonies;
    calls = w.calls + 1;
  },
)

-- `storeCeremony`.
unfoldable pub store_ceremony : ℕ → Text → Text → M MfaError Text
unfolding store_value
store_ceremony user_id kind session = do
  token ← or_stop (← draw) failure
  hash ← ask (λ e. sha256_string e token)
  store_value (record { hash = hash; user_id = user_id; kind = kind; session = session })
  pure token

-- `consumeCeremony`: the ceremony is gone afterwards, whatever becomes of it.
unfoldable pub consume_ceremony : Text → M MfaError Ceremony
unfolding take_value
consume_ceremony token = do
  check (not (is_empty token)) failure
  hash ← ask (λ e. sha256_string e token)
  take_value hash

abbrev find_handle : ℕ → Db → Option WebauthnUser
find_handle user_id db = find (λ h. h.user_id == user_id) db.webauthn_users

-- `INSERT INTO webauthn_users … ON CONFLICT(user_id) DO NOTHING`: the handle is unique.
unfoldable pub insert_handle : ℕ → Text → Db → Option Db
insert_handle user_id handle db =
    if is_some (find_handle user_id db)
    then some db
    else if exists (λ h. text_eq h.user_handle handle) db.webauthn_users
    then none
    else some (record db {
      webauthn_users = record { user_id = user_id; user_handle = handle } ∷ db.webauthn_users;
    })

-- The handle of a user, made on demand.
unfoldable pub make_handle : ℕ → M MfaError Text
unfolding insert_handle
make_handle user_id = do
  handle ← or_stop (← draw) failure
  stored ← try_exec (insert_handle user_id handle)
  check stored failure
  h ← or_stop (found (← query_row (find_handle user_id))) failure
  pure h.user_handle

abbrev pub handle_of : ℕ → Bool → Row WebauthnUser → M MfaError Text
handle_of user_id ensure failed = stop failure
handle_of user_id ensure no_rows = if ensure then make_handle user_id else stop not_enrolled
handle_of user_id ensure (row h) = pure h.user_handle

-- The loop over the credentials: each is opened and parsed.
unfoldable open_keys : Env → ℕ → List WebauthnCredential → Option (List Text)
unfolding decrypt webauthn_aad
open_keys e user_id [] = some []
open_keys e user_id (c ∷ cs) =
    let rest = open_keys e user_id cs in
    elim (decrypt e c.encrypted_credential (webauthn_aad e user_id c.credential_id)) [
      | none ↦ none
      | some raw ↦ elim (e.webauthn_parse raw) [
        | none ↦ none
        | some key ↦ elim rest [ none ↦ none | some keys ↦ some (key ∷ keys) ]
      ]
    ]

abbrev pub credentials_of : ℕ → Db → List WebauthnCredential
credentials_of user_id db = select (λ c. c.user_id == user_id) db.webauthn_credentials

-- `loadUser`.
unfoldable pub load_user : ℕ → Bool → M MfaError KeyOwner
unfolding open_keys make_handle
load_user user_id ensure = do
  u ← or_stop (found (← query_row (λ db. find (λ u. u.id == user_id && u.active) db.users))) failure
  r ← query_row (find_handle user_id)
  handle ← handle_of user_id ensure r
  rows ← or_stop (← query (credentials_of user_id)) failure
  keys ← or_stop (← ask (λ e. open_keys e user_id rows)) failure
  pure (record {
    handle = handle;
    name = u.username;
    display_name = if is_empty u.display_name then u.username else u.display_name;
    keys = keys;
  })
