-- ===== src/Saml/Requests.antt =====
-- Authentication requests: backend/internal/samlidp/storage.go.
use open_sso.Prelude.{
  ℕ, ◌+◌, ◌*◌, String, Text, codes, text_eq, is_empty, trim_space, byte_len, find, exists, count,
  update_where, ltb, ◌==◌, ◌&&◌, ◌||◌, not, is_some, Bool, true, false, Option, none, some,
  if◌then◌else◌, ◌∷◌,
}
use open_sso.Store.{Db, SamlRequest}
use open_sso.Web.{
  Env, M, Row, failed, no_rows, row, ◌>>=◌, ◌>>◌, pure, stop, or_stop, check, ask, draw, found,
  query, query_row, try_exec, exec_count, commit, transaction, minute,
}
use open_sso.Portal.{is_entitled}
pub mod Cases
pub mod Outcomes

-- `samlp.AuthnRequestType`, by the fields that are read.
pub record AuthnRequest : Type 0 where
  pub id : Text
  pub issuer : Option Text
  pub destination : Text
  pub protocol_binding : Text
  pub acs_url : Text

-- `AuthRequest`.
pub record AuthRequest : Type 0 where
  pub id : Text
  pub application_id : ℕ
  pub relay_state : Text
  pub acs_url : Text
  pub binding_type : Text
  pub saml_request_id : Text
  pub issuer : Text
  pub destination : Text
  pub user_id : Option ℕ
  pub completed : Bool

-- `Done`.
unfoldable pub is_done : AuthRequest → Bool
is_done r = r.completed && is_some r.user_id

-- The request has an id and an issuer.
unfoldable issuer_of : Option AuthnRequest → Option (AuthnRequest × Text)
issuer_of none = none
issuer_of (some q) = elim q.issuer [
  | none ↦ none
  | some i ↦ if is_empty q.id || is_empty (trim_space i) then none else some (q, i)
]

abbrev differs : Text → Text → Bool
differs s t = not (is_empty s) && not (text_eq s t)

-- `INSERT INTO saml_authn_requests`: the key and the id are unique, and the application exists.
unfoldable pub insert_saml_request : SamlRequest → Db → Option Db
insert_saml_request q db =
    if exists (λ p. text_eq p.request_key q.request_key) db.saml_requests
      || exists (λ p. text_eq p.saml_request_id q.saml_request_id) db.saml_requests
      || not (exists (λ a. a.id == q.application_id) db.applications)
    then none
    else some (record db { saml_requests = q ∷ db.saml_requests })

-- The row of a new request.
unfoldable saml_request_row : AuthnRequest → Text → Text → Text → Text → ℕ → Text → ℕ → SamlRequest
saml_request_row q issuer acs_url binding relay_state application_id key expires_at = record {
  request_key = key;
  saml_request_id = q.id;
  application_id = application_id;
  issuer = issuer;
  destination = q.destination;
  acs_url = acs_url;
  response_binding = binding;
  relay_state = relay_state;
  user_id = none;
  expires_at = expires_at;
  completed_at = none;
  consumed_at = none;
}

-- What the program makes of a row.
unfoldable pub request_of : SamlRequest → AuthRequest
request_of q = record {
  id = q.request_key;
  application_id = q.application_id;
  relay_state = q.relay_state;
  acs_url = q.acs_url;
  binding_type = q.response_binding;
  saml_request_id = q.saml_request_id;
  issuer = q.issuer;
  destination = q.destination;
  user_id = q.user_id;
  completed = is_some q.completed_at;
}

-- `CreateAuthRequest`.
unfoldable pub create_auth_request :
    Option AuthnRequest → Text → Text → Text → ℕ → M String AuthRequest
unfolding issuer_of insert_saml_request saml_request_row request_of
create_auth_request request acs_url binding relay_state application_id = do
  q ← or_stop (issuer_of request) "invalid SAML AuthnRequest"
  check (not (ltb 1_024 (byte_len relay_state))) "SAML RelayState exceeds 1024 bytes"
  check (not (is_empty acs_url || is_empty binding)) "SAML ACS URL and binding are required"
  post ← ask (λ e. e.post_binding)
  check (text_eq binding post) "OpenSSO supports HTTP-POST SAML responses only"
  check (not (differs q.0.protocol_binding post))
      "AuthnRequest requested unsupported response binding"
  check (not (differs q.0.acs_url acs_url))
      "AuthnRequest ACS URL does not exactly match registered metadata"
  key ← or_stop (← draw) "entropy failure"
  until ← ask (λ e. e.db_now + 5 * minute)
  r ← pure (saml_request_row q.0 q.1 acs_url binding relay_state application_id key until)
  stored ← try_exec (insert_saml_request r)
  check stored "persist SAML AuthnRequest"
  pure (request_of r)

-- The errors of the two operations below; `denied` comes with the application.
pub data SamlError : Type 0 where
  not_found not_completed storage_failure : SamlError
  denied : ℕ → SamlError

-- A row that is looked up, in an operation that tells a missing row from a failure.
abbrev pub or_not_found : {A : Type 0} → Row A → M SamlError A
or_not_found failed = stop storage_failure
or_not_found no_rows = stop not_found
or_not_found (row a) = pure a

unfoldable pub lookup : (Db → Option SamlRequest) → M SamlError SamlRequest
lookup f = do or_not_found (← query_row f)

-- `WHERE request_key=$1 AND expires_at>now() AND consumed_at IS NULL`.
unfoldable pub find_open : Text → ℕ → Db → Option SamlRequest
find_open key now db =
    find (λ q. text_eq q.request_key key && (ltb now q.expires_at && not (is_some q.consumed_at)))
      db.saml_requests

-- `UPDATE saml_authn_requests SET consumed_at=now() WHERE request_key=$1 AND consumed_at IS NULL`.
abbrev pub is_unanswered : Text → SamlRequest → Bool
is_unanswered key q = text_eq q.request_key key && not (is_some q.consumed_at)

unfoldable pub answer_request : Text → ℕ → Db → Db
answer_request key now db = record db {
  saml_requests =
      update_where (is_unanswered key) (λ q. record q { consumed_at = some now }) db.saml_requests;
}

abbrev pub affected : (SamlRequest → Bool) → Db → ℕ
affected p db = count p db.saml_requests

-- The end of both operations: exactly one row was written.
abbrev pub one_written : Option ℕ → M SamlError (Unit {0})
one_written none = stop storage_failure
one_written (some n) = do
  check (n == 1) not_found
  committed ← commit
  check committed storage_failure

-- The part of `AuthRequestByID` in the transaction, and what it does with the row that it finds.
unfoldable pub take_found : Text → ℕ → SamlRequest → M SamlError AuthRequest
unfolding answer_request request_of
take_found key now q = do
  check (is_some q.user_id && is_some q.completed_at) not_completed
  one_written (← exec_count (affected (is_unanswered key)) (answer_request key now))
  pure (request_of q)

unfoldable pub take_request : Text → M SamlError AuthRequest
unfolding find_open lookup take_found
take_request key = do
  now ← ask (λ e. e.db_now)
  q ← lookup (find_open key now)
  take_found key now q

-- `AuthRequestByID`.
unfoldable pub auth_request_by_id : Text → M SamlError AuthRequest
unfolding take_request
auth_request_by_id key = transaction storage_failure (take_request key)

-- The request is not completed either.
unfoldable pub find_pending : Text → ℕ → Db → Option SamlRequest
find_pending key now db =
    find
      (λ q.
        text_eq q.request_key key
        && (ltb now q.expires_at && not (is_some q.consumed_at) && not (is_some q.completed_at)))
      db.saml_requests

-- The query on the assignments: the application is enabled, a SAML one, and assigned to the user
-- or to a group of the user.
unfoldable pub may_use : ℕ → ℕ → Db → Bool
unfolding is_entitled
may_use application_id user_id db =
    exists (λ a. a.id == application_id && (a.enabled && text_eq a.protocol (codes "saml")))
      db.applications
    && is_entitled user_id application_id db

-- `UPDATE saml_authn_requests SET user_id=$2,completed_at=now() WHERE …`.
abbrev pub is_pending : Text → SamlRequest → Bool
is_pending key q =
    text_eq q.request_key key && (not (is_some q.completed_at) && not (is_some q.consumed_at))

unfoldable pub complete_request : Text → ℕ → ℕ → Db → Db
complete_request key user_id now db = record db {
  saml_requests =
      update_where (is_pending key)
        (λ q. record q { user_id = some user_id; completed_at = some now }) db.saml_requests;
}

-- The part of `FinalizeAuthRequest` in the transaction, and what it does with the row that it
-- finds. A user with an assignment exists, so the update violates no constraint.
unfoldable pub bind_found : Text → ℕ → ℕ → SamlRequest → M SamlError ℕ
unfolding may_use complete_request
bind_found key user_id now q = do
  allowed ← or_stop (← query (may_use q.application_id user_id)) storage_failure
  check allowed (denied q.application_id)
  one_written (← exec_count (affected (is_pending key)) (complete_request key user_id now))
  pure q.application_id

unfoldable pub bind_request : Text → ℕ → M SamlError ℕ
unfolding find_pending lookup bind_found
bind_request key user_id = do
  now ← ask (λ e. e.db_now)
  q ← lookup (find_pending key now)
  bind_found key user_id now q

-- `FinalizeAuthRequest`.
unfoldable pub finalize_auth_request : Text → ℕ → M SamlError ℕ
unfolding bind_request
finalize_auth_request key user_id = transaction storage_failure (bind_request key user_id)
