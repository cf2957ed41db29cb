-- ===== src/Saml/Calls.antt =====
-- The calls with which github.com/zitadel/saml changes what is stored, through
-- backend/internal/samlidp/storage.go.
use open_sso.Prelude.{ℕ, Text, Option}
use open_sso.Web.{Env, World}
use open_sso.Saml.Requests.{AuthnRequest, create_auth_request, auth_request_by_id}
use open_sso.Saml.Certificates.{active_certificate}

pub data StorageCall : Type 0 where
  create_request :
      (request : Option AuthnRequest) (acs_url binding relay_state : Text) (application_id : ℕ)
      → StorageCall
  take_answered : (key : Text) → StorageCall
  signing_key : StorageCall

-- What a call leaves; what it returns goes to the provider.
unfoldable pub call : StorageCall → Env → World → World
unfolding create_auth_request auth_request_by_id active_certificate
call (create_request request acs_url binding relay_state application_id) e w =
    (create_auth_request request acs_url binding relay_state application_id e w).1
call (take_answered key) e w = (auth_request_by_id key e w).1
call signing_key e w = (active_certificate e w).1
