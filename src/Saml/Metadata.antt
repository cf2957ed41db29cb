-- ===== src/Saml/Metadata.antt =====
-- `ValidateServiceProviderMetadata` of backend/internal/samlidp/runtime.go.
use open_sso.Prelude.{
  ℕ, ◌*◌, String, Text, text_eq, is_empty, trim_space, byte_len, exists, ltb, ◌==◌, ◌&&◌, ◌||◌, not,
  Bool, Option, none, some, if◌then◌else◌, List, Result, ok, err,
}
use open_sso.Web.{Env, SpMetadata}
pub mod Laws

-- One megabyte, and the loop that looks for an endpoint with the POST binding.
abbrev max_metadata : ℕ
max_metadata = 1024 * 1024

unfoldable pub has_post_acs : Env → List (Text × Text) → Bool
has_post_acs e = exists (λ acs. text_eq acs.0 e.post_binding && not (is_empty (trim_space acs.1)))

-- The tests on metadata that was parsed.
unfoldable pub check_metadata : Env → SpMetadata → Result String Text
unfolding has_post_acs
check_metadata e m = elim m.services [
  | none ↦ err "metadata does not contain SPSSODescriptor"
  | some acs ↦
      let id = trim_space m.entity_id in
      if is_empty id || ltb 2_048 (byte_len id)
      then err "invalid SAML SP entityID"
      else if not (has_post_acs e acs)
      then err "SAML SP metadata must contain an HTTP-POST AssertionConsumerService"
      else ok id
]

-- `ValidateServiceProviderMetadata`: the entity id. The error of the parser is not modelled.
unfoldable pub validate_metadata : Env → Text → Result String Text
unfolding check_metadata
validate_metadata e xml =
    if byte_len xml == 0 || ltb max_metadata (byte_len xml)
    then err "SAML SP metadata must be between 1 byte and 1 MiB"
    else elim (e.parse_metadata xml) [
      | none ↦ err "invalid SAML SP metadata"
      | some m ↦ check_metadata e m
    ]
