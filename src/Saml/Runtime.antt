-- ===== src/Saml/Runtime.antt =====
-- The gate in front of the SAML endpoints: `buildHandler` of backend/internal/samlidp/runtime.go.
use open_sso.Prelude.{
  ℕ, ◌*◌, Text, codes, text_eq, byte_len, ltb, ◌&&◌, ◌||◌, not, Bool, if◌then◌else◌,
}

-- What the gate reads of a request: the size of the query, and the path after `/saml`.
record SamlHttp : Type 0 where
  pub method : Text
  pub query_size : ℕ
  pub relay_state : Text
  pub path : Text

-- Where a request goes: it is refused with a status, answered with the metadata, or handed to the
-- provider, with a limit on the body or without one.
data Passage : Type 0 where
  refused : ℕ → Passage
  to_metadata : Passage
  to_provider : Text → Bool → Passage

abbrev is_get : SamlHttp → Bool
is_get h = text_eq h.method (codes "GET")

-- The endpoints of the provider that are served; `offered` is its list of routes.
unfoldable is_served : (Text → Bool) → Text → Bool
is_served offered path =
    offered path
    && (text_eq path (codes "/certificate")
        || text_eq path (codes "/callback")
        || text_eq path (codes "/sso"))

unfoldable passage : (Text → Bool) → SamlHttp → Passage
unfolding is_served
passage offered h =
    if ltb (128 * 1024) h.query_size
    then refused 413
    else if ltb 1_024 (byte_len h.relay_state)
    then refused 400
    else if text_eq h.path (codes "/metadata")
    then if is_get h then to_metadata else refused 405
    else if not (is_served offered h.path)
    then refused 404
    else if (text_eq h.path (codes "/sso") || text_eq h.path (codes "/callback")) && not (is_get h)
    then refused 405
    else to_provider h.path (text_eq h.method (codes "POST"))
