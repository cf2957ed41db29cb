-- ===== src/Saml/Metadata/Laws.antt =====
-- Which metadata is accepted: `ValidateServiceProviderMetadata`.
use open_sso.Prelude.{
  ◌≤◌, Text, is_empty, trim_space, byte_len, true, false, none, some, List, ◌≡◌, ◌↔◌, arith,
  Option-cases, inl, inr, ok,
}
use open_sso.Web.{Env, SpMetadata}
use open_sso.Saml.Metadata.{has_post_acs, check_metadata, validate_metadata}

-- The metadata is of a sensible size, parses, describes a service provider with an endpoint for
-- POST, and names an entity, `id`.
pub record Vetted (e : Env) (xml id : Text) : Type 0 where
  pub size : (1 ≤ byte_len xml) × (byte_len xml ≤ 1_048_576)
  pub parsed : SpMetadata
  pub parses : e.parse_metadata xml ≡ some parsed
  pub services : List (Text × Text)
  pub described : parsed.services ≡ some services
  pub post : has_post_acs e services ≡ true
  pub named : id ≡ trim_space parsed.entity_id
  pub id_size : (is_empty id ≡ false) × (byte_len id ≤ 2_048)

abbrev Fits : Env → SpMetadata → List (Text × Text) → Text → Type 0
Fits e m acs id =
    (id ≡ trim_space m.entity_id)
    × (has_post_acs e acs ≡ true)
    × (is_empty (trim_space m.entity_id) ≡ false)
    × (byte_len (trim_space m.entity_id) ≤ 2_048)

check_metadata_iff :
    (e : Env) (m : SpMetadata) (acs : List (Text × Text)) (id : Text)
    → m.services ≡ some acs
    → (check_metadata e m ≡ ok id) ↔ Fits e m acs id
unfolding check_metadata
check_metadata_iff e m acs id described = rw described (
  λ h. ground (arith, h),
  λ (named, post, some_id, fits). ground (arith, post, some_id, fits, named),
)

no_services :
    (e : Env) (m : SpMetadata) (id : Text) → m.services ≡ none → check_metadata e m ≡ ok id → ⊥
unfolding check_metadata
no_services e m id n h = ground (arith, n, h)

parsed_of :
    (e : Env) (xml id : Text)
    → validate_metadata e xml ≡ ok id
    → (1 ≤ byte_len xml)
      × (byte_len xml ≤ 1_048_576)
      × (m : SpMetadata) × (e.parse_metadata xml ≡ some m)
      × (check_metadata e m ≡ ok id)
unfolding validate_metadata
parsed_of e xml id h = elim (Option-cases (e.parse_metadata xml)) [
  | inl n ↦ absurd (ground (arith, h, n))
  | inr (m, parses) ↦ (ground (arith, h), ground (arith, h), m, parses, ground (arith, h, parses))
]

accepts : (e : Env) (xml id : Text) → Vetted e xml id → validate_metadata e xml ≡ ok id
unfolding validate_metadata
accepts e xml id a = ground (
  arith,
  a.size,
  a.parses,
  (check_metadata_iff e a.parsed a.services id a.described).1
      (a.named, a.post, rw (← a.named) a.id_size.0, rw (← a.named) a.id_size.1),
)

-- Metadata is accepted with an entity id exactly when it has 1 byte to 1 MiB, parses, describes a
-- service provider with an endpoint for POST, and names that entity in 1 to 2048 bytes.
pub validate_metadata_iff :
    (e : Env) (xml id : Text) → (validate_metadata e xml ≡ ok id) ↔ Vetted e xml id
validate_metadata_iff e xml id = (accepted, accepts e xml id)
  where
    accepted : validate_metadata e xml ≡ ok id → Vetted e xml id
    accepted h =
        let (least, most, m, parses, fits) = parsed_of e xml id h in
        elim (Option-cases m.services) [
          | inl n ↦ absurd (no_services e m id n fits)
          | inr (acs, described) ↦
              let (named, post, some_id, sized) =
                (check_metadata_iff e m acs id described).0 fits in
              record {
                size = (least, most);
                parsed = m;
                parses = parses;
                services = acs;
                described = described;
                post = post;
                named = named;
                id_size = (rw named some_id, rw named sized);
              }
        ]
