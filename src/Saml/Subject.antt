-- ===== src/Saml/Subject.antt =====
-- What the provider asks of the storage about applications and users:
-- backend/internal/samlidp/storage.go.
use open_sso.Prelude.{
  ℕ, String, Text, codes, text_eq, trim_space, find, exists, select, map, order_by, ◌==◌, ◌&&◌,
  ◌||◌, Bool, Option, none, some, if◌then◌else◌, is_empty, List,
}
use open_sso.Store.{Db, SamlProvider}
use open_sso.Web.{M, ◌>>=◌, ◌>>◌, pure, or_stop, check, ask, found, query, query_row}

-- A service provider that is enabled, by the entity id.
unfoldable find_entity : Text → Db → Option SamlProvider
find_entity entity_id db =
    find
      (λ sp.
        text_eq sp.entity_id entity_id
        && exists
            (λ a. a.id == sp.application_id && (a.enabled && text_eq a.protocol (codes "saml")))
            db.applications)
      db.saml_service_providers

-- The service provider that the library builds: the application, and AuthnRequestsSigned of the
-- descriptor, if there is one. The URL of the login page, that it gets as a function, is left out.
record ServiceProvider : Type 0 where
  pub application_id : ℕ
  pub authn_requests_signed : Option Text

-- Signed requests are asked for where the registration says so.
abbrev forced : Bool → Option Text → Option Text
forced b none = none
forced b (some v) = some (if b then codes "true" else v)

-- `GetEntityByID`.
unfoldable get_entity_by_id : Text → M (Unit {0}) ServiceProvider
unfolding find_entity
get_entity_by_id entity_id = do
  sp ← or_stop (found (← query_row (find_entity entity_id))) tt
  signed ← or_stop (← ask (λ e. e.new_service_provider sp.metadata_xml)) tt
  pure (record {
    application_id = sp.application_id;
    authn_requests_signed = forced sp.require_signed signed;
  })

-- `GetEntityIDByAppID`.
unfoldable get_entity_id : ℕ → M (Unit {0}) Text
get_entity_id id = do
  sp ←
      or_stop
        (found (← query_row (λ db. find (λ p. p.application_id == id) db.saml_service_providers)))
        tt
  pure sp.entity_id

-- What `SetUserinfoWithUserID` sets: the NameID is the address; `groups` only if there are any.
pub record Subject : Type 0 where
  pub username : Text
  pub email : Text
  pub full_name : Text
  pub user_id : ℕ
  pub username_attribute : Text
  pub groups : Option (List Text)

-- `userGroups`.
unfoldable group_names : (Text → Text → Bool) → ℕ → Db → List Text
group_names before user_id db = order_by before (
    map (λ g. g.name)
      (select (λ g. exists (λ m. m.group_id == g.id && m.user_id == user_id) db.memberships)
        db.groups))

-- `SetUserinfoWithUserID`. The text of an error that PostgreSQL returns is not modelled.
unfoldable set_userinfo : ℕ → M String Subject
unfolding group_names
set_userinfo user_id = do
  u ← or_stop (found (← query_row (λ db. find (λ u. u.id == user_id) db.users))) "no user"
  check u.active "SAML subject user is disabled"
  before ← ask (λ e. e.before)
  groups ← or_stop (← query (group_names before user_id)) "no groups"
  pure (record {
    username = u.email;
    email = u.email;
    full_name = u.display_name;
    user_id = user_id;
    username_attribute = u.username;
    groups = if is_empty groups then none else some groups;
  })

-- `SetUserinfoWithLoginName`.
unfoldable set_userinfo_by_name : Text → M String Subject
unfolding set_userinfo
set_userinfo_by_name name = do
  by_name ← ask (λ e. (λ u.
      text_eq (e.lower u.username) (e.lower (trim_space name))
      || text_eq (e.lower u.email) (e.lower (trim_space name))))
  u ← or_stop (found (← query_row (λ db. find by_name db.users))) "no user"
  set_userinfo u.id
