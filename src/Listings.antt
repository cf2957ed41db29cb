-- ===== src/Listings.antt =====
-- The listings for administrators, and what a client asks first: `listUsers`, `listApplications`,
-- `me` and `setupStatus` of backend/internal/httpapi/server.go, `getUser` and `listSessions` of
-- stage1.go.
use open_sso.Prelude.{
  ℕ, find, select, map, order_by, limit, ltb, coalesce, ◌==◌, ◌&&◌, not, is_some, false, none, some,
  List, [], ◌∷◌,
}
use open_sso.Store.{Db, User, Session, Application}
use open_sso.Web.{
  Handler, AccountInfo, ListedSession, ListedApplication, ◌>>=◌, pure, or_stop, ask, found, query,
  query_row, respond, problem, flag, accounts, sessions_of_users, me_as, registered_applications,
}
use open_sso.Session.{Principal}
use open_sso.Mfa.Policy.{status}

unfoldable pub setup_status : Handler
setup_status = do
  initialized ← or_stop (← query (λ db. db.initialized)) (problem 500 "database error")
  pure (respond 200 (flag initialized))

unfoldable pub me : Principal → Handler
unfolding status
me p = do
  st ← or_stop (← status p.user_id none) (problem 500 "MFA status lookup failed")
  pure (
      respond 200 (
        me_as (record {
          session_id = p.session_id;
          user_id = p.user_id;
          username = p.username;
          must_change_password = p.must_change_password;
          mfa_verified = p.mfa_verified;
          mfa_required = st.required;
          mfa_enrollment_required = st.required && not st.has_primary_factor;
        })))

abbrev account_info : User → AccountInfo
account_info u = record {
  id = u.id;
  username = u.username;
  email = u.email;
  display_name = u.display_name;
  active = u.active;
  must_change_password = u.must_change_password;
  locked_until = u.locked_until;
}

unfoldable pub list_users : Handler
list_users = do
  before ← ask (λ e. e.before)
  us ←
      or_stop (← query (λ db. limit 500 (order_by (λ u v. before u.username v.username) db.users)))
        (problem 500 "database error")
  pure (respond 200 (accounts (map account_info us)))

unfoldable pub get_user : ℕ → Handler
get_user id = do
  u ←
      or_stop (found (← query_row (λ db. find (λ u. u.id == id) db.users)))
        (problem 404 "user not found")
  pure (respond 200 (accounts (account_info u ∷ [])))

-- The join of a session with its user; the row drops out without one.
unfoldable with_user : List User → List Session → List ListedSession
with_user us [] = []
with_user us (s ∷ ss) =
    let rest = with_user us ss in
    elim (find (λ u. u.id == s.user_id) us) [
      | none ↦ rest
      | some u ↦
          record {
            id = s.id;
            user_id = s.user_id;
            username = u.username;
            last_seen_at = s.last_seen_at;
            expires_at = s.expires_at;
          }
          ∷ rest
    ]

unfoldable live_of_all : ℕ → Db → List ListedSession
unfolding with_user
live_of_all now db = limit 1_000 (
    order_by (λ s t. not (ltb s.last_seen_at t.last_seen_at))
      (with_user db.users
        (select (λ s. not (is_some s.revoked_at) && ltb now s.expires_at) db.sessions)))

unfoldable pub list_sessions : Handler
unfolding live_of_all
list_sessions = do
  now ← ask (λ e. e.db_now)
  ss ← or_stop (← query (live_of_all now)) (problem 500 "database error")
  pure (respond 200 (sessions_of_users ss))

-- The two left joins, with what COALESCE puts for a missing row.
unfoldable listed : Db → Application → ListedApplication
listed db a =
    let c = find (λ c. c.application_id == a.id) db.oauth_clients in
    let sp = find (λ p. p.application_id == a.id) db.saml_service_providers in
    record {
      id = a.id;
      name = a.name;
      protocol = a.protocol;
      enabled = a.enabled;
      client_id = elim c [ none ↦ [] | some x ↦ x.client_id ];
      entity_id = elim sp [ none ↦ [] | some y ↦ y.entity_id ];
      public_client = elim c [ none ↦ false | some x ↦ x.public_client ];
      require_pkce = elim c [ none ↦ false | some x ↦ x.require_pkce ];
      allowed_scopes = elim c [ none ↦ [] | some x ↦ x.allowed_scopes ];
      initiate_login_uri =
          coalesce (elim c [ none ↦ none | some x ↦ x.initiate_login_uri ])
            (coalesce (elim sp [ none ↦ none | some y ↦ y.initiate_login_uri ]) []);
    }

unfoldable pub list_applications : Handler
unfolding listed
list_applications = do
  before ← ask (λ e. e.before)
  rows ←
      or_stop
        (← query (λ db.
          map (listed db) (limit 500 (order_by (λ a b. before a.name b.name) db.applications))))
        (problem 500 "database error")
  pure (respond 200 (registered_applications rows))
