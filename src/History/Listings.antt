-- ===== src/History/Listings.antt =====
-- What the listings keep.
use open_sso.Prelude.{ℕ}
use open_sso.Session.{Principal}
use open_sso.Listings.{get_user, list_applications, list_sessions, list_users, me, setup_status}
use open_sso.History.Keeps.{Keeps}
use open_sso.History.Shared.{keeping}

pub setup_status-Keeps : Keeps setup_status
unfolding setup_status
setup_status-Keeps = search keeping depth 40

pub me-Keeps : (actor : Principal) → Keeps (me actor)
unfolding me
me-Keeps actor = search keeping depth 40

pub list_users-Keeps : Keeps list_users
unfolding list_users
list_users-Keeps = search keeping depth 40

pub get_user-Keeps : (id : ℕ) → Keeps (get_user id)
unfolding get_user
get_user-Keeps id = search keeping depth 40

pub list_sessions-Keeps : Keeps list_sessions
unfolding list_sessions
list_sessions-Keeps = search keeping depth 40

pub list_applications-Keeps : Keeps list_applications
unfolding list_applications
list_applications-Keeps = search keeping depth 40
