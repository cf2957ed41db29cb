-- ===== src/History/Accounts.antt =====
-- What the handlers of accounts, logins, sessions and the security policy keep.
use open_sso.Prelude.{ℕ, Text, Bool, Option, none, some}
use open_sso.Store.{SecurityPolicy}
use open_sso.Session.{Principal}
use open_sso.Directory.{
  bootstrap, create_user, grant_role, insert_password, insert_role, insert_user, store_bootstrap,
  store_user,
}
use open_sso.Login.{answer_login, try_login, Account, login, open_session, refuse, welcome}
use open_sso.Policy.{set_policy, show_security_policy, update_security_policy}
use open_sso.Session.{logout}
use open_sso.Users.{
  change_own_password, change_user, check_factor, edit_user, reset_user_password,
  revoke_all_sessions, revoke_session, revoke_user_sessions, set_password, store_change,
  store_reset, unlock_user, update_user,
}
use open_sso.History.Keeps.{Keeps}
use open_sso.History.Shared.{keeping}

pub update_security_policy-Keeps :
    (actor : Principal) (p : SecurityPolicy) → Keeps (update_security_policy actor p)
unfolding update_security_policy set_policy
update_security_policy-Keeps actor p = search keeping depth 40

pub show_security_policy-Keeps : Keeps show_security_policy
unfolding show_security_policy
show_security_policy-Keeps = search keeping depth 40

pub update_user-Keeps :
    (actor : Principal) (id : ℕ) (email display_name : Text) (active : Option Bool)
    → Keeps (update_user actor id email display_name active)
unfolding update_user edit_user change_user
update_user-Keeps actor id email display_name active = search keeping depth 40

pub unlock_user-Keeps : (actor : Principal) (id : ℕ) → Keeps (unlock_user actor id)
unfolding unlock_user change_user
unlock_user-Keeps actor id = search keeping depth 40

pub reset_user_password-Keeps :
    (actor : Principal) (id : ℕ) (password : Text) → Keeps (reset_user_password actor id password)
unfolding reset_user_password store_reset set_password change_user
reset_user_password-Keeps actor id password = search keeping depth 40

pub change_own_password-Keeps :
    (actor : Principal) (current password : Text)
    → Keeps (change_own_password actor current password)
unfolding change_own_password check_factor store_change set_password change_user
change_own_password-Keeps actor current password = search keeping depth 40

pub revoke_session-Keeps : (actor : Principal) (id : ℕ) → Keeps (revoke_session actor id)
unfolding revoke_session
revoke_session-Keeps actor id = search keeping depth 40

pub revoke_user_sessions-Keeps :
    (actor : Principal) (id : ℕ) → Keeps (revoke_user_sessions actor id)
unfolding revoke_user_sessions
revoke_user_sessions-Keeps actor id = search keeping depth 40

pub revoke_all_sessions-Keeps : (actor : Principal) → Keeps (revoke_all_sessions actor)
unfolding revoke_all_sessions
revoke_all_sessions-Keeps actor = search keeping depth 40

pub logout-Keeps : (cookie : Option Text) (actor : Principal) → Keeps (logout cookie actor)
unfolding logout
logout-Keeps none actor = search keeping depth 20
logout-Keeps (some token) actor = search keeping depth 20

pub refuse-Keeps : (p : SecurityPolicy) (a : Option Account) → Keeps (refuse p a)
unfolding refuse change_user
refuse-Keeps p none = search keeping depth 40
refuse-Keeps p (some x) = search keeping depth 40

pub welcome-Keeps : (p : SecurityPolicy) (a : Account) → Keeps (welcome p a)
unfolding welcome open_session change_user
welcome-Keeps p a = search keeping depth 40

answered-Keeps : (p : SecurityPolicy) (a v : Option Account) → Keeps (answer_login p a v)
answered-Keeps p a none = refuse-Keeps p a
answered-Keeps p a (some b) = welcome-Keeps p b

pub login-Keeps : (ip username password : Text) → Keeps (login ip username password)
unfolding login try_login
login-Keeps ip username password = search (keeping, answered-Keeps) depth 40

pub bootstrap-Keeps :
    (token header username email display_name password : Text)
    → Keeps (bootstrap token header username email display_name password)
unfolding bootstrap store_bootstrap insert_user insert_password insert_role
bootstrap-Keeps token header username email display_name password = search keeping depth 40

pub create_user-Keeps :
    (actor : Principal) (username email display_name password : Text)
    → Keeps (create_user actor username email display_name password)
unfolding create_user store_user insert_user insert_password grant_role
create_user-Keeps actor username email display_name password = search keeping depth 40
