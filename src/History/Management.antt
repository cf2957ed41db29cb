-- ===== src/History/Management.antt =====
-- What the handlers of groups, roles and applications, and of the portal, keep.
use open_sso.Prelude.{ℕ, Text}
use open_sso.Session.{Principal}
use open_sso.Groups.{
  add_group_member, add_member, create_group, delete_group, edit_group, get_group, insert_group,
  list_group_members, list_groups, remove_group, remove_group_member, update_group,
}
use open_sso.Portal.{
  edit_profile, my_access, my_applications, my_profile, my_sessions, revoke_my_session,
  update_my_profile,
}
use open_sso.Roles.{add_role, assign_role, list_roles, list_user_roles, remove_role, take_role}
use open_sso.Users.{change_user}
use open_sso.History.Keeps.{Keeps}
use open_sso.History.Shared.{keeping}

pub create_group-Keeps :
    (actor : Principal) (name description : Text) → Keeps (create_group actor name description)
unfolding create_group insert_group
create_group-Keeps actor name description = search keeping depth 40

pub list_groups-Keeps : Keeps list_groups
unfolding list_groups
list_groups-Keeps = search keeping depth 40

pub get_group-Keeps : (id : ℕ) → Keeps (get_group id)
unfolding get_group
get_group-Keeps id = search keeping depth 40

pub update_group-Keeps :
    (actor : Principal) (id : ℕ) (name description : Text)
    → Keeps (update_group actor id name description)
unfolding update_group edit_group
update_group-Keeps actor id name description = search keeping depth 40

pub delete_group-Keeps : (actor : Principal) (id : ℕ) → Keeps (delete_group actor id)
unfolding delete_group remove_group
delete_group-Keeps actor id = search keeping depth 40

pub add_group_member-Keeps :
    (actor : Principal) (group_id user_id : ℕ) → Keeps (add_group_member actor group_id user_id)
unfolding add_group_member add_member
add_group_member-Keeps actor group_id user_id = search keeping depth 40

pub remove_group_member-Keeps :
    (actor : Principal) (group_id user_id : ℕ) → Keeps (remove_group_member actor group_id user_id)
unfolding remove_group_member
remove_group_member-Keeps actor group_id user_id = search keeping depth 40

pub list_group_members-Keeps : (id : ℕ) → Keeps (list_group_members id)
unfolding list_group_members
list_group_members-Keeps id = search keeping depth 40

pub list_roles-Keeps : Keeps list_roles
unfolding list_roles
list_roles-Keeps = search keeping depth 40

pub list_user_roles-Keeps : (user_id : ℕ) → Keeps (list_user_roles user_id)
unfolding list_user_roles
list_user_roles-Keeps user_id = search keeping depth 40

pub assign_role-Keeps :
    (actor : Principal) (user_id role_id : ℕ) → Keeps (assign_role actor user_id role_id)
unfolding assign_role add_role
assign_role-Keeps actor user_id role_id = search keeping depth 40

pub remove_role-Keeps :
    (actor : Principal) (user_id role_id : ℕ) → Keeps (remove_role actor user_id role_id)
unfolding remove_role take_role
remove_role-Keeps actor user_id role_id = search keeping depth 40

pub my_access-Keeps : (actor : Principal) → Keeps (my_access actor)
unfolding my_access
my_access-Keeps actor = search keeping depth 40

pub my_profile-Keeps : (actor : Principal) → Keeps (my_profile actor)
unfolding my_profile
my_profile-Keeps actor = search keeping depth 40

pub update_my_profile-Keeps :
    (actor : Principal) (email display_name : Text)
    → Keeps (update_my_profile actor email display_name)
unfolding update_my_profile edit_profile change_user
update_my_profile-Keeps actor email display_name = search keeping depth 40

pub my_sessions-Keeps : (actor : Principal) → Keeps (my_sessions actor)
unfolding my_sessions
my_sessions-Keeps actor = search keeping depth 40

pub revoke_my_session-Keeps : (actor : Principal) (id : ℕ) → Keeps (revoke_my_session actor id)
unfolding revoke_my_session
revoke_my_session-Keeps actor id = search keeping depth 40

pub my_applications-Keeps : (actor : Principal) → Keeps (my_applications actor)
unfolding my_applications
my_applications-Keeps actor = search keeping depth 40
