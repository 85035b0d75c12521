-- ===== src/Domain/Role/Rights.antt =====
-- Which roles hold which rights (internal/domain/role.go).
use video_streaming_service.Common.{◌≡◌, ◌↔◌, ◌⊎◌, true, arith, str_eq_iff}
use video_streaming_service.Domain.Role.{
  Role, role_guest, role_user, role_premium, role_moderator, role_admin, Permission,
  moderate_content, delete_any_video, manage_users, has_permission, is_valid,
}

-- A role that grants anything is one of the five valid roles.
pub has_permission-is_valid :
    (r : Role) (p : Permission) → has_permission r p ≡ true → is_valid r ≡ true
unfolding has_permission is_valid
has_permission-is_valid r p h = ground arith

-- What only the staff may do.
pub record StaffRights (r : Role) : Type 0 where
  pub moderates :
      (has_permission r moderate_content ≡ true) ↔ ((r ≡ role_moderator) ⊎ (r ≡ role_admin))
  pub deletes :
      (has_permission r delete_any_video ≡ true) ↔ ((r ≡ role_moderator) ⊎ (r ≡ role_admin))
  pub manages : (has_permission r manage_users ≡ true) ↔ (r ≡ role_admin)

-- Of any text as a role: exactly moderators and admins may moderate and delete any video, and exactly
-- admins may manage users.
pub rights : (r : Role) → StaffRights r
unfolding has_permission
rights r = ground (
  arith,
  str_eq_iff r role_guest,
  str_eq_iff r role_user,
  str_eq_iff r role_premium,
  str_eq_iff r role_moderator,
  str_eq_iff r role_admin,
  str_eq_iff role_guest role_moderator,
  str_eq_iff role_guest role_admin,
  str_eq_iff role_user role_moderator,
  str_eq_iff role_user role_admin,
  str_eq_iff role_premium role_moderator,
  str_eq_iff role_premium role_admin,
  str_eq_iff role_moderator role_admin,
)
