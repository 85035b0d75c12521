-- ===== src/Domain/Role.antt =====
-- internal/domain/role.go
pub mod Rights
use video_streaming_service.Common.{
  Bool, true, false, List, [], ◌∷◌, Option, none, some, String, str_eq, if◌then◌else◌,
}

-- `type Role string`: any string, and five constants.
abbrev pub Role : Type 0
Role = String

abbrev pub role_guest : Role
role_guest = "guest"

abbrev pub role_user : Role
role_user = "user"

abbrev pub role_premium : Role
role_premium = "premium"

abbrev pub role_moderator : Role
role_moderator = "moderator"

abbrev pub role_admin : Role
role_admin = "admin"

pub data Permission : Type 0 where
  watch_public watch_private upload_video delete_own_video delete_any_video : Permission
  manage_users view_analytics moderate_content : Permission

abbrev pub permission_eq : Permission → Permission → Bool
permission_eq watch_public watch_public = true
permission_eq watch_private watch_private = true
permission_eq upload_video upload_video = true
permission_eq delete_own_video delete_own_video = true
permission_eq delete_any_video delete_any_video = true
permission_eq manage_users manage_users = true
permission_eq view_analytics view_analytics = true
permission_eq moderate_content moderate_content = true
permission_eq _ _ = false

-- `RolePermissions[r]`, with the map's `ok`
unfoldable pub role_permissions : Role → Option (List Permission)
role_permissions r =
    if str_eq r role_guest
    then some (watch_public ∷ [])
    else if str_eq r role_user
    then some (watch_public ∷ upload_video ∷ delete_own_video ∷ [])
    else if str_eq r role_premium
    then some (watch_public ∷ watch_private ∷ upload_video ∷ delete_own_video ∷ view_analytics ∷ [])
    else if str_eq r role_moderator
    then some (
        watch_public ∷ watch_private ∷ upload_video ∷ delete_own_video ∷ delete_any_video
        ∷ moderate_content ∷ [])
    else if str_eq r role_admin
    then some (
        watch_public ∷ watch_private ∷ upload_video ∷ delete_own_video ∷ delete_any_video
        ∷ manage_users ∷ view_analytics ∷ moderate_content ∷ [])
    else none

-- the loop of `HasPermission`
unfoldable pub grants : List Permission → Permission → Bool
grants [] permission = false
grants (p ∷ ps) permission =
    let rest = grants ps permission in if permission_eq p permission then true else rest

unfoldable pub has_permission : Role → Permission → Bool
unfolding role_permissions grants
has_permission r permission = elim (role_permissions r) [
  | none ↦ false
  | some permissions ↦ grants permissions permission
]

-- the loop of `IsValid`
unfoldable pub among : List Role → Role → Bool
among [] r = false
among (valid ∷ rest) r = let later = among rest r in if str_eq r valid then true else later

unfoldable pub is_valid : Role → Bool
unfolding among
is_valid r = among (role_guest ∷ role_user ∷ role_premium ∷ role_moderator ∷ role_admin ∷ []) r
