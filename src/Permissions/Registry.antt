-- ===== src/Permissions/Registry.antt =====
-- `RBACService` of src/user_role/permission.py: the defaults that modules register for roles.
pub mod Merging
use ara_nes_lms_core.Base.{string_eq, String, [], ◌∷◌}
use ara_nes_lms_core.Dict.{Dict, get, set, update}
use ara_nes_lms_core.Permissions.Defaults.{PermissionMap, get_or_empty}

-- `_role_permission_defaults`, the one field of the service
abbrev pub RbacService : Type 0
RbacService = Dict String PermissionMap

-- The body of the loop: `setdefault(role_name, {})`, then `update` of the dictionary in place.
unfoldable pub register_one : RbacService → String → PermissionMap → RbacService
unfolding get set update
register_one service role_name permissions =
    set service role_name (update (get_or_empty service role_name) permissions)

unfoldable pub register_role_permission_defaults :
    RbacService → Dict String PermissionMap → RbacService
unfolding register_one
register_role_permission_defaults service [] = service
register_role_permission_defaults service ((role_name, permissions) ∷ mapping) =
    register_role_permission_defaults (register_one service role_name permissions) mapping

-- `RBACService(role_permission_defaults)`
unfoldable pub init : Dict String PermissionMap → RbacService
unfolding register_role_permission_defaults
init mapping = register_role_permission_defaults [] mapping

-- `RBACService.get_default_role_permissions`
unfoldable pub get_default_role_permissions : RbacService → String → PermissionMap
unfolding get
get_default_role_permissions service role_name = get_or_empty service role_name
