-- ===== src/Permissions/Defaults.antt =====
-- `RBAC_ROLE_PERMISSION_DEFAULTS`, `I18N_ROLE_PERMISSION_DEFAULTS` and the functions that read
-- them: src/user_role/permission.py, src/i18n/permission.py, src/user_role/bootstrap.py.
pub mod Grants
use ara_nes_lms_core.Base.{string_eq, String, Bool, true, false, none, some, [], ◌∷◌}
use ara_nes_lms_core.Dict.{Dict, get, update}
use ara_nes_lms_core.Permissions.Keys.{
  i18n_can_read_small, i18n_can_create_small, i18n_can_patch_small, i18n_can_read_large,
  i18n_can_create_large, i18n_can_patch_large, rbac_can_manage_permissions, rbac_roles_read,
  rbac_roles_create, rbac_roles_update, rbac_roles_delete, rbac_users_read, rbac_users_create,
  rbac_users_manage,
}

abbrev pub PermissionMap : Type 0
PermissionMap = Dict String Bool

-- One row of the table of rbac defaults: the values in the order of the source's keys.
abbrev rbac_row : Bool → Bool → Bool → Bool → Bool → Bool → Bool → Bool → PermissionMap
rbac_row manage read create upd del users_read users_create users_manage =
    (rbac_can_manage_permissions, manage)
    ∷ (rbac_roles_read, read)
    ∷ (rbac_roles_create, create)
    ∷ (rbac_roles_update, upd)
    ∷ (rbac_roles_delete, del)
    ∷ (rbac_users_read, users_read)
    ∷ (rbac_users_create, users_create)
    ∷ (rbac_users_manage, users_manage)
    ∷ []

unfoldable pub rbac_role_permission_defaults : Dict String PermissionMap
rbac_role_permission_defaults =
    ("SuperAdmin", rbac_row true true true true true true true true)
    ∷ ("Admin", rbac_row false true false false false true false false)
    ∷ ("Teacher", rbac_row false false false false false false false false)
    ∷ ("Student", rbac_row false false false false false false false false)
    ∷ ("User", rbac_row false false false false false false false false)
    ∷ ("Guest", rbac_row false false false false false false false false)
    ∷ ("PLUGIN", rbac_row false true false false false true false false)
    ∷ []

abbrev i18n_row : Bool → Bool → Bool → Bool → Bool → Bool → PermissionMap
i18n_row read_small create_small patch_small read_large create_large patch_large =
    (i18n_can_read_small, read_small)
    ∷ (i18n_can_create_small, create_small)
    ∷ (i18n_can_patch_small, patch_small)
    ∷ (i18n_can_read_large, read_large)
    ∷ (i18n_can_create_large, create_large)
    ∷ (i18n_can_patch_large, patch_large)
    ∷ []

unfoldable pub i18n_role_permission_defaults : Dict String PermissionMap
i18n_role_permission_defaults =
    ("SuperAdmin", i18n_row true true true true true true)
    ∷ ("Admin", i18n_row true true true true true true)
    ∷ ("Teacher", i18n_row true true true true true true)
    ∷ ("Student", i18n_row true false false true false false)
    ∷ ("User", i18n_row true false false true false false)
    ∷ ("Guest", i18n_row true false false true false false)
    ∷ ("PLUGIN", i18n_row true true false true true false)
    ∷ []

-- `d.get(k, {})`
abbrev pub get_or_empty : Dict String PermissionMap → String → PermissionMap
get_or_empty d k = elim (get d k) [ none ↦ [] | some m ↦ m ]

unfoldable pub get_rbac_role_permission_defaults : String → PermissionMap
unfolding get rbac_role_permission_defaults
get_rbac_role_permission_defaults role_name = get_or_empty rbac_role_permission_defaults role_name

unfoldable pub get_i18n_role_permission_defaults : String → PermissionMap
unfolding get i18n_role_permission_defaults
get_i18n_role_permission_defaults role_name = get_or_empty i18n_role_permission_defaults role_name

-- `get_default_role_permissions` of src/user_role/bootstrap.py
unfoldable pub get_default_role_permissions : String → PermissionMap
get_default_role_permissions role_name =
    update (update [] (get_i18n_role_permission_defaults role_name))
      (get_rbac_role_permission_defaults role_name)
