-- ===== src/Permissions/Keys.antt =====
-- The permission keys of src/i18n/permission.py and src/user_role/permission.py.
use ara_nes_lms_core.Base.{string_eq, String, Bool, List, [], ◌∷◌, ◌==◌, any}

abbrev pub i18n_can_read_small : String
i18n_can_read_small = "i18n_can_read_small"

abbrev pub i18n_can_create_small : String
i18n_can_create_small = "i18n_can_create_small"

abbrev pub i18n_can_patch_small : String
i18n_can_patch_small = "i18n_can_patch_small"

abbrev pub i18n_can_read_large : String
i18n_can_read_large = "i18n_can_read_large"

abbrev pub i18n_can_create_large : String
i18n_can_create_large = "i18n_can_create_large"

abbrev pub i18n_can_patch_large : String
i18n_can_patch_large = "i18n_can_patch_large"

abbrev pub rbac_can_manage_permissions : String
rbac_can_manage_permissions = "rbac_can_manage_permissions"

abbrev pub rbac_roles_read : String
rbac_roles_read = "rbac_roles_read"

abbrev pub rbac_roles_create : String
rbac_roles_create = "rbac_roles_create"

abbrev pub rbac_roles_update : String
rbac_roles_update = "rbac_roles_update"

abbrev pub rbac_roles_delete : String
rbac_roles_delete = "rbac_roles_delete"

abbrev pub rbac_users_read : String
rbac_users_read = "rbac_users_read"

abbrev pub rbac_users_create : String
rbac_users_create = "rbac_users_create"

abbrev pub rbac_users_manage : String
rbac_users_manage = "rbac_users_manage"

-- `REGISTERED_PERMISSION_KEYS`
abbrev pub registered_permission_keys : List String
registered_permission_keys =
    rbac_can_manage_permissions ∷ rbac_roles_read ∷ rbac_roles_create ∷ rbac_roles_update
    ∷ rbac_roles_delete ∷ rbac_users_read ∷ rbac_users_create ∷ rbac_users_manage
    ∷ i18n_can_read_small ∷ i18n_can_create_small ∷ i18n_can_patch_small ∷ i18n_can_read_large
    ∷ i18n_can_create_large ∷ i18n_can_patch_large ∷ []

-- `key in REGISTERED_PERMISSION_KEYS`
unfoldable pub is_registered : String → Bool
is_registered key = any (λ k. k == key) registered_permission_keys
