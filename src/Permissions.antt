-- ===== src/Permissions.antt =====
-- src/user_role/permission.py and src/i18n/permission.py: the permission keys, the default
-- tables, the check of a permission patch and the registry of role defaults.
pub mod Keys
pub mod Defaults
pub mod Patch
pub mod Registry
