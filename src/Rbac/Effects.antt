-- ===== src/Rbac/Effects.antt =====
-- What an operation of src/user_role/crud.py that returns has done to the rows with each key.
pub mod Rows
pub mod RoleEdits
pub mod UserEdits
pub mod OfRoles
pub mod OfUsers
pub mod Resets
