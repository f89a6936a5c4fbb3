-- ===== src/Rbac.antt =====
-- src/user_role/crud.py: the operations on roles, users and role permissions.
pub mod Rows
pub mod Roles
pub mod Users
pub mod Changes
pub mod Invariants
pub mod Seeding
pub mod Requests
pub mod Outcomes
pub mod Effects
