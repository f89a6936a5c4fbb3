-- ===== src/Rbac/Outcomes.antt =====
-- What single operations of src/user_role/crud.py have done when they return or raise.
pub mod Deletion
pub mod Grants
pub mod Conflicts
