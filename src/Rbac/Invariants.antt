-- ===== src/Rbac/Invariants.antt =====
-- Invariants of the tables that src/user_role/crud.py writes.
pub mod Keys
pub mod References
pub mod Superadmin
