-- ===== src/Endpoints.antt =====
-- The endpoints of src/user_role/endpoints.
pub mod World
pub mod Roles
pub mod Users
pub mod Routes
pub mod Guards
pub mod Coherence
