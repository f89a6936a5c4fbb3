-- ===== src/Endpoints/Coherence.antt =====
-- That the shared cache agrees with the tables behind the endpoints of src/user_role/endpoints.
pub mod Store
pub mod Entries
pub mod OfRoles
pub mod OfUsers
pub mod OfResets
pub mod Reading
pub mod ReadingUsers
pub mod Serving
