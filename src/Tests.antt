-- ===== src/Tests.antt =====
-- The theorems at concrete inputs.
mod Roles
mod Start
mod Actors
mod Codec
mod Endpoints
mod Gateway
mod Caches
mod Tokens
