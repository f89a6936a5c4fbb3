-- ===== src/Revocation.antt =====
-- Revoked access tokens: src/auth/revocation.py and src/auth/service.py. An instant is a natural
-- number of microseconds. The two in-process caches are ordered dictionaries; the table
-- `auth_revoked_token_jtis` is a dictionary from its primary key to `expires_at`.
pub mod LocalCache
pub mod Identity
pub mod Service
