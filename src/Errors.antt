-- ===== src/Errors.antt =====
-- The exceptions that the modelled code raises: src/user_role/exceptions.py, src/i18n/exceptions.py,
-- src/auth/exceptions.py, SQLAlchemy's `IntegrityError`, FastAPI's `HTTPException`.
use ara_nes_lms_core.Base.{ℕ, String, List}

pub data Error : Type 0 where
  role_not_found user_not_found role_already_exists username_already_exists : Error
  i18n_small_not_found i18n_large_not_found superadmin_role_immutable runtime_error value_error :
      Error
  role_in_use : ℕ → Error
  duplicate_permission_keys : List String → Error
  -- the unknown and the non-boolean keys
  invalid_permission_patch : List String → List String → Error
  -- `str(exc.orig)`
  integrity_error : String → Error
  -- the status code
  http_exception : ℕ → Error
