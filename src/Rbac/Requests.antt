-- ===== src/Rbac/Requests.antt =====
-- Requests that change roles and users, each served in a session of its own, and sequences of
-- them. The operations are those of src/user_role/crud.py.
pub mod Sequences
pub mod Atomicity
use ara_nes_lms_core.Base.{ℕ, String, Option, none, some, List, [], ◌∷◌, Result, ok, raise}
use ara_nes_lms_core.Errors.{Error}
use ara_nes_lms_core.Permissions.Patch.{Patch}
use ara_nes_lms_core.Database.{Tables, Engine, Exec, with_session}
use ara_nes_lms_core.Rbac.Roles.{
  create_role, update_role, delete_role, patch_role_permissions, reset_role_permissions,
  create_or_append_role_permissions_no_overwrite,
}
use ara_nes_lms_core.Rbac.Users.{
  create_user_admin, update_user_admin, set_user_password_admin, delete_user_admin,
  patch_user_permissions, reset_user_permissions,
}

pub data Request : Type 0 where
  create_role_request : (name title_key : String) → Request
  update_role_request : ℕ → (name title_key : Option String) → Request
  delete_role_request : ℕ → Request
  patch_role_request : ℕ → Patch → Request
  reset_roles_request reset_users_request : Request
  role_registry_request : String → Patch → Request
  create_user_request : (username password : String) → ℕ → Request
  update_user_request : ℕ → Option String → Option ℕ → Request
  set_password_request : ℕ → String → Request
  delete_user_request : ℕ → Request
  patch_user_request : ℕ → Patch → Request

-- The exception of a call, if it raised.
abbrev pub error_of : {A : Type 0} → Result Error A → Option Error
error_of (ok a) = none
error_of (raise e) = some e

abbrev pub in_session : {A : Type 0} → Exec A → Tables → Option Error × Tables
in_session m t = let (r, t') = with_session m t in (error_of r, t')

module _ (engine : Engine) (hash_password : String → String) where
  unfoldable pub perform : Request → Tables → Option Error × Tables
  perform (create_role_request name title_key) = in_session (create_role engine name title_key)
  perform (update_role_request i name title_key) = in_session (update_role engine i name title_key)
  perform (delete_role_request i) = in_session (delete_role engine i)
  perform (patch_role_request i patch) = in_session (patch_role_permissions engine i patch)
  perform reset_roles_request = in_session (reset_role_permissions engine)
  perform reset_users_request = in_session (reset_user_permissions engine)
  perform (role_registry_request name patch) =
      in_session (create_or_append_role_permissions_no_overwrite engine name patch)
  perform (create_user_request username password i) =
      in_session (create_user_admin engine hash_password username password i)
  perform (update_user_request i username role_id) =
      in_session (update_user_admin engine i username role_id)
  perform (set_password_request i password) =
      in_session (set_user_password_admin engine hash_password i password)
  perform (delete_user_request i) = in_session (delete_user_admin engine i)
  perform (patch_user_request i patch) = in_session (patch_user_permissions engine i patch)

  unfoldable pub serve : List Request → Tables → Tables
  serve [] t = t
  serve (request ∷ requests) t = serve requests (perform request t).1
