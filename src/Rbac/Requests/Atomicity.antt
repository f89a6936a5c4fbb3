-- ===== src/Rbac/Requests/Atomicity.antt =====
-- Requests that end in an exception.
use ara_nes_lms_core.Base.{nat_eq, string_eq, String, some, ◌≡◌, arith}
use ara_nes_lms_core.Errors.{Error}
use ara_nes_lms_core.Database.{Tables, Engine, commit, query}
use ara_nes_lms_core.Rbac.Roles.{
  create_role, update_role, delete_role, patch_role_permissions, reset_role_permissions,
  create_or_append_role_permissions_no_overwrite,
}
use ara_nes_lms_core.Rbac.Users.{
  create_user_admin, update_user_admin, set_user_password_admin, delete_user_admin,
  patch_user_permissions, reset_user_permissions,
}
use ara_nes_lms_core.Rbac.Requests.{Request, reset_roles_request, perform}

module _ (engine : Engine) (hash_password : String → String) where
  -- A request that ends in an exception leaves the committed tables as they were.
  pub perform-raise :
      (request : Request) (t : Tables) (e : Error)
      → (perform engine hash_password request t).0 ≡ some e
      → (perform engine hash_password request t).1 ≡ t
  unfolding perform create_role update_role delete_role patch_role_permissions
      reset_role_permissions create_or_append_role_permissions_no_overwrite create_user_admin
      update_user_admin set_user_password_admin delete_user_admin patch_user_permissions
      reset_user_permissions commit query
  perform-raise reset_roles_request t e h = ground arith
  perform-raise _ t e h = ground arith
