-- ===== src/Endpoints/Roles.antt =====
-- src/user_role/endpoints/roles.py and role_registry.py.
use ara_nes_lms_core.Base.{ℕ, String, true, not, Option, none, some, List, map, filter, Result}
use ara_nes_lms_core.Errors.{
  Error, role_not_found, role_already_exists, role_in_use, superadmin_role_immutable,
  invalid_permission_patch, duplicate_permission_keys,
}
use ara_nes_lms_core.Permissions.Patch.{Patch}
use ara_nes_lms_core.Database.{Role, Exec, pure, with_session, ◌>>=◌}
use ara_nes_lms_core.Rbac.Rows.{is_superadmin_role}
use ara_nes_lms_core.Rbac.Roles as Crud
use ara_nes_lms_core.Rbac.Roles.{RoleRegistryResult}
use ara_nes_lms_core.RbacCache as Caching
use ara_nes_lms_core.Endpoints.World.{
  RoleView, serialize_role, role_schema, Services, Reply, many_roles, one_role, registry_reply,
  updated, no_content, World, Cache, Handler, finish,
}

-- The `except` clauses of the handlers.
unfoldable pub no_status : Error → Option ℕ
no_status e = none

unfoldable pub get_role_status : Error → Option ℕ
get_role_status role_not_found = some 404
get_role_status e = none

unfoldable pub create_role_status : Error → Option ℕ
create_role_status role_already_exists = some 409
create_role_status e = none

unfoldable pub update_role_status : Error → Option ℕ
update_role_status role_not_found = some 404
update_role_status superadmin_role_immutable = some 403
update_role_status role_already_exists = some 409
update_role_status e = none

unfoldable pub delete_role_status : Error → Option ℕ
delete_role_status role_not_found = some 404
delete_role_status superadmin_role_immutable = some 403
delete_role_status (role_in_use user_count) = some 409
delete_role_status e = none

unfoldable pub patch_role_status : Error → Option ℕ
patch_role_status role_not_found = some 404
patch_role_status superadmin_role_immutable = some 403
patch_role_status (invalid_permission_patch unknown non_boolean) = some 400
patch_role_status e = none

unfoldable pub registry_status : Error → Option ℕ
registry_status (duplicate_permission_keys keys) = some 409
registry_status (invalid_permission_patch unknown non_boolean) = some 400
registry_status role_not_found = some 404
registry_status e = none

module _ (services : Services) where
  open services use {client, json, role_model, str, engine}

  abbrev pub set_role : ℕ → Role → Cache services → Cache services
  set_role role_id role =
      Caching.set_role client json (role_schema role_model) str role_id
        (role_model.dump (serialize_role role)) none

  abbrev pub invalidate_role : ℕ → Cache services → Cache services
  invalidate_role = Caching.invalidate_role client json (role_schema role_model) str

  abbrev pub invalidate_role_list : Cache services → Cache services
  invalidate_role_list = Caching.invalidate_role_list client json (role_schema role_model)

  abbrev role_reply : Role → Reply
  role_reply role = one_role (serialize_role role)

  -- What `create_role`, `update_role` and `patch_role_permissions` do to the cache.
  abbrev pub refresh_role : ℕ → Role → Cache services → Cache services
  refresh_role role_id role cache = set_role role_id role (invalidate_role_list cache)

  -- What `delete_role` and the registry do to it.
  abbrev pub forget_role : ℕ → Cache services → Cache services
  forget_role role_id cache = invalidate_role_list (invalidate_role role_id cache)

  abbrev pub list_from :
      World services → Option (List RoleView) × Cache services → Result Error Reply × World services
  list_from w (some cached_roles, cache) =
      (Result.ok (many_roles cached_roles), record w { cache = cache })
  list_from w (none, cache) =
      finish services no_status
        (λ roles.
          Caching.set_role_list client json (role_schema role_model) (map serialize_role roles)
            none)
        (λ roles. many_roles (map serialize_role roles)) cache
        (with_session (Crud.list_roles engine) w.tables)

  unfoldable pub list_roles : Handler services
  unfolding Caching.get_role_list Caching.set_role_list serialize_role no_status
  list_roles w = list_from w (Caching.get_role_list client json (role_schema role_model) w.cache)

  abbrev pub role_from :
      ℕ → World services → Option RoleView × Cache services → Result Error Reply × World services
  role_from role_id w (some cached_role, cache) =
      (Result.ok (one_role cached_role), record w { cache = cache })
  role_from role_id w (none, cache) =
      finish services get_role_status (set_role role_id) role_reply cache
        (with_session (Crud.get_role_by_id engine role_id) w.tables)

  unfoldable pub get_role : ℕ → Handler services
  unfolding Caching.get_role Caching.set_role serialize_role get_role_status
  get_role role_id w =
      role_from role_id w
        (Caching.get_role client json (role_schema role_model) str role_id w.cache)

  unfoldable pub create_role : String → String → Handler services
  unfolding Caching.set_role Caching.invalidate_role_list serialize_role create_role_status
  create_role name title_key w =
      finish services create_role_status (λ role. refresh_role role.id role) role_reply w.cache
        (with_session (Crud.create_role engine name title_key) w.tables)

  unfoldable pub update_role : ℕ → Option String → Option String → Handler services
  unfolding Caching.set_role Caching.invalidate_role_list serialize_role update_role_status
  update_role role_id name title_key w =
      finish services update_role_status (refresh_role role_id) role_reply w.cache
        (with_session (Crud.update_role engine role_id name title_key) w.tables)

  unfoldable pub delete_role : ℕ → Handler services
  unfolding Caching.invalidate_role Caching.invalidate_role_list delete_role_status
  delete_role role_id w =
      finish services delete_role_status (λ _. forget_role role_id) (λ _. no_content) w.cache
        (with_session (Crud.delete_role engine role_id) w.tables)

  unfoldable pub patch_role_permissions : ℕ → Patch → Handler services
  unfolding Caching.set_role Caching.invalidate_role_list serialize_role patch_role_status
  patch_role_permissions role_id permissions w =
      finish services patch_role_status (refresh_role role_id) role_reply w.cache
        (with_session (Crud.patch_role_permissions engine role_id permissions) w.tables)

  -- The two database calls of `reset_role_permissions`, in the session of the request.
  abbrev pub list_and_reset_roles : Exec (List Role × ℕ)
  list_and_reset_roles = do
    roles ← Crud.list_roles engine
    updated_count ← Crud.reset_role_permissions engine
    pure (roles, updated_count)

  -- `role.id for role in roles if not is_superadmin_role(role)`
  abbrev pub ids_to_reset : List Role → List ℕ
  ids_to_reset roles = map (λ role. role.id) (filter (λ role. not (is_superadmin_role role)) roles)

  unfoldable pub reset_role_permissions : Handler services
  unfolding Caching.invalidate_roles no_status
  reset_role_permissions w =
      finish services no_status
        (λ result.
          Caching.invalidate_roles client json (role_schema role_model) str (ids_to_reset result.0)
            true)
        (λ result. updated result.1) w.cache (with_session list_and_reset_roles w.tables)

  unfoldable pub registry_roles_once_if_not_exist : String → Patch → Handler services
  unfolding Caching.invalidate_role Caching.invalidate_role_list registry_status
  registry_roles_once_if_not_exist name permissions w =
      finish services registry_status (λ result. forget_role result.role_id) registry_reply w.cache
        (with_session (Crud.create_or_append_role_permissions_no_overwrite engine name permissions)
          w.tables)
