-- ===== src/Endpoints/Users.antt =====
-- src/user_role/endpoints/users.py.
use ara_nes_lms_core.Base.{
  nat_eq, ℕ, String, true, Option, none, some, List, map, Result, ◌==◌, if◌then◌else◌,
}
use ara_nes_lms_core.Errors.{
  Error, role_not_found, user_not_found, username_already_exists, invalid_permission_patch,
  http_exception,
}
use ara_nes_lms_core.Permissions.Patch.{Patch}
use ara_nes_lms_core.Database.{User, Exec, pure, with_session, ◌>>=◌}
use ara_nes_lms_core.Rbac.Users as Crud
use ara_nes_lms_core.RbacCache as Caching
use ara_nes_lms_core.Actor.{CurrentActor}
use ara_nes_lms_core.Endpoints.World.{
  UserView, serialize_user, user_schema, Services, Reply, many_users, one_user, updated, message,
  no_content, World, Cache, Handler, finish,
}
use ara_nes_lms_core.Endpoints.Roles.{no_status}

-- The `except` clauses of the handlers.
unfoldable pub user_status : Error → Option ℕ
user_status user_not_found = some 404
user_status e = none

unfoldable pub create_user_status : Error → Option ℕ
create_user_status username_already_exists = some 409
create_user_status role_not_found = some 404
create_user_status e = none

unfoldable pub update_user_status : Error → Option ℕ
update_user_status user_not_found = some 404
update_user_status role_not_found = some 404
update_user_status username_already_exists = some 409
update_user_status e = none

unfoldable pub patch_user_status : Error → Option ℕ
patch_user_status user_not_found = some 404
patch_user_status (invalid_permission_patch unknown non_boolean) = some 400
patch_user_status e = none

module _ (services : Services) where
  open services use {client, json, user_model, str, engine, hash_password}

  abbrev pub set_user : ℕ → User → Cache services → Cache services
  set_user user_id user =
      Caching.set_user client json (user_schema user_model) str user_id
        (user_model.dump (serialize_user user)) none

  abbrev pub invalidate_user : ℕ → Cache services → Cache services
  invalidate_user = Caching.invalidate_user client json (user_schema user_model) str

  abbrev pub invalidate_user_list : Cache services → Cache services
  invalidate_user_list = Caching.invalidate_user_list client json (user_schema user_model)

  abbrev user_reply : User → Reply
  user_reply user = one_user (serialize_user user)

  -- What `create_user`, `update_user` and `patch_user_permissions` do to the cache.
  abbrev pub refresh_user : ℕ → User → Cache services → Cache services
  refresh_user user_id user cache = set_user user_id user (invalidate_user_list cache)

  -- What `delete_user` does to it.
  abbrev pub forget_user : ℕ → Cache services → Cache services
  forget_user user_id cache = invalidate_user_list (invalidate_user user_id cache)

  abbrev pub list_from :
      World services → Option (List UserView) × Cache services → Result Error Reply × World services
  list_from w (some cached_users, cache) =
      (Result.ok (many_users cached_users), record w { cache = cache })
  list_from w (none, cache) =
      finish services no_status
        (λ users.
          Caching.set_user_list client json (user_schema user_model) (map serialize_user users)
            none)
        (λ users. many_users (map serialize_user users)) cache
        (with_session (Crud.list_users engine) w.tables)

  unfoldable pub list_users : Handler services
  unfolding Caching.get_user_list Caching.set_user_list serialize_user no_status
  list_users w = list_from w (Caching.get_user_list client json (user_schema user_model) w.cache)

  abbrev pub user_from :
      ℕ → World services → Option UserView × Cache services → Result Error Reply × World services
  user_from user_id w (some cached_user, cache) =
      (Result.ok (one_user cached_user), record w { cache = cache })
  user_from user_id w (none, cache) =
      finish services user_status (set_user user_id) user_reply cache
        (with_session (Crud.get_user_by_id engine user_id) w.tables)

  unfoldable pub get_user : ℕ → Handler services
  unfolding Caching.get_user Caching.set_user serialize_user user_status
  get_user user_id w =
      user_from user_id w
        (Caching.get_user client json (user_schema user_model) str user_id w.cache)

  unfoldable pub create_user : String → String → ℕ → Handler services
  unfolding Caching.set_user Caching.invalidate_user_list serialize_user create_user_status
  create_user username password role_id w =
      finish services create_user_status (λ user. refresh_user user.id user) user_reply w.cache
        (with_session (Crud.create_user_admin engine hash_password username password role_id)
          w.tables)

  unfoldable pub update_user : ℕ → Option String → Option ℕ → Handler services
  unfolding Caching.set_user Caching.invalidate_user_list serialize_user update_user_status
  update_user user_id username role_id w =
      finish services update_user_status (refresh_user user_id) user_reply w.cache
        (with_session (Crud.update_user_admin engine user_id username role_id) w.tables)

  unfoldable pub set_user_password : ℕ → String → Handler services
  unfolding Caching.invalidate_user user_status
  set_user_password user_id password w =
      finish services user_status (λ _. invalidate_user user_id) (λ _. message "Password updated")
        w.cache
        (with_session (Crud.set_user_password_admin engine hash_password user_id password) w.tables)

  unfoldable pub delete_user : ℕ → CurrentActor → Handler services
  unfolding Caching.invalidate_user Caching.invalidate_user_list user_status
  delete_user user_id actor w =
      if actor.user_id == user_id
      then (Result.raise (http_exception 403), w)
      else finish services user_status (λ _. forget_user user_id) (λ _. no_content) w.cache
          (with_session (Crud.delete_user_admin engine user_id) w.tables)

  unfoldable pub patch_user_permissions : ℕ → Patch → Handler services
  unfolding Caching.set_user Caching.invalidate_user_list serialize_user patch_user_status
  patch_user_permissions user_id permissions w =
      finish services patch_user_status (refresh_user user_id) user_reply w.cache
        (with_session (Crud.patch_user_permissions engine user_id permissions) w.tables)

  -- The two database calls of `reset_user_permissions`, in the session of the request.
  abbrev pub list_and_reset_users : Exec (List User × ℕ)
  list_and_reset_users = do
    users ← Crud.list_users engine
    count ← Crud.reset_user_permissions engine
    pure (users, count)

  unfoldable pub reset_user_permissions : Handler services
  unfolding Caching.invalidate_users no_status
  reset_user_permissions w =
      finish services no_status
        (λ result.
          Caching.invalidate_users client json (user_schema user_model) str
            (map (λ user. user.id) result.0) true)
        (λ result. updated result.1) w.cache (with_session list_and_reset_users w.tables)
