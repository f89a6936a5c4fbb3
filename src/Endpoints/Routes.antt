-- ===== src/Endpoints/Routes.antt =====
-- The routers of src/user_role/endpoints: which permission each route asks for, and the call of its
-- handler once the actor is known. A call stands for a request that the schemas have accepted.
use ara_nes_lms_core.Base.{ℕ, String, Option, List, [], ◌∷◌, Result, ok, raise}
use ara_nes_lms_core.Errors.{Error}
use ara_nes_lms_core.Permissions.Keys.{
  rbac_can_manage_permissions, rbac_roles_read, rbac_roles_create, rbac_roles_update,
  rbac_roles_delete, rbac_users_read, rbac_users_create, rbac_users_manage,
}
use ara_nes_lms_core.Permissions.Patch.{Patch}
use ara_nes_lms_core.Actor.{CurrentActor, require_permission}
use ara_nes_lms_core.Endpoints.World.{Services, World, Handler}
use ara_nes_lms_core.Endpoints.Roles.{
  list_roles, get_role, create_role, update_role, delete_role, patch_role_permissions,
  reset_role_permissions, registry_roles_once_if_not_exist,
}
use ara_nes_lms_core.Endpoints.Users.{
  list_users, get_user, create_user, update_user, set_user_password, delete_user,
  patch_user_permissions, reset_user_permissions,
}

pub data Call : Type 0 where
  list_roles_call reset_roles_call list_users_call reset_users_call : Call
  get_role_call delete_role_call get_user_call delete_user_call : ℕ → Call
  create_role_call : (name title_key : String) → Call
  update_role_call : ℕ → (name title_key : Option String) → Call
  patch_role_call patch_user_call : ℕ → Patch → Call
  registry_call : String → Patch → Call
  create_user_call : (username password : String) → ℕ → Call
  update_user_call : ℕ → Option String → Option ℕ → Call
  set_password_call : ℕ → String → Call

-- `Depends(require_permission(...))` of the route.
unfoldable pub permission_of : Call → String
permission_of list_roles_call = rbac_roles_read
permission_of (get_role_call role_id) = rbac_roles_read
permission_of (create_role_call name title_key) = rbac_roles_create
permission_of (update_role_call role_id name title_key) = rbac_roles_update
permission_of (delete_role_call role_id) = rbac_roles_delete
permission_of (patch_role_call role_id permissions) = rbac_can_manage_permissions
permission_of reset_roles_call = rbac_can_manage_permissions
permission_of (registry_call name permissions) = rbac_can_manage_permissions
permission_of list_users_call = rbac_users_read
permission_of (get_user_call user_id) = rbac_users_read
permission_of (create_user_call username password role_id) = rbac_users_create
permission_of (update_user_call user_id username role_id) = rbac_users_manage
permission_of (set_password_call user_id password) = rbac_users_manage
permission_of (delete_user_call user_id) = rbac_users_manage
permission_of (patch_user_call user_id permissions) = rbac_can_manage_permissions
permission_of reset_users_call = rbac_can_manage_permissions

module _ (services : Services) where
  -- The handler of the route.
  unfoldable pub endpoint : Call → CurrentActor → Handler services
  endpoint list_roles_call actor = list_roles services
  endpoint (get_role_call role_id) actor = get_role services role_id
  endpoint (create_role_call name title_key) actor = create_role services name title_key
  endpoint (update_role_call role_id name title_key) actor =
      update_role services role_id name title_key
  endpoint (delete_role_call role_id) actor = delete_role services role_id
  endpoint (patch_role_call role_id permissions) actor =
      patch_role_permissions services role_id permissions
  endpoint reset_roles_call actor = reset_role_permissions services
  endpoint (registry_call name permissions) actor =
      registry_roles_once_if_not_exist services name permissions
  endpoint list_users_call actor = list_users services
  endpoint (get_user_call user_id) actor = get_user services user_id
  endpoint (create_user_call username password role_id) actor =
      create_user services username password role_id
  endpoint (update_user_call user_id username role_id) actor =
      update_user services user_id username role_id
  endpoint (set_password_call user_id password) actor = set_user_password services user_id password
  endpoint (delete_user_call user_id) actor = delete_user services user_id actor
  endpoint (patch_user_call user_id permissions) actor =
      patch_user_permissions services user_id permissions
  endpoint reset_users_call actor = reset_user_permissions services

  abbrev admitted : Result Error CurrentActor → Call → Handler services
  admitted (raise e) call w = (raise e, w)
  admitted (ok actor) call w = endpoint call actor w

  unfoldable pub respond : Call → CurrentActor → Handler services
  unfolding endpoint
  respond call actor = admitted (require_permission (permission_of call) actor) call

  -- The world after a sequence of requests, each with its actor.
  unfoldable pub respond_all : List (Call × CurrentActor) → World services → World services
  unfolding respond
  respond_all [] w = w
  respond_all ((call, actor) ∷ calls) w = respond_all calls (respond call actor w).1
