-- ===== src/Endpoints/Guards.antt =====
-- What the endpoints of src/user_role/endpoints refuse.
use mathlib.Core.Path.{subst}
use mathlib.Core.Path.{subst}
use mathlib.Core.Path.{subst}
use ara_nes_lms_core.Base.{
  nat_eq, string_eq, ℕ, String, true, Option, Result, ok, raise, ◌≡◌, ◌≢◌, refl, arith, ◌==◌, ◌==◌,
  ==_refl, sym, ◌==◌, ==_refl, sym, ◌==◌, ==_refl, sym, inl, inr, Bool-cases,
}
use ara_nes_lms_core.Errors.{Error}
use ara_nes_lms_core.Permissions.Patch.{Patch}
use ara_nes_lms_core.Permissions.Patch.{Patch}
use ara_nes_lms_core.Permissions.Patch.{Patch}
use ara_nes_lms_core.Permissions.Patch.{Patch}
use ara_nes_lms_core.Database.{Tables, Exec, with_session, commit, query}
use ara_nes_lms_core.Rbac.Roles as RoleCrud
use ara_nes_lms_core.Rbac.Users as UserCrud
use ara_nes_lms_core.Actor.{CurrentActor, require_permission, granted}
use ara_nes_lms_core.Endpoints.World.{Services, Reply, World, Cache, finish}
use ara_nes_lms_core.Endpoints.Roles.{
  list_and_reset_roles, list_roles, get_role, create_role, update_role, delete_role,
  patch_role_permissions, reset_role_permissions, registry_roles_once_if_not_exist,
}
use ara_nes_lms_core.Endpoints.Users.{
  list_and_reset_users, list_users, get_user, create_user, update_user, set_user_password,
  delete_user, patch_user_permissions, reset_user_permissions,
}
use ara_nes_lms_core.Endpoints.Routes.{
  Call, list_roles_call, reset_roles_call, list_users_call, reset_users_call, get_role_call,
  delete_role_call, get_user_call, delete_user_call, create_role_call, update_role_call,
  patch_role_call, patch_user_call, registry_call, create_user_call, update_user_call,
  set_password_call, permission_of, endpoint, respond,
}

-- An operation whose exceptions leave the committed tables as they were.
abbrev pub IsAtomic : {A : Type 0} → Exec A → Type 0
IsAtomic m = (t : Tables) (e : Error) → (with_session m t).0 ≡ raise e → (with_session m t).1 ≡ t

module _ (services : Services) where
  open services use {client, json, role_model, user_model, str, engine, hash_password}

  finish-raise :
      {A : Type 0} (status : Error → Option ℕ) (after : A → Cache services → Cache services)
      (reply : A → Reply) (cache : Cache services) (t : Tables) (r : Result Error A × Tables)
      → ((e : Error) → r.0 ≡ raise e → r.1 ≡ t)
      → (e : Error) → (finish services status after reply cache r).0 ≡ raise e
      → (finish services status after reply cache r).1.tables ≡ t
  unfolding finish
  finish-raise status after reply cache t (raise e', u) atomic e h = atomic e' refl
  finish-raise status after reply cache t (ok a, u) atomic e h = absurd (cc)

  pub create_role-IsAtomic :
      (name title_key : String) → IsAtomic (RoleCrud.create_role engine name title_key)
  unfolding RoleCrud.create_role commit
  create_role-IsAtomic name title_key t e h = ground arith

  pub update_role-IsAtomic :
      (i : ℕ) (name title_key : Option String)
      → IsAtomic (RoleCrud.update_role engine i name title_key)
  unfolding RoleCrud.update_role commit query
  update_role-IsAtomic i name title_key t e h = ground arith

  pub delete_role-IsAtomic : (i : ℕ) → IsAtomic (RoleCrud.delete_role engine i)
  unfolding RoleCrud.delete_role commit query
  delete_role-IsAtomic i t e h = ground arith

  pub patch_role-IsAtomic :
      (i : ℕ) (patch : Patch) → IsAtomic (RoleCrud.patch_role_permissions engine i patch)
  unfolding RoleCrud.patch_role_permissions commit query
  patch_role-IsAtomic i patch t e h = ground arith

  pub reset_roles-IsAtomic : IsAtomic (list_and_reset_roles services)
  unfolding RoleCrud.reset_role_permissions RoleCrud.list_roles commit query
  reset_roles-IsAtomic t e h = ground arith

  pub registry-IsAtomic :
      (name : String) (patch : Patch)
      → IsAtomic (RoleCrud.create_or_append_role_permissions_no_overwrite engine name patch)
  unfolding RoleCrud.create_or_append_role_permissions_no_overwrite commit query
  registry-IsAtomic name patch t e h = ground arith

  pub create_user-IsAtomic :
      (username password : String) (i : ℕ)
      → IsAtomic (UserCrud.create_user_admin engine hash_password username password i)
  unfolding UserCrud.create_user_admin commit query
  create_user-IsAtomic username password i t e h = ground arith

  pub update_user-IsAtomic :
      (i : ℕ) (username : Option String) (role_id : Option ℕ)
      → IsAtomic (UserCrud.update_user_admin engine i username role_id)
  unfolding UserCrud.update_user_admin commit query
  update_user-IsAtomic i username role_id t e h = ground arith

  pub set_password-IsAtomic :
      (i : ℕ) (password : String)
      → IsAtomic (UserCrud.set_user_password_admin engine hash_password i password)
  unfolding UserCrud.set_user_password_admin commit query
  set_password-IsAtomic i password t e h = ground arith

  pub delete_user-IsAtomic : (i : ℕ) → IsAtomic (UserCrud.delete_user_admin engine i)
  unfolding UserCrud.delete_user_admin commit query
  delete_user-IsAtomic i t e h = ground arith

  pub patch_user-IsAtomic :
      (i : ℕ) (patch : Patch) → IsAtomic (UserCrud.patch_user_permissions engine i patch)
  unfolding UserCrud.patch_user_permissions commit query
  patch_user-IsAtomic i patch t e h = ground arith

  pub reset_users-IsAtomic : IsAtomic (list_and_reset_users services)
  unfolding UserCrud.reset_user_permissions UserCrud.list_users commit query
  reset_users-IsAtomic t e h = ground arith

  list_roles-tables : (w : World services) → (list_roles services w).1.tables ≡ w.tables
  unfolding list_roles finish RoleCrud.list_roles query
  list_roles-tables w = ground arith

  get_role-tables : (i : ℕ) (w : World services) → (get_role services i w).1.tables ≡ w.tables
  unfolding get_role finish RoleCrud.get_role_by_id query
  get_role-tables i w = ground arith

  list_users-tables : (w : World services) → (list_users services w).1.tables ≡ w.tables
  unfolding list_users finish UserCrud.list_users query
  list_users-tables w = ground arith

  get_user-tables : (i : ℕ) (w : World services) → (get_user services i w).1.tables ≡ w.tables
  unfolding get_user finish UserCrud.get_user_by_id query
  get_user-tables i w = ground arith

  delete_user-raise :
      (i : ℕ) (actor : CurrentActor) (w : World services) (e : Error)
      → (delete_user services i actor w).0 ≡ raise e
      → (delete_user services i actor w).1.tables ≡ w.tables
  unfolding delete_user
  delete_user-raise i actor w e = elim (Bool-cases (actor.user_id == i)) [
    | inl self ↦ rw self (λ h. refl)
    | inr other ↦ rw other (finish-raise _ _ _ _ _ _ (delete_user-IsAtomic i w.tables) e)
  ]

  endpoint-raise :
      (call : Call) (actor : CurrentActor) (w : World services) (e : Error)
      → (endpoint services call actor w).0 ≡ raise e
      → (endpoint services call actor w).1.tables ≡ w.tables
  unfolding endpoint create_role update_role delete_role patch_role_permissions
      reset_role_permissions registry_roles_once_if_not_exist create_user update_user
      set_user_password patch_user_permissions reset_user_permissions
  endpoint-raise list_roles_call actor w e h = list_roles-tables w
  endpoint-raise (get_role_call i) actor w e h = get_role-tables i w
  endpoint-raise list_users_call actor w e h = list_users-tables w
  endpoint-raise (get_user_call i) actor w e h = get_user-tables i w
  endpoint-raise (delete_user_call i) actor w e h = delete_user-raise i actor w e h
  endpoint-raise (create_role_call name title_key) actor w e h =
      finish-raise _ _ _ _ _ _ (create_role-IsAtomic name title_key w.tables) e h
  endpoint-raise (update_role_call i name title_key) actor w e h =
      finish-raise _ _ _ _ _ _ (update_role-IsAtomic i name title_key w.tables) e h
  endpoint-raise (delete_role_call i) actor w e h =
      finish-raise _ _ _ _ _ _ (delete_role-IsAtomic i w.tables) e h
  endpoint-raise (patch_role_call i patch) actor w e h =
      finish-raise _ _ _ _ _ _ (patch_role-IsAtomic i patch w.tables) e h
  endpoint-raise reset_roles_call actor w e h =
      finish-raise _ _ _ _ _ _ (reset_roles-IsAtomic w.tables) e h
  endpoint-raise (registry_call name patch) actor w e h =
      finish-raise _ _ _ _ _ _ (registry-IsAtomic name patch w.tables) e h
  endpoint-raise (create_user_call username password i) actor w e h =
      finish-raise _ _ _ _ _ _ (create_user-IsAtomic username password i w.tables) e h
  endpoint-raise (update_user_call i username role_id) actor w e h =
      finish-raise _ _ _ _ _ _ (update_user-IsAtomic i username role_id w.tables) e h
  endpoint-raise (set_password_call i password) actor w e h =
      finish-raise _ _ _ _ _ _ (set_password-IsAtomic i password w.tables) e h
  endpoint-raise (patch_user_call i patch) actor w e h =
      finish-raise _ _ _ _ _ _ (patch_user-IsAtomic i patch w.tables) e h
  endpoint-raise reset_users_call actor w e h =
      finish-raise _ _ _ _ _ _ (reset_users-IsAtomic w.tables) e h

  -- A request that is answered with an exception or an error status leaves the committed tables as
  -- they were.
  pub respond-raise :
      (call : Call) (actor : CurrentActor) (w : World services) (e : Error)
      → (respond services call actor w).0 ≡ raise e
      → (respond services call actor w).1.tables ≡ w.tables
  unfolding respond require_permission
  respond-raise call actor w e =
      elim (Bool-cases (granted actor.effective_permissions (permission_of call))) [
        | inl allowed ↦ rw allowed (endpoint-raise call actor w e)
        | inr denied ↦ rw denied (λ h. refl)
      ]

  delete_user-own :
      (actor : CurrentActor) (w : World services)
      → (endpoint services (delete_user_call actor.user_id) actor w).1 ≡ w
  unfolding endpoint delete_user
  delete_user-own actor w = rw (==_refl actor.user_id) refl

  -- A request that changes the committed tables or the cache comes from an actor with the
  -- permission of its route, and is no deletion of the actor's own account.
  pub respond-granted :
      (call : Call) (actor : CurrentActor) (w : World services)
      → (respond services call actor w).1 ≢ w
      → (granted actor.effective_permissions (permission_of call) ≡ true)
        × (call ≢ delete_user_call actor.user_id)
  unfolding respond require_permission
  respond-granted call actor w changed =
      elim (Bool-cases (granted actor.effective_permissions (permission_of call))) [
        | inl allowed ↦ (
          allowed,
          λ own. changed rw allowed (
              subst (λ c. (endpoint services c actor w).1 ≡ w) (sym own) (delete_user-own actor w)),
        )
        | inr denied ↦ absurd (changed rw denied refl)
      ]
