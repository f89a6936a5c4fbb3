-- ===== src/Rbac/Roles.antt =====
-- The role operations of src/user_role/crud.py.
use ara_nes_lms_core.Base.{
  nat_eq, string_eq, ℕ, String, Bool, not, ◌&&◌, Option, none, some, List, [], map, length, filter,
  is_empty, ◌==◌, ltb, if◌then◌else◌,
}
use Prim.Native.Nat.{max}
use ara_nes_lms_core.Dict.{contains, update}
use ara_nes_lms_core.Errors.{
  role_not_found, role_already_exists, superadmin_role_immutable, role_in_use,
  duplicate_permission_keys, integrity_error,
}
use ara_nes_lms_core.Permissions.Defaults.{PermissionMap}
use ara_nes_lms_core.Permissions.Patch.{Patch, sorted}
use ara_nes_lms_core.Database.{
  Role, Tables, Engine, Exec, pure, throw, lift, ◌>>=◌, ◌>>◌, except_integrity, modify, rollback,
  commit, query, is_unique_violation,
}
use ara_nes_lms_core.Rbac.Rows.{
  is_superadmin_role, or_empty, merge_permission_patch, validated_permission_patch, role_by_id,
  role_by_name, count_users_of, sort_roles, assign_role, add_role, remove_role,
  role_name_unique_identifiers, is_foreign_key_violation,
}

-- The assignments of `update_role` to the object that it has read.
abbrev pub renamed : Option String → Role → Role
renamed none role = role
renamed (some name) role = if name == role.name then role else record role { name = name }

abbrev pub retitled : Option String → Role → Role
retitled none role = role
retitled (some title_key) role = record role { title_key = title_key }

abbrev pub set_name : Option String → Role → Exec (Unit {0})
set_name none role = pure tt
set_name (some name) role =
    if name == role.name
    then pure tt
    else modify (assign_role role.id (λ r. record r { name = name }))

abbrev pub set_title_key : Option String → Role → Exec (Unit {0})
set_title_key none role = pure tt
set_title_key (some title_key) role =
    modify (assign_role role.id (λ r. record r { title_key = title_key }))

abbrev pub found_role : Option Role → Exec Role
found_role none = throw role_not_found
found_role (some role) = pure role

-- Whether `reset_role_permissions` resets a role.
abbrev pub is_resettable : Role → Bool
is_resettable role = not (role.id == 1) && not (role.name == "SuperAdmin")

abbrev pub reset_if_resettable : Role → Role
reset_if_resettable role =
    if is_resettable role then record role { permissions = some [] } else role

pub record RoleRegistryResult : Type 0 where
  pub status : String
  pub role_id : ℕ
  pub role : String
  pub permissions : PermissionMap

-- `sorted(key for key in incoming.keys() if key in current)`
abbrev pub duplicate_keys_of : PermissionMap → PermissionMap → List String
duplicate_keys_of incoming current =
    sorted (map (λ e. e.0) (filter (λ e. contains current e.0) incoming))

module _ (engine : Engine) where
  -- The handler of `except IntegrityError` in `create_role` and `update_role`.
  abbrev pub role_conflict : String → Exec (Unit {0})
  role_conflict message = do
    rollback
    if is_unique_violation engine message role_name_unique_identifiers
        then throw role_already_exists
        else throw (integrity_error message)

  -- The handler of `except IntegrityError` in `delete_role`.
  abbrev pub role_delete_conflict : ℕ → String → Exec (Unit {0})
  role_delete_conflict role_id message = do
    rollback
    if is_foreign_key_violation engine message
        then (do n ← query engine (count_users_of role_id); throw (role_in_use (max n 1)))
        else throw (integrity_error message)

  unfoldable pub list_roles : Exec (List Role)
  list_roles = query engine (λ t. sort_roles t.roles)

  unfoldable pub get_role_by_id : ℕ → Exec Role
  get_role_by_id role_id = do role ← query engine (role_by_id role_id); found_role role

  abbrev pub added_role : String → String → Tables → Role
  added_role name title_key t = record {
    id = engine.next_role_id t;
    name = name;
    title_key = title_key;
    permissions = some [];
  }

  unfoldable pub create_role : String → String → Exec Role
  create_role name title_key s =
      let role = added_role name title_key s.pending in
      (do modify (add_role role); except_integrity (commit engine) role_conflict; pure role) s

  unfoldable pub update_role : ℕ → Option String → Option String → Exec Role
  unfolding get_role_by_id
  update_role role_id name title_key = do
    role ← get_role_by_id role_id
    if is_superadmin_role role then throw superadmin_role_immutable else do
      set_name name role
      set_title_key title_key role
      except_integrity (commit engine) role_conflict
      pure (retitled title_key (renamed name role))

  unfoldable pub delete_role : ℕ → Exec (Unit {0})
  unfolding get_role_by_id
  delete_role role_id = do
    role ← get_role_by_id role_id
    if is_superadmin_role role then throw superadmin_role_immutable else do
      user_count ← query engine (count_users_of role_id)
      if ltb 0 user_count then throw (role_in_use user_count) else do
        modify (remove_role role.id)
        except_integrity (commit engine) (role_delete_conflict role_id)

  unfoldable pub patch_role_permissions : ℕ → Patch → Exec Role
  patch_role_permissions role_id permission_patch = do
    patch ← lift (validated_permission_patch permission_patch)
    row ← query engine (role_by_id role_id)
    role ← found_role row
    if is_superadmin_role role then throw superadmin_role_immutable else do
      let merged = merge_permission_patch role.permissions patch
      modify (assign_role role.id (λ r. record r { permissions = some merged }))
      commit engine
      pure (record role { permissions = some merged })

  unfoldable pub reset_role_permissions : Exec ℕ
  reset_role_permissions = do
    updated_count ← query engine (λ t. length (filter is_resettable t.roles))
    if updated_count == 0 then pure 0 else do
      modify (λ t. record t { roles = map reset_if_resettable t.roles })
      commit engine
      pure updated_count

  unfoldable pub create_or_append_role_permissions_no_overwrite :
      String → Patch → Exec RoleRegistryResult
  create_or_append_role_permissions_no_overwrite role_name permission_patch = do
    incoming ← lift (validated_permission_patch permission_patch)
    row ← query engine (role_by_name role_name)
    role ← found_role row
    let current = or_empty role.permissions
    let duplicate_keys = duplicate_keys_of incoming current
    if not (is_empty duplicate_keys) then throw (duplicate_permission_keys duplicate_keys) else do
      let permissions = update current incoming
      modify (assign_role role.id (λ r. record r { permissions = some permissions }))
      commit engine
      pure (record {
        status = "updated";
        role_id = role.id;
        role = role.name;
        permissions = permissions;
      })
