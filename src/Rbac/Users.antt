-- ===== src/Rbac/Users.antt =====
-- The user operations of src/user_role/crud.py. `hash_password` is a parameter.
use ara_nes_lms_core.Base.{
  nat_eq, string_eq, ℕ, String, Option, none, some, List, [], map, length, ◌==◌, if◌then◌else◌,
}
use ara_nes_lms_core.Errors.{
  role_not_found, user_not_found, username_already_exists, integrity_error,
}
use ara_nes_lms_core.Permissions.Patch.{Patch}
use ara_nes_lms_core.Database.{
  Role, User, Tables, Engine, Exec, pure, throw, lift, ◌>>=◌, ◌>>◌, except_integrity, modify,
  rollback, commit, query, is_unique_violation,
}
use ara_nes_lms_core.Rbac.Rows.{
  merge_permission_patch, validated_permission_patch, role_by_id, user_by_id, sort_users,
  assign_user, add_user, remove_user, username_unique_identifiers, is_foreign_key_violation,
}

abbrev pub found_user : Option User → Exec User
found_user none = throw user_not_found
found_user (some user) = pure user

abbrev pub existing_role : Option Role → Exec (Unit {0})
existing_role none = throw role_not_found
existing_role (some role) = pure tt

-- The assignments of `update_user_admin` to the object that it has read.
abbrev pub with_username : Option String → User → User
with_username none user = user
with_username (some username) user =
    if username == user.username then user else record user { username = username }

abbrev pub with_role : Option ℕ → User → User
with_role none user = user
with_role (some role_id) user = record user { role_id = role_id }

abbrev pub set_username : Option String → User → Exec (Unit {0})
set_username none user = pure tt
set_username (some username) user =
    if username == user.username
    then pure tt
    else modify (assign_user user.id (λ u. record u { username = username }))

abbrev pub without_permissions : User → User
without_permissions user = record user { permissions = some [] }

module _ (engine : Engine) where
  -- The handler of `except IntegrityError` in `create_user_admin` and `update_user_admin`.
  abbrev pub user_conflict : String → Exec (Unit {0})
  user_conflict message = do
    rollback
    if is_unique_violation engine message username_unique_identifiers
        then throw username_already_exists
        else if is_foreign_key_violation engine message
        then throw role_not_found
        else throw (integrity_error message)

  unfoldable pub list_users : Exec (List User)
  list_users = query engine (λ t. sort_users t.users)

  unfoldable pub get_user_by_id : ℕ → Exec User
  get_user_by_id user_id = do user ← query engine (user_by_id user_id); found_user user

  -- The role of `update_user_admin`: the query flushes the new username first.
  abbrev pub set_role_id : Option ℕ → User → Exec (Unit {0})
  set_role_id none user = pure tt
  set_role_id (some role_id) user = do
    role ← query engine (role_by_id role_id)
    existing_role role
    modify (assign_user user.id (λ u. record u { role_id = role_id }))

  abbrev pub added_user : String → String → ℕ → Tables → User
  added_user username password role_id t = record {
    id = engine.next_user_id t;
    username = username;
    password = password;
    role_id = role_id;
    permissions = some [];
  }

  abbrev pub insert_new_user : String → String → ℕ → Exec User
  insert_new_user username password role_id s =
      let user = added_user username password role_id s.pending in
      (do modify (add_user user); except_integrity (commit engine) user_conflict; pure user) s

  unfoldable pub create_user_admin : (String → String) → String → String → ℕ → Exec User
  create_user_admin hash_password username password role_id = do
    role ← query engine (role_by_id role_id)
    existing_role role
    insert_new_user username (hash_password password) role_id

  unfoldable pub update_user_admin : ℕ → Option String → Option ℕ → Exec User
  unfolding get_user_by_id
  update_user_admin user_id username role_id = do
    user ← get_user_by_id user_id
    set_username username user
    set_role_id role_id user
    except_integrity (commit engine) user_conflict
    pure (with_role role_id (with_username username user))

  unfoldable pub set_user_password_admin : (String → String) → ℕ → String → Exec User
  unfolding get_user_by_id
  set_user_password_admin hash_password user_id password = do
    user ← get_user_by_id user_id
    let hashed = hash_password password
    modify (assign_user user.id (λ u. record u { password = hashed }))
    commit engine
    pure (record user { password = hashed })

  unfoldable pub delete_user_admin : ℕ → Exec (Unit {0})
  unfolding get_user_by_id
  delete_user_admin user_id = do
    user ← get_user_by_id user_id
    modify (remove_user user.id)
    commit engine

  unfoldable pub patch_user_permissions : ℕ → Patch → Exec User
  patch_user_permissions user_id permission_patch = do
    patch ← lift (validated_permission_patch permission_patch)
    row ← query engine (user_by_id user_id)
    user ← found_user row
    let merged = merge_permission_patch user.permissions patch
    modify (assign_user user.id (λ u. record u { permissions = some merged }))
    commit engine
    pure (record user { permissions = some merged })

  unfoldable pub reset_user_permissions : Exec ℕ
  reset_user_permissions = do
    updated_count ← query engine (λ t. length t.users)
    if updated_count == 0 then pure 0 else do
      modify (λ t. record t { users = map without_permissions t.users })
      commit engine
      pure updated_count
