-- ===== src/Rbac/Rows.antt =====
-- The queries and row updates that src/user_role/crud.py is built of, its markers of database
-- messages, and the constants of src/user_role/defaults.py.
use ara_nes_lms_core.Base.{
  nat_eq, string_eq, ℕ, String, Bool, not, ◌||◌, Option, none, some, List, [], ◌∷◌, ◌++◌, Result,
  ok, raise, map, length, filter, find, any, leb, ◌==◌, occurs_in, if◌then◌else◌,
}
use ara_nes_lms_core.Dict.{update}
use ara_nes_lms_core.Errors.{Error, invalid_permission_patch}
use ara_nes_lms_core.Permissions.Defaults.{PermissionMap}
use ara_nes_lms_core.Permissions.Patch.{Patch, InvalidPatch, validate_permission_patch}
use ara_nes_lms_core.Database.{Role, User, Tables, Engine}

abbrev pub superadmin_role_id : ℕ
superadmin_role_id = 1

abbrev pub superadmin_role_name : String
superadmin_role_name = "SuperAdmin"

abbrev pub role_name_unique_identifiers : List String
role_name_unique_identifiers =
    "roles.name" ∷ "roles_name_key" ∷ "key 'name'" ∷ "for key 'name'" ∷ []

abbrev pub username_unique_identifiers : List String
username_unique_identifiers =
    "users.username" ∷ "users_username_key" ∷ "key 'username'" ∷ "for key 'username'" ∷ []

abbrev pub foreign_key_violation_markers : List String
foreign_key_violation_markers =
    "foreign key constraint failed" ∷ "violates foreign key constraint"
    ∷ "foreign key constraint fails" ∷ []

-- `_is_foreign_key_violation`
unfoldable pub is_foreign_key_violation : Engine → String → Bool
is_foreign_key_violation engine orig =
    any (λ marker. occurs_in marker (engine.lower orig)) foreign_key_violation_markers

abbrev pub is_superadmin_role : Role → Bool
is_superadmin_role role = role.id == superadmin_role_id || role.name == superadmin_role_name

-- `x or {}` on a nullable permission column
abbrev pub or_empty : Option PermissionMap → PermissionMap
or_empty none = []
or_empty (some m) = m

-- `_merge_permission_patch`
unfoldable pub merge_permission_patch : Option PermissionMap → PermissionMap → PermissionMap
merge_permission_patch current patch = update (or_empty current) patch

abbrev pub invalid : Result InvalidPatch PermissionMap → Result Error PermissionMap
invalid (ok m) = ok m
invalid (raise e) = raise (invalid_permission_patch e.unknown_keys e.non_boolean_keys)

-- `_validated_permission_patch`
unfoldable pub validated_permission_patch : Patch → Result Error PermissionMap
validated_permission_patch patch = invalid (validate_permission_patch patch)

-- `.where(Role.id == role_id).limit(1)`, and so on
abbrev pub role_by_id : ℕ → Tables → Option Role
role_by_id role_id t = find (λ r. r.id == role_id) t.roles

abbrev pub role_by_name : String → Tables → Option Role
role_by_name name t = find (λ r. r.name == name) t.roles

abbrev pub user_by_id : ℕ → Tables → Option User
user_by_id user_id t = find (λ u. u.id == user_id) t.users

-- `select(func.count()).select_from(User).where(User.role_id == role_id)`
abbrev pub count_users_of : ℕ → Tables → ℕ
count_users_of role_id t = length (filter (λ u. u.role_id == role_id) t.users)

-- `.order_by(Role.id)`, `.order_by(User.id)`
unfoldable pub insert_role : Role → List Role → List Role
insert_role r [] = r ∷ []
insert_role r (q ∷ rs) = if leb r.id q.id then r ∷ q ∷ rs else q ∷ insert_role r rs

unfoldable pub sort_roles : List Role → List Role
unfolding insert_role
sort_roles [] = []
sort_roles (r ∷ rs) = insert_role r (sort_roles rs)

unfoldable pub insert_user : User → List User → List User
insert_user u [] = u ∷ []
insert_user u (v ∷ us) = if leb u.id v.id then u ∷ v ∷ us else v ∷ insert_user u us

unfoldable pub sort_users : List User → List User
unfolding insert_user
sort_users [] = []
sort_users (u ∷ us) = insert_user u (sort_users us)

-- An attribute of the object with a primary key is assigned; `session.add`; `session.delete`.
abbrev pub assign_role : ℕ → (Role → Role) → Tables → Tables
assign_role role_id f t = record t { roles = map (λ r. if r.id == role_id then f r else r) t.roles }

abbrev pub assign_user : ℕ → (User → User) → Tables → Tables
assign_user user_id f t = record t { users = map (λ u. if u.id == user_id then f u else u) t.users }

abbrev pub add_role : Role → Tables → Tables
add_role role t = record t { roles = t.roles ++ role ∷ [] }

abbrev pub add_user : User → Tables → Tables
add_user user t = record t { users = t.users ++ user ∷ [] }

abbrev pub remove_role : ℕ → Tables → Tables
remove_role role_id t = record t { roles = filter (λ r. not (r.id == role_id)) t.roles }

abbrev pub remove_user : ℕ → Tables → Tables
remove_user user_id t = record t { users = filter (λ u. not (u.id == user_id)) t.users }
