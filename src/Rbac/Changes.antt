-- ===== src/Rbac/Changes.antt =====
-- What the operations of src/user_role/crud.py may commit, as a relation between tables.
pub mod OfRoles
pub mod OfUsers
use ara_nes_lms_core.Base.{
  nat_eq, string_eq, ℕ, String, Bool, true, false, not, ◌&&◌, ◌||◌, Option, none, some, List, [],
  ◌≡◌, refl, map, inl, inr, Option-cases, length, filter, is_empty, ◌==◌, if◌then◌else◌,
}
use ara_nes_lms_core.Dict.{update}
use ara_nes_lms_core.Permissions.Defaults.{PermissionMap}
use ara_nes_lms_core.Database.{Role, User, Tables, Engine}
use ara_nes_lms_core.Rbac.Rows.{
  is_superadmin_role, or_empty, role_by_id, role_by_name, user_by_id, count_users_of, assign_role,
  assign_user, add_role, add_user, remove_role, remove_user,
}
use ara_nes_lms_core.Rbac.Roles.{added_role, reset_if_resettable, duplicate_keys_of}
use ara_nes_lms_core.Rbac.Users.{added_user, without_permissions}

-- `role.name = name` and `role.title_key = title_key`, each where the argument is given.
abbrev pub rename_in : Option String → Role → Tables → Tables
rename_in none role t = t
rename_in (some name) role t =
    if name == role.name then t else assign_role role.id (λ r. record r { name = name }) t

abbrev pub retitle_in : Option String → Role → Tables → Tables
retitle_in none role t = t
retitle_in (some title_key) role t = assign_role role.id (λ r. record r { title_key = title_key }) t

abbrev pub rename_user_in : Option String → User → Tables → Tables
rename_user_in none user t = t
rename_user_in (some username) user t =
    if username == user.username
    then t
    else assign_user user.id (λ u. record u { username = username }) t

-- The role is what the table has under its key, and no superadmin role.
abbrev pub IsEditable : Tables → Role → Type 0
IsEditable t role = (role_by_id role.id t ≡ some role) × (is_superadmin_role role ≡ false)

-- What is committed when the session's tables are `u`: nothing if the database refuses them.
abbrev pub saved : Engine → Tables → Tables → Tables
saved engine t u = elim (engine.violation u) [ none ↦ u | some message ↦ t ]

pub data Change (engine : Engine) (t u : Tables) : Type 0 where
  unchanged : u ≡ t → Change engine t u
  role_added :
      (name title_key : String)
      → u ≡ add_role (added_role engine name title_key t) t
      → Change engine t u
  role_edited :
      (role : Role) (name title_key : Option String)
      → IsEditable t role
      → u ≡ retitle_in title_key role (rename_in name role t)
      → Change engine t u
  role_removed :
      (role : Role)
      → IsEditable t role
      → count_users_of role.id t ≡ 0
      → u ≡ remove_role role.id t
      → Change engine t u
  role_granted :
      (role : Role) (permissions : PermissionMap)
      → IsEditable t role
      → u ≡ assign_role role.id (λ r. record r { permissions = some permissions }) t
      → Change engine t u
  roles_reset : u ≡ record t { roles = map reset_if_resettable t.roles } → Change engine t u
  role_extended :
      (role : Role) (incoming : PermissionMap)
      → role_by_name role.name t ≡ some role
      → is_empty (duplicate_keys_of incoming (or_empty role.permissions)) ≡ true
      → u
        ≡ assign_role role.id
            (λ r. record r { permissions = some (update (or_empty role.permissions) incoming) })
            t
      → Change engine t u
  user_added :
      (role : Role) (username password : String)
      → role_by_id role.id t ≡ some role
      → u ≡ add_user (added_user engine username password role.id t) t
      → Change engine t u
  user_renamed :
      (user : User) (username : Option String)
      → u ≡ rename_user_in username user t
      → Change engine t u
  user_moved :
      (user : User) (username : Option String) (role : Role)
      → role_by_id role.id t ≡ some role
      → u
        ≡ assign_user user.id (λ v. record v { role_id = role.id }) (rename_user_in username user t)
      → Change engine t u
  password_set :
      (user_id : ℕ) (password : String)
      → u ≡ assign_user user_id (λ v. record v { password = password }) t
      → Change engine t u
  user_granted :
      (user_id : ℕ) (permissions : PermissionMap)
      → u ≡ assign_user user_id (λ v. record v { permissions = some permissions }) t
      → Change engine t u
  user_removed : (user_id : ℕ) → u ≡ remove_user user_id t → Change engine t u
  users_reset : u ≡ record t { users = map without_permissions t.users } → Change engine t u

pub saved-Change :
    (engine : Engine) (t u : Tables) → Change engine t u → Change engine t (saved engine t u)
saved-Change engine t u c = elim (Option-cases (engine.violation u)) [
  | inl accepted ↦ rw (accepted, saved) c
  | inr (message, refused) ↦ rw (refused, saved) (unchanged refl)
]
