-- ===== src/Rbac/Seeding.antt =====
-- The start of the program: `seed_roles_if_missing` of src/user_role/bootstrap.py, and
-- `RBACService.init_role_permissions_if_missing` of src/user_role/permission.py. The key of a row
-- stands for the object that the source holds of it.
pub mod Filling
pub mod Repeated
pub mod Matching
pub mod Drift
use ara_nes_lms_core.Base.{
  nat_eq, string_eq, ℕ, ◌+◌, String, Bool, true, false, not, ◌&&◌, ◌||◌, Option, none, some, List,
  [], ◌∷◌, ◌++◌, Result, ok, raise, map, filter, any, is_empty, length, ◌==◌, if◌then◌else◌,
}
use ara_nes_lms_core.Dict.{Dict, get, contains, set, update}
use ara_nes_lms_core.Errors.{Error, runtime_error}
use ara_nes_lms_core.Permissions.Defaults as Defaults
use ara_nes_lms_core.Permissions.Defaults.{PermissionMap}
use ara_nes_lms_core.Permissions.Registry as Registry
use ara_nes_lms_core.Permissions.Registry.{RbacService}
use ara_nes_lms_core.Database.{
  Role, Tables, Engine, Session, Exec, pure, throw, lift, ◌>>=◌, ◌>>◌, modify, commit, query,
}
use ara_nes_lms_core.Rbac.Rows.{or_empty, assign_role, add_role}

-- `DEFAULT_ROLES`: the key, if it is fixed, the name and the title key
abbrev pub default_roles : List (Option ℕ × (String × String))
default_roles =
    (some 1, ("SuperAdmin", "role.super_admin.title"))
    ∷ (some 2, ("Admin", "role.admin.title"))
    ∷ (some 3, ("User", "role.user.title"))
    ∷ (some 4, ("Guest", "role.guest.title"))
    ∷ (some 5, ("Teacher", "role.teacher.title"))
    ∷ (some 6, ("Student", "role.student.title"))
    ∷ (none, ("PLUGIN", "role.plugin.title"))
    ∷ []

-- `RBAC_SERVICE`
unfoldable pub rbac_service : RbacService
unfolding Registry.init Defaults.get_default_role_permissions
rbac_service =
    Registry.init (map (λ d. (d.1.0, Defaults.get_default_role_permissions d.1.0)) default_roles)

-- `for key, value in defaults.items(): if key not in permissions: ...`, and `changed`
unfoldable pub fill : PermissionMap → PermissionMap → PermissionMap × Bool
unfolding contains set
fill [] permissions = (permissions, false)
fill ((key, value) ∷ defaults) permissions =
    let (unset, changed) = fill defaults (set permissions key value) in
    let (kept, changed_later) = fill defaults permissions in
    if not (contains permissions key) then (unset, true) else (kept, changed_later)

-- The body of the loop over the roles: the role, and whether it is changed.
unfoldable pub init_role : RbacService → Role → Role × Bool
unfolding Registry.get_default_role_permissions fill
init_role service role =
    let defaults = Registry.get_default_role_permissions service role.name in
    let (permissions, changed) = fill defaults (or_empty role.permissions) in
    if is_empty defaults
    then (role, false)
    else if changed
    then (record role { permissions = some permissions }, true)
    else (role, false)

abbrev pub count_changed : RbacService → List Role → ℕ
count_changed service roles = length (filter (λ role. (init_role service role).1) roles)

abbrev pub write_roles : RbacService → List Role → Tables → Tables
write_roles service [] t = t
write_roles service (role ∷ roles) t =
    write_roles service roles (assign_role role.id (λ r. (init_role service r).0) t)

module _ (engine : Engine) where
  abbrev pub given_or_all : Option (List Role) → Exec (List Role)
  given_or_all (some roles) = pure roles
  given_or_all none = query engine (λ t. t.roles)

  abbrev pub commit_if : Bool → Exec (Unit {0})
  commit_if true = commit engine
  commit_if false = pure tt

  -- `write` is `session.add` of the roles that have changed, with `modify` only if there are any.
  abbrev pub write_if : Bool → (Tables → Tables) → Exec (Unit {0})
  write_if true f = modify f
  write_if false f = pure tt

  unfoldable pub init_role_permissions_if_missing : RbacService → Bool → Option (List Role) → Exec ℕ
  unfolding init_role
  init_role_permissions_if_missing service do_commit roles = given_or_all roles >>= λ roles.
      let updated = count_changed service roles in
      write_if (not (updated == 0)) (write_roles service roles)
      >> commit_if (not (updated == 0) && do_commit)
      >> pure updated

-- The attribute `id` is checked only where `DEFAULT_ROLES` fixes it.
abbrev pub id_mismatch : Option ℕ → Role → Bool
id_mismatch none existing = false
id_mismatch (some role_id) existing = not (existing.id == role_id)

abbrev pub expected : Option ℕ → String → Role → Result Error (Option Role)
expected role_id role_name existing =
    if id_mismatch role_id existing || not (existing.name == role_name)
    then raise runtime_error
    else ok (some existing)

abbrev pub matched : Option ℕ → String → Option Role → Option Role → Result Error (Option Role)
matched role_id role_name none none = ok none
matched role_id role_name (some existing) none = expected role_id role_name existing
matched role_id role_name none (some existing) = expected role_id role_name existing
matched role_id role_name (some by_id) (some by_name) =
    if not (by_id.id == by_name.id) then raise runtime_error else expected role_id role_name by_id

abbrev pub get_by_id : Dict ℕ Role → Option ℕ → Option Role
get_by_id by_id none = none
get_by_id by_id (some role_id) = get by_id role_id

unfoldable pub resolve_default_role_match :
    Option ℕ → String → Dict ℕ Role → Dict String Role → Result Error (Option Role)
unfolding get
resolve_default_role_match role_id role_name by_id by_name =
    matched role_id role_name (get_by_id by_id role_id) (get by_name role_name)

-- `{role.id: role for role in roles}` and `{role.name: role for role in roles}`
abbrev pub roles_by_id : List Role → Dict ℕ Role
roles_by_id roles = update [] (map (λ r. (r.id, r)) roles)

abbrev pub roles_by_name : List Role → Dict String Role
roles_by_name roles = update [] (map (λ r. (r.name, r)) roles)

abbrev pub is_default_role : Role → Bool
is_default_role role =
    any (λ d. elim d.0 [ none ↦ false | some role_id ↦ role.id == role_id ]) default_roles
    || any (λ d. role.name == d.1.0) default_roles

-- The roles of the session's `add_all` lists: those to update, and those to add.
abbrev pub Lists : Type 0
Lists = List Role × List (Option ℕ × (String × String))

abbrev pub titled : String → Role → Role
titled title_key role = record role { title_key = title_key }

abbrev pub with_match : Option ℕ × (String × String) → Option Role → Lists → Exec Lists
with_match d none (updates, additions) = pure (updates, additions ++ d ∷ [])
with_match d (some existing) (updates, additions) =
    if existing.title_key == ""
    then modify (assign_role existing.id (titled d.1.1))
      >> pure (updates ++ titled d.1.1 existing ∷ [], additions)
    else pure (updates, additions)

unfoldable pub match_defaults :
    List (Option ℕ × (String × String)) → Dict ℕ Role → Dict String Role → Lists → Exec Lists
unfolding resolve_default_role_match
match_defaults [] by_id by_name lists = pure lists
match_defaults (d ∷ defaults) by_id by_name lists =
    lift (resolve_default_role_match d.0 d.1.0 by_id by_name) >>= λ existing.
    with_match d existing lists >>= λ lists'. match_defaults defaults by_id by_name lists'

module _ (engine : Engine) where
  abbrev pub new_role : Option ℕ × (String × String) → Tables → Role
  new_role (role_id, (role_name, title_key)) t = record {
    id = elim role_id [ some i ↦ i | none ↦ engine.next_role_id t ];
    name = role_name;
    title_key = title_key;
    permissions = some (Registry.get_default_role_permissions rbac_service role_name);
  }

  -- `session.add_all(roles_to_add)`, and the objects with the keys that they get
  unfoldable pub add_all : List (Option ℕ × (String × String)) → Exec (List Role)
  add_all [] s = (ok [], s)
  add_all (d ∷ additions) s =
      let role = new_role d s.pending in
      (modify (add_role role) >> add_all additions >>= λ roles. pure (role ∷ roles)) s

  abbrev pub needs_commit : Bool → Lists → Session → Bool
  needs_commit do_commit (updates, additions) s =
      do_commit && (not (is_empty additions) || not (is_empty updates) || s.dirty)

  unfoldable pub seed_roles_if_missing : Bool → Exec ℕ
  unfolding match_defaults add_all init_role_permissions_if_missing
  seed_roles_if_missing do_commit =
      query engine (λ t. filter is_default_role t.roles) >>= λ existing_roles.
      match_defaults default_roles (roles_by_id existing_roles) (roles_by_name existing_roles)
        ([], [])
      >>= λ lists. add_all lists.1 >>= λ added.
          (λ s. commit_if engine (needs_commit do_commit lists s) s)
          >> init_role_permissions_if_missing engine rbac_service do_commit
              (some (existing_roles ++ added))
          >> pure (length lists.1)
