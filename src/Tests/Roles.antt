-- ===== src/Tests/Roles.antt =====
-- Permissions, and the operations of src/user_role/crud.py, on two roles and one user.
use ara_nes_lms_core.Base.{
  nat_eq, string_eq, ℕ, suc, ◌+◌, ◌<◌, String, Bool, true, false, none, some, List, [], ◌∷◌, ◌≡◌,
  ◌↔◌, refl, arith, All, ok, raise, find, ◌==◌, if◌then◌else◌,
}
use ara_nes_lms_core.Dict.{get, set, update, or_else}
use ara_nes_lms_core.Errors.{username_already_exists, integrity_error, role_not_found}
use ara_nes_lms_core.Permissions.Defaults as Defaults
use ara_nes_lms_core.Permissions.Defaults.{PermissionMap, get_or_empty}
use ara_nes_lms_core.Permissions.Defaults.Grants.{defaults_registered, manage_only_superadmin}
use ara_nes_lms_core.Permissions.Keys.{is_registered, rbac_can_manage_permissions}
use ara_nes_lms_core.Permissions.Patch.{
  Patch, bool, booleans, validate_permission_patch, get_unknown_permission_keys,
  non_boolean_keys_of, sorted,
}
use ara_nes_lms_core.Permissions.Patch.Validation.{validate-ok_iff, as_patch}
use ara_nes_lms_core.Permissions.Registry as Registry
use ara_nes_lms_core.Permissions.Registry.{RbacService, register_role_permission_defaults}
use ara_nes_lms_core.Permissions.Registry.Merging.{get-register}
use ara_nes_lms_core.Database.{
  Role, User, Tables, Engine, with_session, is_unique_violation, commit, query, flush,
}
use ara_nes_lms_core.Rbac.Rows.{
  role_by_id, is_superadmin_role, or_empty, validated_permission_patch, merge_permission_patch,
}
use ara_nes_lms_core.Rbac.Roles.{delete_role, patch_role_permissions}
use ara_nes_lms_core.Rbac.Users.{update_user_admin}
use ara_nes_lms_core.Rbac.Changes.{Change}
use ara_nes_lms_core.Rbac.Changes.OfRoles.{committed}
use ara_nes_lms_core.Rbac.Invariants.Keys.{IsAutoincrement}
use ara_nes_lms_core.Rbac.Invariants.References.{IsReferenced}
use ara_nes_lms_core.Rbac.Invariants.Superadmin.{IsKept}
use ara_nes_lms_core.Rbac.Requests.{
  Request, perform, serve, delete_role_request, create_role_request, patch_role_request,
  create_user_request, reset_roles_request,
}
use ara_nes_lms_core.Rbac.Requests.Sequences.{perform-Change, serve-IsKept, serve-IsReferenced}
use ara_nes_lms_core.Rbac.Outcomes.Deletion.{IsDeleted, delete_role-ok}
use ara_nes_lms_core.Rbac.Outcomes.Grants.{as_object, patch_role-ok}
use ara_nes_lms_core.Rbac.Outcomes.Conflicts.{update_user_conflict}

abbrev superadmin : Role
superadmin = record {
  id = 1;
  name = "SuperAdmin";
  title_key = "role.super_admin.title";
  permissions = some (("rbac_roles_read", true) ∷ []);
}

abbrev teacher : Role
teacher = record {
  id = 5;
  name = "Teacher";
  title_key = "";
  permissions = some (("rbac_users_read", false) ∷ []);
}

abbrev guest : Role
guest = record { id = 4; name = "Guest"; title_key = ""; permissions = none }

abbrev ann : User
ann = record { id = 1; username = "ann"; password = "x"; role_id = 5; permissions = none }

abbrev tables : Tables
tables = record { roles = superadmin ∷ teacher ∷ guest ∷ []; users = ann ∷ [] }

-- A database that refuses nothing, and counts its keys up.
abbrev total : List Role → ℕ
total [] = 0
total (r ∷ rs) = r.id + total rs

abbrev engine : Engine
engine = record {
  violation = λ t. none;
  next_role_id = λ t. suc (total t.roles);
  next_user_id = λ t. 9;
  lower = λ s. s;
}

above : (n : ℕ) (rs : List Role) → total rs < n → find (λ r. r.id == n) rs ≡ none
above n [] h = refl
above n (r ∷ rs) h = ground (arith, above n rs)

engine-IsAutoincrement : IsAutoincrement engine
engine-IsAutoincrement = record { fresh = λ t. above (suc (total t.roles)) t.roles (omega arith) }

abbrev same_text : String → String
same_text s = s

abbrev patch : Patch
patch = ("rbac_roles_read", bool true) ∷ []

abbrev requests : List Request
requests =
    create_role_request "Plumber" ""
    ∷ patch_role_request 5 patch
    ∷ reset_roles_request
    ∷ create_user_request "bob" "y" 5
    ∷ delete_role_request 1
    ∷ []

perform-Change_example :
    Change engine tables (perform engine same_text (delete_role_request 4) tables).1
perform-Change_example = perform-Change engine same_text (delete_role_request 4) tables

serve-IsKept_example : IsKept superadmin (serve engine same_text requests tables)
serve-IsKept_example =
    serve-IsKept engine same_text engine-IsAutoincrement requests tables (refl, (refl, (refl, tt)))
      superadmin
      (record {
        now = superadmin;
        found = refl;
        name = refl;
        title_key = refl;
        grants = λ k v h. h;
      })

serve-IsReferenced_example : IsReferenced (serve engine same_text requests tables)
serve-IsReferenced_example = serve-IsReferenced engine same_text requests tables (refl, tt)

missing : (perform engine same_text (delete_role_request 7) tables).0 ≡ some role_not_found
unfolding perform delete_role query flush
missing = ground arith

deleted : (with_session (delete_role engine 4) tables).0 ≡ ok tt
unfolding delete_role query commit flush
deleted = ground arith

delete_role-ok_example : IsDeleted 4 tables (with_session (delete_role engine 4) tables).1
delete_role-ok_example = delete_role-ok engine 4 tables deleted

abbrev patched_teacher : Role
patched_teacher = record teacher {
  permissions = some (("rbac_users_read", false) ∷ ("rbac_roles_read", true) ∷ []);
}

patched : (with_session (patch_role_permissions engine 5 patch) tables).0 ≡ ok patched_teacher
unfolding patch_role_permissions query commit flush validated_permission_patch
    merge_permission_patch validate_permission_patch get_unknown_permission_keys non_boolean_keys_of
    sorted booleans update set is_registered
patched = refl

patch_role-ok_example :
    (old : Role) × (role_by_id 5 tables ≡ some old)
    × (is_superadmin_role old ≡ false)
    × (role_by_id 5 (committed (with_session (patch_role_permissions engine 5 patch) tables))
        ≡ some patched_teacher)
    × ((k : String)
        → as_object (get (or_empty patched_teacher.permissions) k)
          ≡ or_else (get patch k) (as_object (get (or_empty old.permissions) k)))
unfolding get
patch_role-ok_example = patch_role-ok engine 5 patch tables patched_teacher (refl, tt) patched

-- A database that refuses the name "bob".
abbrev taken_engine : Engine
taken_engine = record engine {
  violation = λ t. elim (find (λ u. u.username == "bob") t.users) [
    | none ↦ none
    | some u ↦ some "UNIQUE constraint failed: users.username"
  ];
  lower = λ s.
      if s == "UNIQUE constraint failed: users.username"
      then "unique constraint failed: users.username"
      else s;
}

update_user_conflict_example :
    ((with_session (update_user_admin taken_engine 1 (some "bob") none) tables).0
      ≡ raise username_already_exists)
    × ((role_id : ℕ)
        → (with_session (update_user_admin taken_engine 1 (some "bob") (some role_id)) tables).0
          ≡ raise (integrity_error "UNIQUE constraint failed: users.username"))
update_user_conflict_example =
    update_user_conflict taken_engine tables 1 ann "bob" "UNIQUE constraint failed: users.username"
      refl refl refl (unfold is_unique_violation in refl)

validate-ok_iff_example :
    (validate_permission_patch patch ≡ ok (("rbac_roles_read", true) ∷ [])) ↔ (
      (All (λ (e : String × Bool). is_registered e.0 ≡ true) (("rbac_roles_read", true) ∷ []))
      × (patch ≡ as_patch (("rbac_roles_read", true) ∷ [])))
validate-ok_iff_example = validate-ok_iff patch (("rbac_roles_read", true) ∷ [])

admin_reads : get (Defaults.get_default_role_permissions "Admin") "rbac_roles_read" ≡ some true
unfolding Defaults.get_default_role_permissions Defaults.get_rbac_role_permission_defaults
    Defaults.get_i18n_role_permission_defaults Defaults.rbac_role_permission_defaults
    Defaults.i18n_role_permission_defaults get update set
admin_reads = refl

defaults_registered_example : is_registered "rbac_roles_read" ≡ true
defaults_registered_example = defaults_registered "Admin" "rbac_roles_read" true admin_reads

superadmin_manages :
    get (Defaults.get_default_role_permissions "SuperAdmin") rbac_can_manage_permissions ≡ some true
unfolding Defaults.get_default_role_permissions Defaults.get_rbac_role_permission_defaults
    Defaults.get_i18n_role_permission_defaults Defaults.rbac_role_permission_defaults
    Defaults.i18n_role_permission_defaults get update set
superadmin_manages = refl

manage_only_superadmin_example : ◌≡◌ {A = String} "SuperAdmin" "SuperAdmin"
manage_only_superadmin_example = manage_only_superadmin "SuperAdmin" superadmin_manages

abbrev service : RbacService
service = ("Guest", ("a", true) ∷ []) ∷ []

get-register_example :
    get
      (Registry.get_default_role_permissions
        (register_role_permission_defaults service (("Guest", ("a", false) ∷ []) ∷ []))
        "Guest")
      "a"
    ≡ or_else
        (get (get_or_empty (("Guest", ("a", false) ∷ []) ∷ []) "Guest") "a")
        (get (Registry.get_default_role_permissions service "Guest") "a")
unfolding get
get-register_example =
    get-register (("Guest", ("a", false) ∷ []) ∷ []) service (refl, tt) ((refl, tt), tt) "Guest" "a"
