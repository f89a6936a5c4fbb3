-- ===== src/Permissions/Patch.antt =====
-- `validate_permission_patch` of src/user_role/permission.py. A patch maps keys to objects, of
-- which the code asks only whether their type is `bool`. `sorted` is an insertion sort by the
-- order on texts.
pub mod Validation
use ara_nes_lms_core.Base.{
  str_le, String, Bool, true, false, not, ◌||◌, List, [], ◌∷◌, Result, ok, raise, filter, map,
  is_empty, if◌then◌else◌,
}
use ara_nes_lms_core.Dict.{Dict}
use ara_nes_lms_core.Permissions.Keys.{is_registered}
use ara_nes_lms_core.Permissions.Defaults.{PermissionMap}

-- A value of a patch: a `bool`, or an object of another type.
pub data Object : Type 0 where
  bool : Bool → Object
  other : Object

abbrev pub Patch : Type 0
Patch = Dict String Object

abbrev pub is_bool : Object → Bool
is_bool (bool b) = true
is_bool other = false

-- The keyword arguments of `InvalidPermissionPatchError`.
pub record InvalidPatch : Type 0 where
  pub unknown_keys : List String
  pub non_boolean_keys : List String

-- `sorted(keys)`
unfoldable pub insert_sorted : String → List String → List String
insert_sorted k [] = k ∷ []
insert_sorted k (j ∷ ks) = if str_le k j then k ∷ j ∷ ks else j ∷ insert_sorted k ks

unfoldable pub sorted : List String → List String
unfolding insert_sorted
sorted [] = []
sorted (k ∷ ks) = insert_sorted k (sorted ks)

-- The keys of the patch in its order.
abbrev pub keys_where : (String → Object → Bool) → Patch → List String
keys_where p patch = map (λ e. e.0) (filter (λ e. p e.0 e.1) patch)

-- `{key: value for key, value in permission_patch.items()}`, at the type that it then has
unfoldable pub booleans : Patch → PermissionMap
booleans [] = []
booleans ((k, bool b) ∷ patch) = (k, b) ∷ booleans patch
booleans ((k, other) ∷ patch) = booleans patch

unfoldable pub get_unknown_permission_keys : Patch → List String
get_unknown_permission_keys patch = sorted (keys_where (λ k v. not (is_registered k)) patch)

unfoldable pub non_boolean_keys_of : Patch → List String
non_boolean_keys_of patch = sorted (keys_where (λ k v. not (is_bool v)) patch)

unfoldable pub validate_permission_patch : Patch → Result InvalidPatch PermissionMap
validate_permission_patch patch =
    let unknown_keys = get_unknown_permission_keys patch in
    let non_boolean_keys = non_boolean_keys_of patch in
    if not (is_empty unknown_keys) || not (is_empty non_boolean_keys)
    then raise (record { unknown_keys = unknown_keys; non_boolean_keys = non_boolean_keys })
    else ok (booleans patch)
