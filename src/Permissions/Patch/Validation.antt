-- ===== src/Permissions/Patch/Validation.antt =====
-- What `validate_permission_patch` accepts.
use mathlib.Core.Path.{subst}
use ara_nes_lms_core.Base.{
  sym, ap, ◌∙◌, map, string_eq, String, Bool, true, false, not, ◌||◌, ◌&&◌, List, [], ◌∷◌, ok, ◌≡◌,
  refl, ◌↔◌, arith, All, any, ◌==◌, is_empty,
}
use ara_nes_lms_core.Permissions.Keys.{is_registered}
use ara_nes_lms_core.Permissions.Defaults.{PermissionMap}
use ara_nes_lms_core.Permissions.Patch.{
  Object, bool, other, Patch, is_bool, insert_sorted, sorted, keys_where, booleans,
  get_unknown_permission_keys, non_boolean_keys_of, validate_permission_patch,
}

abbrev pub mem : List String → String → Bool
mem ks k = any (λ j. j == k) ks

-- An entry that a patch may have: a registered key with a `bool`.
abbrev pub IsAllowed : String → Object → Type 0
IsAllowed k v = (is_registered k ≡ true) × (is_bool v ≡ true)

mem-insert_sorted :
    (j : String) (ks : List String) (k : String)
    → mem (insert_sorted j ks) k ≡ ((j == k) || mem ks k)
unfolding insert_sorted
mem-insert_sorted j [] k = refl
mem-insert_sorted j (i ∷ ks) k = ground (arith, mem-insert_sorted j ks k)

pub mem-sorted : (ks : List String) (k : String) → mem (sorted ks) k ≡ mem ks k
unfolding sorted
mem-sorted [] k = refl
mem-sorted (j ∷ ks) k = ground (arith, mem-insert_sorted j (sorted ks) k, mem-sorted ks k)

is_empty-insert_sorted : (j : String) (ks : List String) → is_empty (insert_sorted j ks) ≡ false
unfolding insert_sorted
is_empty-insert_sorted j [] = refl
is_empty-insert_sorted j (i ∷ ks) = ground arith

pub is_empty-sorted : (ks : List String) → is_empty (sorted ks) ≡ is_empty ks
unfolding sorted
is_empty-sorted [] = refl
is_empty-sorted (j ∷ ks) = is_empty-insert_sorted j (sorted ks)

mem-keys_where :
    (p : String → Object → Bool) (patch : Patch) (k : String)
    → mem (keys_where p patch) k ≡ any (λ e. (e.0 == k) && p e.0 e.1) patch
mem-keys_where p [] k = refl
mem-keys_where p ((j, v) ∷ patch) k = ground (arith, mem-keys_where p patch k)

IsAllowed-of_empty :
    (patch : Patch)
    → is_empty (keys_where (λ k v. not (is_registered k)) patch) ≡ true
    → is_empty (keys_where (λ k v. not (is_bool v)) patch) ≡ true
    → All (λ e. IsAllowed e.0 e.1) patch
IsAllowed-of_empty [] h g = tt
IsAllowed-of_empty ((k, v) ∷ patch) h g =
    (ground arith, IsAllowed-of_empty patch (ground arith) (ground arith))

empty_of_allowed :
    (patch : Patch)
    → All (λ e. IsAllowed e.0 e.1) patch
    → (is_empty (keys_where (λ k v. not (is_registered k)) patch) ≡ true)
      × (is_empty (keys_where (λ k v. not (is_bool v)) patch) ≡ true)
empty_of_allowed [] h = (refl, refl)
empty_of_allowed ((k, v) ∷ patch) h = ground (arith, empty_of_allowed patch h.1)

-- The values of a patch that holds only `bool`s.
abbrev pub as_patch : PermissionMap → Patch
as_patch m = map (λ e. (e.0, bool e.1)) m

as_patch-booleans :
    (patch : Patch) → All (λ e. IsAllowed e.0 e.1) patch → as_patch (booleans patch) ≡ patch
unfolding booleans
as_patch-booleans [] h = refl
as_patch-booleans ((k, bool b) ∷ patch) h =
    ap (λ rest. (k, bool b) ∷ rest) (as_patch-booleans patch h.1)
as_patch-booleans ((k, other) ∷ patch) h = absurd (ground arith)

booleans-as_patch : (m : PermissionMap) → booleans (as_patch m) ≡ m
unfolding booleans
booleans-as_patch [] = refl
booleans-as_patch ((k, b) ∷ m) = ap (λ rest. (k, b) ∷ rest) (booleans-as_patch m)

as_patch-IsAllowed :
    (m : PermissionMap)
    → All (λ e. is_registered e.0 ≡ true) m
    → All (λ e. IsAllowed e.0 e.1) (as_patch m)
as_patch-IsAllowed [] h = tt
as_patch-IsAllowed ((k, b) ∷ m) h = ((h.0, refl), as_patch-IsAllowed m h.1)

registered_of_allowed :
    (m : PermissionMap)
    → All (λ e. IsAllowed e.0 e.1) (as_patch m)
    → All (λ e. is_registered e.0 ≡ true) m
registered_of_allowed [] h = tt
registered_of_allowed ((k, b) ∷ m) h = (h.0.0, registered_of_allowed m h.1)

-- What the code computes, in terms of its own check and copy.
checked_iff :
    (patch : Patch) (m : PermissionMap)
    → (validate_permission_patch patch ≡ ok m)
      ↔ (All (λ e. IsAllowed e.0 e.1) patch × (booleans patch ≡ m))
unfolding validate_permission_patch get_unknown_permission_keys non_boolean_keys_of
checked_iff patch m = (
  λ h. (
    IsAllowed-of_empty patch (ground (arith, unknown)) (ground (arith, non_boolean)),
    ground (arith, unknown, non_boolean),
  ),
  λ h. ground (arith, unknown, non_boolean, empty_of_allowed patch h.0),
)
  where
    unknown :
        is_empty (get_unknown_permission_keys patch)
        ≡ is_empty (keys_where (λ k v. not (is_registered k)) patch)
    unknown = is_empty-sorted (keys_where (λ k v. not (is_registered k)) patch)

    non_boolean :
        is_empty (non_boolean_keys_of patch) ≡ is_empty (keys_where (λ k v. not (is_bool v)) patch)
    non_boolean = is_empty-sorted (keys_where (λ k v. not (is_bool v)) patch)

-- A patch is accepted, with a certain result, exactly when every key of that result is registered
-- and the patch has the entries of the result in the same order, each of its values a `bool`.
pub validate-ok_iff :
    (patch : Patch) (m : PermissionMap)
    → (validate_permission_patch patch ≡ ok m)
      ↔ (All (λ e. is_registered e.0 ≡ true) m × (patch ≡ as_patch m))
validate-ok_iff patch m = (
  λ h.
      let (allowed, copied) = (checked_iff patch m).0 h in
      let same : as_patch m ≡ patch = ap as_patch (sym copied) ∙ as_patch-booleans patch allowed in
      (registered_of_allowed m (subst (All (λ e. IsAllowed e.0 e.1)) (sym same) allowed), sym same),
  λ h. (checked_iff patch m).1 (
    subst (All (λ e. IsAllowed e.0 e.1)) (sym h.1) (as_patch-IsAllowed m h.0),
    ap booleans h.1 ∙ booleans-as_patch m,
  ),
)
