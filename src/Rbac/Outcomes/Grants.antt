-- ===== src/Rbac/Outcomes/Grants.antt =====
-- `patch_role_permissions`.
use mathlib.Core.Path.{subst}
use ara_nes_lms_core.Base.{
  Result-cases, nat_eq, string_eq, ℕ, String, Bool, false, Option, none, [], ◌∷◌, some, ◌≡◌, refl,
  sym, ap, ◌∙◌, arith, Option-cases, Bool-cases, inl, inr, ok, raise, Result, if◌then◌else◌, ◌==◌,
  ==_refl,
}
use ara_nes_lms_core.Dict.{get, IsDict, or_else}
use ara_nes_lms_core.Dict.Laws.{get-update}
use ara_nes_lms_core.Permissions.Defaults.{PermissionMap}
use ara_nes_lms_core.Permissions.Patch.{
  Object, bool, Patch, InvalidPatch, validate_permission_patch,
}
use ara_nes_lms_core.Database.{Role, Tables, Engine, with_session, commit, query}
use ara_nes_lms_core.Rbac.Changes.OfRoles.{committed}
use ara_nes_lms_core.Rbac.Invariants.Keys.{find_role-map}
use ara_nes_lms_core.Permissions.Patch.Validation.{as_patch, validate-ok_iff}
use ara_nes_lms_core.Rbac.Rows.{
  invalid, assign_role, role_by_id, is_superadmin_role, or_empty, merge_permission_patch,
  validated_permission_patch,
}
use ara_nes_lms_core.Rbac.Roles.{patch_role_permissions}

validated_lem :
    (patch : Patch) (m : PermissionMap)
    → validated_permission_patch patch ≡ ok m
    → patch ≡ as_patch m
unfolding validated_permission_patch
validated_lem patch m h = by_cases (validate_permission_patch patch) refl h
  where
    by_cases :
        (r : Result InvalidPatch PermissionMap)
        → validate_permission_patch patch ≡ r
        → invalid r ≡ ok m
        → patch ≡ as_patch m
    by_cases (ok n) e g = ((validate-ok_iff patch n).0 e).1 ∙ ap as_patch (ground arith)
    by_cases (raise e') e g = absurd (cc)

-- A value of a patch or of permissions that are read as a patch.
abbrev pub as_object : Option Bool → Option Object
as_object none = none
as_object (some b) = some (bool b)

get-as_patch : (m : PermissionMap) (k : String) → get (as_patch m) k ≡ as_object (get m k)
unfolding get
get-as_patch [] k = refl
get-as_patch ((j, b) ∷ m) k = ground (arith, get-as_patch m k)

as_object-none : (o : Option Bool) → as_object o ≡ none → o ≡ none
as_object-none none h = refl
as_object-none (some b) h = absurd (cc)

IsDict-of_as_patch : (m : PermissionMap) → IsDict (as_patch m) → IsDict m
IsDict-of_as_patch [] h = tt
IsDict-of_as_patch ((k, b) ∷ m) h =
    (as_object-none (get m k) (sym (get-as_patch m k) ∙ h.0), IsDict-of_as_patch m h.1)

as_object-or_else :
    (a b : Option Bool) → as_object (or_else a b) ≡ or_else (as_object a) (as_object b)
as_object-or_else none b = refl
as_object-or_else (some a) b = refl

module _ (engine : Engine) (i : ℕ) (patch : Patch) (t : Tables) where
  pub patch_role-last :
      (m : PermissionMap) (old r : Role)
      → validated_permission_patch patch ≡ ok m
      → role_by_id i t ≡ some old
      → is_superadmin_role old ≡ false
      → (with_session (patch_role_permissions engine i patch) t).0 ≡ ok r
      → (r ≡ record old { permissions = some (merge_permission_patch old.permissions m) })
        × (committed (with_session (patch_role_permissions engine i patch) t)
            ≡ assign_role old.id
                (λ q. record q { permissions = some (merge_permission_patch old.permissions m) })
                t)
  unfolding patch_role_permissions commit query
  patch_role-last m old r valid found mutable = rw (valid, found, mutable) (λ h. ground arith)

  pub patch_role-passed :
      (r : Role)
      → (with_session (patch_role_permissions engine i patch) t).0 ≡ ok r
      → (m : PermissionMap) × (old : Role) × (validated_permission_patch patch ≡ ok m)
        × (role_by_id i t ≡ some old)
        × (is_superadmin_role old ≡ false)
  patch_role-passed r = elim (Result-cases (validated_permission_patch patch)) [
    | inr (e, refused) ↦ unfold patch_role_permissions in rw refused (λ h. absurd (cc))
    | inl (m, valid) ↦ elim (Option-cases (role_by_id i t)) [
      | inl missing ↦ unfold patch_role_permissions query in rw (valid, missing) (λ h. absurd (cc))
      | inr (old, found) ↦ elim (Bool-cases (is_superadmin_role old)) [
        | inl immutable ↦
            unfold patch_role_permissions query in rw (valid, found, immutable) (λ h. absurd (cc))
        | inr mutable ↦ λ h. (m, old, valid, found, mutable)
      ]
    ]
  ]

  merged_row :
      (m : PermissionMap) (old : Role)
      → role_by_id i t ≡ some old
      → role_by_id i (
          assign_role old.id
            (λ q. record q { permissions = some (merge_permission_patch old.permissions m) })
            t)
        ≡ some (record old { permissions = some (merge_permission_patch old.permissions m) })
  merged_row m old found =
      find_role-map
        (λ r.
          if r.id == old.id
          then record r { permissions = some (merge_permission_patch old.permissions m) }
          else r)
        (λ r. ground arith) i t.roles
      ∙ ground (arith, ==_refl old.id)

  merged_reads :
      (m : PermissionMap) (old : Role)
      → patch ≡ as_patch m
      → IsDict patch
      → (k : String)
      → as_object (get (merge_permission_patch old.permissions m) k)
        ≡ or_else (get patch k) (as_object (get (or_empty old.permissions) k))
  unfolding merge_permission_patch
  merged_reads m old same dict k =
      ap as_object
        (get-update (or_empty old.permissions) m (IsDict-of_as_patch m (subst IsDict same dict)) k)
      ∙ as_object-or_else (get m k) (get (or_empty old.permissions) k)
      ∙ ap (λ o. or_else o (as_object (get (or_empty old.permissions) k)))
          (sym (ap (λ p. get p k) same ∙ get-as_patch m k))

  -- If `patch_role_permissions` returns a role, for a patch with distinct keys, the role was there
  -- and is no superadmin role, it is what the key now finds, and under each key it has the value
  -- that the request's patch has, and where the patch has none the one that it had.
  pub patch_role-ok :
      (r : Role)
      → IsDict patch
      → (with_session (patch_role_permissions engine i patch) t).0 ≡ ok r
      → (old : Role) × (role_by_id i t ≡ some old)
        × (is_superadmin_role old ≡ false)
        × (role_by_id i (committed (with_session (patch_role_permissions engine i patch) t))
            ≡ some r)
        × ((k : String)
            → as_object (get (or_empty r.permissions) k)
              ≡ or_else (get patch k) (as_object (get (or_empty old.permissions) k)))
  patch_role-ok r dict h =
      let (m, old, valid, found, mutable) = patch_role-passed r h in
      let (result, table) = patch_role-last m old r valid found mutable h in
      (
        old,
        found,
        mutable,
        ap (role_by_id i) table ∙ merged_row m old found ∙ ap some (sym result),
        λ k.
            ap (λ (q : Role). as_object (get (or_empty q.permissions) k)) result
            ∙ merged_reads m old (validated_lem patch m valid) dict k,
      )
