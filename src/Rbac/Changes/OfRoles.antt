-- ===== src/Rbac/Changes/OfRoles.antt =====
-- What each role operation of src/user_role/crud.py commits, whatever the database answers.
use ara_nes_lms_core.Base.{
  Result-cases, nat_eq, string_eq, ℕ, zero, suc, ◌⊎◌, String, true, false, Option, some, ◌≡◌, refl,
  map, length, filter, is_empty, Option-cases, Bool-cases, inl, inr, arith, find_sound, nat_beq_iff,
  ==_iff, Result, ok,
}
use ara_nes_lms_core.Dict.{update}
use ara_nes_lms_core.Errors.{Error}
use ara_nes_lms_core.Permissions.Defaults.{PermissionMap}
use ara_nes_lms_core.Permissions.Patch.{Patch}
use ara_nes_lms_core.Database.{Role, Tables, Engine, with_session, commit, query}
use ara_nes_lms_core.Rbac.Rows.{
  is_superadmin_role, role_by_id, role_by_name, add_role, remove_role, count_users_of, assign_role,
  merge_permission_patch, validated_permission_patch, or_empty,
}
use ara_nes_lms_core.Rbac.Roles.{
  update_role, create_role, delete_role, added_role, patch_role_permissions, reset_role_permissions,
  reset_if_resettable, is_resettable, create_or_append_role_permissions_no_overwrite,
  duplicate_keys_of,
}
use ara_nes_lms_core.Rbac.Changes.{
  Change, unchanged, role_edited, rename_in, retitle_in, role_added, role_removed, role_granted,
  roles_reset, role_extended, saved, saved-Change,
}

abbrev pub committed : {A : Type 0} → Result Error A × Tables → Tables
committed r = r.1

pub ℕ-cases : (n : ℕ) → (n ≡ 0) ⊎ ((m : ℕ) × (n ≡ suc m))
ℕ-cases zero = inl refl
ℕ-cases (suc m) = inr (m, refl)

module _ (engine : Engine) (t : Tables) where
  create_role-saved :
      (name title_key : String)
      → committed (with_session (create_role engine name title_key) t)
        ≡ saved engine t (add_role (added_role engine name title_key t) t)
  unfolding create_role commit
  create_role-saved name title_key = ground arith

  module _ (role_id : ℕ) (role : Role) (found : role_by_id role_id t ≡ some role) where
    pub id_of_found : role.id ≡ role_id
    id_of_found = (nat_beq_iff _ _).0 (find_sound _ t.roles role found)

    pub found_by_own_id : role_by_id role.id t ≡ some role
    found_by_own_id = simp id_of_found found

    module _ (mutable : is_superadmin_role role ≡ false) where
      update_role-saved :
          (name title_key : Option String)
          → committed (with_session (update_role engine role_id name title_key) t)
            ≡ saved engine t (retitle_in title_key role (rename_in name role t))
      unfolding update_role commit query
      update_role-saved name title_key = rw (found, mutable) (ground arith)

      delete_role-saved :
          count_users_of role_id t ≡ 0
          → committed (with_session (delete_role engine role_id) t)
            ≡ saved engine t (remove_role role.id t)
      unfolding delete_role commit query
      delete_role-saved free = rw (found, mutable, free) (ground arith)

      delete_role-in_use :
          (n : ℕ)
          → count_users_of role_id t ≡ suc n
          → committed (with_session (delete_role engine role_id) t) ≡ t
      unfolding delete_role commit query
      delete_role-in_use n used = rw (found, mutable, used) (ground arith)

      patch_role_permissions-saved :
          (patch : Patch) (m : PermissionMap)
          → validated_permission_patch patch ≡ ok m
          → committed (with_session (patch_role_permissions engine role_id patch) t)
            ≡ saved engine t (
                assign_role role.id
                  (λ r. record r { permissions = some (merge_permission_patch role.permissions m) })
                  t)
      unfolding patch_role_permissions commit query
      patch_role_permissions-saved patch m valid = rw (valid, found, mutable) (ground arith)

  reset_role_permissions-saved :
      (n : ℕ)
      → length (filter is_resettable t.roles) ≡ suc n
      → committed (with_session (reset_role_permissions engine) t)
        ≡ saved engine t (record t { roles = map reset_if_resettable t.roles })
  unfolding reset_role_permissions commit query
  reset_role_permissions-saved n some_left = rw some_left (ground arith)

  append-saved :
      (name : String) (patch : Patch) (incoming : PermissionMap) (role : Role)
      → validated_permission_patch patch ≡ ok incoming
      → role_by_name name t ≡ some role
      → is_empty (duplicate_keys_of incoming (or_empty role.permissions)) ≡ true
      → committed
          (with_session (create_or_append_role_permissions_no_overwrite engine name patch) t)
        ≡ saved engine t (
            assign_role role.id
              (λ r. record r { permissions = some (update (or_empty role.permissions) incoming) })
              t)
  unfolding create_or_append_role_permissions_no_overwrite commit query
  append-saved name patch incoming role valid found fresh = rw (valid, found, fresh) (ground arith)

  found_by_own_name :
      (name : String) (role : Role)
      → role_by_name name t ≡ some role
      → role_by_name role.name t ≡ some role
  found_by_own_name name role found =
      let e : role.name ≡ name = (==_iff _ _).0 (find_sound _ t.roles role found) in simp e found

  pub create_role-Change :
      (name title_key : String)
      → Change engine t (committed (with_session (create_role engine name title_key) t))
  create_role-Change name title_key =
      rw (create_role-saved name title_key)
        (saved-Change engine t _ (role_added name title_key refl))

  pub update_role-Change :
      (role_id : ℕ) (name title_key : Option String)
      → Change engine t (committed (with_session (update_role engine role_id name title_key) t))
  update_role-Change role_id name title_key = elim (Option-cases (role_by_id role_id t)) [
    | inl missing ↦ unfold update_role query in rw missing (unchanged refl)
    | inr (role, found) ↦ elim (Bool-cases (is_superadmin_role role)) [
      | inl immutable ↦ unfold update_role query in rw (found, immutable) (unchanged refl)
      | inr mutable ↦ rw (update_role-saved role_id role found mutable name title_key) (
          saved-Change engine t _
            (role_edited role name title_key (found_by_own_id role_id role found, mutable) refl))
    ]
  ]

  pub delete_role-Change :
      (role_id : ℕ) → Change engine t (committed (with_session (delete_role engine role_id) t))
  delete_role-Change role_id = elim (Option-cases (role_by_id role_id t)) [
    | inl missing ↦ unfold delete_role query in rw missing (unchanged refl)
    | inr (role, found) ↦ elim (Bool-cases (is_superadmin_role role)) [
      | inl immutable ↦ unfold delete_role query in rw (found, immutable) (unchanged refl)
      | inr mutable ↦ elim (ℕ-cases (count_users_of role_id t)) [
        | inl free ↦ rw (delete_role-saved role_id role found mutable free) (
            saved-Change engine t _ (
              role_removed role (found_by_own_id role_id role found, mutable)
                (rw (id_of_found role_id role found) free) refl))
        | inr (n, used) ↦ rw (delete_role-in_use role_id role found mutable n used) (unchanged refl)
      ]
    ]
  ]

  pub patch_role_permissions-Change :
      (role_id : ℕ) (patch : Patch)
      → Change engine t (committed (with_session (patch_role_permissions engine role_id patch) t))
  patch_role_permissions-Change role_id patch =
      elim (Result-cases (validated_permission_patch patch)) [
        | inr (e, refused) ↦ unfold patch_role_permissions in rw refused (unchanged refl)
        | inl (m, valid) ↦ elim (Option-cases (role_by_id role_id t)) [
          | inl missing ↦
              unfold patch_role_permissions query in rw (valid, missing) (unchanged refl)
          | inr (role, found) ↦ elim (Bool-cases (is_superadmin_role role)) [
            | inl immutable ↦
                unfold patch_role_permissions query in rw (valid, found, immutable) (unchanged refl)
            | inr mutable ↦
                rw (patch_role_permissions-saved role_id role found mutable patch m valid) (
                  saved-Change engine t _
                    (role_granted role _ (found_by_own_id role_id role found, mutable) refl))
          ]
        ]
      ]

  pub reset_role_permissions-Change :
      Change engine t (committed (with_session (reset_role_permissions engine) t))
  reset_role_permissions-Change = elim (ℕ-cases (length (filter is_resettable t.roles))) [
    | inl nothing ↦ unfold reset_role_permissions query in rw nothing (unchanged refl)
    | inr (n, some_left) ↦
        rw (reset_role_permissions-saved n some_left) (saved-Change engine t _ (roles_reset refl))
  ]

  pub append-Change :
      (name : String) (patch : Patch)
      → Change engine t (
          committed
            (with_session (create_or_append_role_permissions_no_overwrite engine name patch) t))
  append-Change name patch = elim (Result-cases (validated_permission_patch patch)) [
    | inr (e, refused) ↦
        unfold create_or_append_role_permissions_no_overwrite in rw refused (unchanged refl)
    | inl (m, valid) ↦ elim (Option-cases (role_by_name name t)) [
      | inl missing ↦
          unfold create_or_append_role_permissions_no_overwrite query in
          rw (valid, missing) (unchanged refl)
      | inr (role, found) ↦
          elim (Bool-cases (is_empty (duplicate_keys_of m (or_empty role.permissions)))) [
            | inl fresh ↦ rw (append-saved name patch m role valid found fresh) (
                saved-Change engine t _
                  (role_extended role m (found_by_own_name name role found) fresh refl))
            | inr clash ↦
                unfold create_or_append_role_permissions_no_overwrite query in
                rw (valid, found, clash) (unchanged refl)
          ]
    ]
  ]
