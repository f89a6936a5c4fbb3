-- ===== src/Rbac/Effects/OfRoles.antt =====
-- The role operations of src/user_role/crud.py, when they return.
use mathlib.Core.Path.{subst}
use ara_nes_lms_core.Base.{
  nat_eq, string_eq, ℕ, String, false, Option, some, ◌≡◌, refl, arith, Option-cases, Bool-cases,
  Result-cases, inl, inr, ok,
}
use ara_nes_lms_core.Dict.{update}
use ara_nes_lms_core.Permissions.Defaults.{PermissionMap}
use ara_nes_lms_core.Permissions.Patch.{Patch}
use ara_nes_lms_core.Database.{Role, Tables, Engine, with_session, commit, query}
use ara_nes_lms_core.Rbac.Rows.{
  is_superadmin_role, role_by_id, role_by_name, or_empty, assign_role, add_role,
  merge_permission_patch, validated_permission_patch,
}
use ara_nes_lms_core.Rbac.Roles.{
  create_role, update_role, patch_role_permissions, added_role, delete_role, RoleRegistryResult,
  create_or_append_role_permissions_no_overwrite, renamed, retitled,
}
use ara_nes_lms_core.Rbac.Changes.{rename_in, retitle_in}
use ara_nes_lms_core.Rbac.Changes.OfRoles.{committed, id_of_found, found_by_own_id}
use ara_nes_lms_core.Rbac.Outcomes.Grants.{patch_role-passed, patch_role-last}
use ara_nes_lms_core.Rbac.Outcomes.Deletion.{delete_role-ok}
use ara_nes_lms_core.Rbac.Invariants.Keys.{IsAutoincrement}
use ara_nes_lms_core.Rbac.Effects.Rows.{row-append_other, row-append}
use ara_nes_lms_core.Rbac.Effects.RoleEdits.{
  IsRoleChange, IsRoleWritten, assign-IsRoleChange, assign-IsRoleWritten, edit-IsRoleWritten,
}

module _ (engine : Engine) (t : Tables) where
  create_role-last :
      (name title_key : String) (r : Role)
      → (with_session (create_role engine name title_key) t).0 ≡ ok r
      → (r ≡ added_role engine name title_key t)
        × (committed (with_session (create_role engine name title_key) t)
            ≡ add_role (added_role engine name title_key t) t)
  unfolding create_role commit
  create_role-last name title_key r h = ground arith

  pub create_role-IsRoleWritten :
      IsAutoincrement engine
      → (name title_key : String) (r : Role)
      → (with_session (create_role engine name title_key) t).0 ≡ ok r
      → IsRoleWritten r.id r t (committed (with_session (create_role engine name title_key) t))
  create_role-IsRoleWritten auto name title_key r h =
      let (result, table) = create_role-last name title_key r h in
      let role = added_role engine name title_key t in
      rw (result, table)
        (record {
          change = record {
            others = λ j other. row-append_other (λ q. q.id) j role other t.roles;
            users = refl;
          };
          found = row-append (λ q. q.id) role t.roles (auto.fresh t);
        })

  module _ (i : ℕ) where
    update_role-last :
        (name title_key : Option String) (old r : Role)
        → role_by_id i t ≡ some old
        → is_superadmin_role old ≡ false
        → (with_session (update_role engine i name title_key) t).0 ≡ ok r
        → (r ≡ retitled title_key (renamed name old))
          × (committed (with_session (update_role engine i name title_key) t)
              ≡ retitle_in title_key old (rename_in name old t))
    unfolding update_role commit query
    update_role-last name title_key old r found mutable = rw (found, mutable) (λ h. ground arith)

    pub update_role-IsRoleWritten :
        (name title_key : Option String) (r : Role)
        → (with_session (update_role engine i name title_key) t).0 ≡ ok r
        → IsRoleWritten i r t (committed (with_session (update_role engine i name title_key) t))
    update_role-IsRoleWritten name title_key r = elim (Option-cases (role_by_id i t)) [
      | inl missing ↦ unfold update_role query in rw missing (λ h. absurd (cc))
      | inr (old, found) ↦ elim (Bool-cases (is_superadmin_role old)) [
        | inl immutable ↦ unfold update_role query in rw (found, immutable) (λ h. absurd (cc))
        | inr mutable ↦ λ h.
            let (result, table) = update_role-last name title_key old r found mutable h in
            let same : old.id ≡ i = id_of_found engine t i old found in
            let edited : IsRoleWritten i (retitled title_key (renamed name old)) t
                (retitle_in title_key old (rename_in name old t)) =
              subst
                (λ j.
                  IsRoleWritten j (retitled title_key (renamed name old)) t
                    (retitle_in title_key old (rename_in name old t)))
                same
                (edit-IsRoleWritten name title_key old t (found_by_own_id engine t i old found)) in
            rw (result, table) edited
      ]
    ]

    pub patch_role-IsRoleWritten :
        (patch : Patch) (r : Role)
        → (with_session (patch_role_permissions engine i patch) t).0 ≡ ok r
        → IsRoleWritten i r t (committed (with_session (patch_role_permissions engine i patch) t))
    patch_role-IsRoleWritten patch r h =
        let (m, old, valid, found, mutable) = patch_role-passed engine i patch t r h in
        let (result, table) = patch_role-last engine i patch t m old r valid found mutable h in
        let same : old.id ≡ i = id_of_found engine t i old found in
        let f : Role → Role =
          λ q. record q { permissions = some (merge_permission_patch old.permissions m) } in
        rw (result, table)
          (subst (λ j. IsRoleWritten j (f old) t (assign_role old.id f t)) same
            (assign-IsRoleWritten old.id f (λ q. refl) old t
              (found_by_own_id engine t i old found)))

    pub delete_role-IsRoleChange :
        (with_session (delete_role engine i) t).0 ≡ ok tt
        → IsRoleChange i t (committed (with_session (delete_role engine i) t))
    delete_role-IsRoleChange h =
        let deleted = delete_role-ok engine i t h in
        record { others = deleted.others; users = deleted.users }

  append-last :
      (name : String) (patch : Patch) (incoming : PermissionMap) (role : Role)
      (r : RoleRegistryResult)
      → validated_permission_patch patch ≡ ok incoming
      → role_by_name name t ≡ some role
      → (with_session (create_or_append_role_permissions_no_overwrite engine name patch) t).0 ≡ ok r
      → (r.role_id ≡ role.id)
        × (committed
              (with_session (create_or_append_role_permissions_no_overwrite engine name patch) t)
            ≡ assign_role role.id
                (λ q. record q { permissions = some (update (or_empty role.permissions) incoming) })
                t)
  unfolding create_or_append_role_permissions_no_overwrite commit query
  append-last name patch incoming role r valid found = rw (valid, found) (λ h. ground arith)

  pub append-IsRoleChange :
      (name : String) (patch : Patch) (r : RoleRegistryResult)
      → (with_session (create_or_append_role_permissions_no_overwrite engine name patch) t).0 ≡ ok r
      → IsRoleChange r.role_id t (
          committed
            (with_session (create_or_append_role_permissions_no_overwrite engine name patch) t))
  append-IsRoleChange name patch r = elim (Result-cases (validated_permission_patch patch)) [
    | inr (e, refused) ↦
        unfold create_or_append_role_permissions_no_overwrite in rw refused (λ h. absurd (cc))
    | inl (m, valid) ↦ elim (Option-cases (role_by_name name t)) [
      | inl missing ↦
          unfold create_or_append_role_permissions_no_overwrite query in
          rw (valid, missing) (λ h. absurd (cc))
      | inr (role, found) ↦ λ h.
          let (key, table) = append-last name patch m role r valid found h in
          rw (key, table)
            (assign-IsRoleChange role.id
              (λ q. record q { permissions = some (update (or_empty role.permissions) m) })
              (λ q. refl) t)
    ]
  ]
