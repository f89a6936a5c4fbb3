-- ===== src/Rbac/Changes/OfUsers.antt =====
-- What each user operation of src/user_role/crud.py commits, whatever the database answers.
use ara_nes_lms_core.Base.{
  Result-cases, nat_eq, string_eq, ℕ, suc, ◌⊎◌, String, Option, none, some, ◌≡◌, refl, map, length,
  Option-cases, inl, inr, arith, ok,
}
use ara_nes_lms_core.Permissions.Defaults.{PermissionMap}
use ara_nes_lms_core.Permissions.Patch.{Patch}
use ara_nes_lms_core.Database.{Role, User, Tables, Engine, with_session, commit, query}
use ara_nes_lms_core.Rbac.Rows.{
  role_by_id, user_by_id, add_user, remove_user, assign_user, merge_permission_patch,
  validated_permission_patch,
}
use ara_nes_lms_core.Rbac.Users.{
  added_user, without_permissions, create_user_admin, update_user_admin, set_user_password_admin,
  delete_user_admin, patch_user_permissions, reset_user_permissions,
}
use ara_nes_lms_core.Rbac.Changes.{
  Change, unchanged, user_added, user_renamed, user_moved, password_set, user_granted, user_removed,
  users_reset, rename_user_in, saved, saved-Change,
}
use ara_nes_lms_core.Rbac.Changes.OfRoles.{committed, ℕ-cases, found_by_own_id, id_of_found}

module _ (engine : Engine) (t : Tables) where
  create_user-saved :
      (hash : String → String) (username password : String) (role_id : ℕ) (role : Role)
      → role_by_id role_id t ≡ some role
      → committed (with_session (create_user_admin engine hash username password role_id) t)
        ≡ saved engine t (add_user (added_user engine username (hash password) role_id t) t)
  unfolding create_user_admin commit query
  create_user-saved hash username password role_id role found = rw found (ground arith)

  update_user-saved :
      (user_id : ℕ) (username : Option String) (user : User)
      → user_by_id user_id t ≡ some user
      → committed (with_session (update_user_admin engine user_id username none) t)
        ≡ saved engine t (rename_user_in username user t)
  unfolding update_user_admin commit query
  update_user-saved user_id username user found = rw found (ground arith)

  -- With a role the flush before the query may refuse the new name, and the commit the whole.
  update_user-moved :
      (user_id : ℕ) (username : Option String) (user : User) (role_id : ℕ) (role : Role)
      → user_by_id user_id t ≡ some user
      → role_by_id role_id t ≡ some role
      → (committed (with_session (update_user_admin engine user_id username (some role_id)) t)
          ≡ saved engine t (
              assign_user user.id
                (λ v. record v { role_id = role_id })
                (rename_user_in username user t)))
        ⊎ (committed (with_session (update_user_admin engine user_id username (some role_id)) t)
            ≡ t)
  unfolding update_user_admin commit query
  update_user-moved user_id username user role_id role found target = rw found (ground arith)

  update_user-no_role :
      (user_id : ℕ) (username : Option String) (user : User) (role_id : ℕ)
      → user_by_id user_id t ≡ some user
      → role_by_id role_id t ≡ none
      → committed (with_session (update_user_admin engine user_id username (some role_id)) t) ≡ t
  unfolding update_user_admin commit query
  update_user-no_role user_id username user role_id found missing = rw found (ground arith)

  set_password-saved :
      (hash : String → String) (user_id : ℕ) (password : String) (user : User)
      → user_by_id user_id t ≡ some user
      → committed (with_session (set_user_password_admin engine hash user_id password) t)
        ≡ saved engine t (assign_user user.id (λ v. record v { password = hash password }) t)
  unfolding set_user_password_admin commit query
  set_password-saved hash user_id password user found = rw found (ground arith)

  delete_user-saved :
      (user_id : ℕ) (user : User)
      → user_by_id user_id t ≡ some user
      → committed (with_session (delete_user_admin engine user_id) t)
        ≡ saved engine t (remove_user user.id t)
  unfolding delete_user_admin commit query
  delete_user-saved user_id user found = rw found (ground arith)

  patch_user-saved :
      (user_id : ℕ) (patch : Patch) (m : PermissionMap) (user : User)
      → validated_permission_patch patch ≡ ok m
      → user_by_id user_id t ≡ some user
      → committed (with_session (patch_user_permissions engine user_id patch) t)
        ≡ saved engine t (
            assign_user user.id
              (λ v. record v { permissions = some (merge_permission_patch user.permissions m) })
              t)
  unfolding patch_user_permissions commit query
  patch_user-saved user_id patch m user valid found = rw (valid, found) (ground arith)

  reset_users-saved :
      (n : ℕ)
      → length t.users ≡ suc n
      → committed (with_session (reset_user_permissions engine) t)
        ≡ saved engine t (record t { users = map without_permissions t.users })
  unfolding reset_user_permissions commit query
  reset_users-saved n some_left = rw some_left (ground arith)

  pub create_user-Change :
      (hash : String → String) (username password : String) (role_id : ℕ)
      → Change engine t
          (committed (with_session (create_user_admin engine hash username password role_id) t))
  create_user-Change hash username password role_id = elim (Option-cases (role_by_id role_id t)) [
    | inl missing ↦ unfold create_user_admin query in rw missing (unchanged refl)
    | inr (role, found) ↦ rw (create_user-saved hash username password role_id role found) (
        saved-Change engine t _ (
          user_added role username (hash password) (found_by_own_id engine t role_id role found)
            (simp (id_of_found engine t role_id role found))))
  ]

  pub update_user-Change :
      (user_id : ℕ) (username : Option String) (role_id : Option ℕ)
      → Change engine t
          (committed (with_session (update_user_admin engine user_id username role_id) t))
  update_user-Change user_id username none = elim (Option-cases (user_by_id user_id t)) [
    | inl missing ↦ unfold update_user_admin query in rw missing (unchanged refl)
    | inr (user, found) ↦
        rw (update_user-saved user_id username user found)
          (saved-Change engine t _ (user_renamed user username refl))
  ]
  update_user-Change user_id username (some role_id) = elim (Option-cases (user_by_id user_id t)) [
    | inl missing ↦ unfold update_user_admin query in rw missing (unchanged refl)
    | inr (user, found) ↦ elim (Option-cases (role_by_id role_id t)) [
      | inl missing ↦ unchanged (update_user-no_role user_id username user role_id found missing)
      | inr (role, target) ↦
          elim (update_user-moved user_id username user role_id role found target) [
            | inl moved ↦ rw moved (
                saved-Change engine t _ (
                  user_moved user username role (found_by_own_id engine t role_id role target)
                    (simp (id_of_found engine t role_id role target))))
            | inr refused ↦ unchanged refused
          ]
    ]
  ]

  pub set_password-Change :
      (hash : String → String) (user_id : ℕ) (password : String)
      → Change engine t
          (committed (with_session (set_user_password_admin engine hash user_id password) t))
  set_password-Change hash user_id password = elim (Option-cases (user_by_id user_id t)) [
    | inl missing ↦ unfold set_user_password_admin query in rw missing (unchanged refl)
    | inr (user, found) ↦
        rw (set_password-saved hash user_id password user found)
          (saved-Change engine t _ (password_set user.id (hash password) refl))
  ]

  pub delete_user-Change :
      (user_id : ℕ)
      → Change engine t (committed (with_session (delete_user_admin engine user_id) t))
  delete_user-Change user_id = elim (Option-cases (user_by_id user_id t)) [
    | inl missing ↦ unfold delete_user_admin query in rw missing (unchanged refl)
    | inr (user, found) ↦
        rw (delete_user-saved user_id user found)
          (saved-Change engine t _ (user_removed user.id refl))
  ]

  pub patch_user-Change :
      (user_id : ℕ) (patch : Patch)
      → Change engine t (committed (with_session (patch_user_permissions engine user_id patch) t))
  patch_user-Change user_id patch = elim (Result-cases (validated_permission_patch patch)) [
    | inr (e, refused) ↦ unfold patch_user_permissions in rw refused (unchanged refl)
    | inl (m, valid) ↦ elim (Option-cases (user_by_id user_id t)) [
      | inl missing ↦ unfold patch_user_permissions query in rw (valid, missing) (unchanged refl)
      | inr (user, found) ↦
          rw (patch_user-saved user_id patch m user valid found)
            (saved-Change engine t _ (user_granted user.id _ refl))
    ]
  ]

  pub reset_users-Change :
      Change engine t (committed (with_session (reset_user_permissions engine) t))
  reset_users-Change = elim (ℕ-cases (length t.users)) [
    | inl nothing ↦ unfold reset_user_permissions query in rw nothing (unchanged refl)
    | inr (n, some_left) ↦
        rw (reset_users-saved n some_left) (saved-Change engine t _ (users_reset refl))
  ]
