-- ===== src/Rbac/Effects/OfUsers.antt =====
-- The user operations of src/user_role/crud.py, when they return.
use mathlib.Core.Path.{subst}
use ara_nes_lms_core.Base.{
  nat_eq, string_eq, ℕ, String, Option, none, some, find_sound, nat_beq_iff, ◌==◌, ◌≡◌, refl, arith,
  Option-cases, Bool-cases, Result-cases, inl, inr, ok,
}
use ara_nes_lms_core.Permissions.Defaults.{PermissionMap}
use ara_nes_lms_core.Permissions.Patch.{Patch}
use ara_nes_lms_core.Database.{User, Role, Tables, Engine, with_session, commit, query}
use ara_nes_lms_core.Rbac.Rows.{
  role_by_id, user_by_id, assign_user, add_user, remove_user, merge_permission_patch,
  validated_permission_patch,
}
use ara_nes_lms_core.Rbac.Users.{
  create_user_admin, update_user_admin, set_user_password_admin, delete_user_admin,
  patch_user_permissions, added_user, with_username, with_role,
}
use ara_nes_lms_core.Rbac.Changes.{rename_user_in}
use ara_nes_lms_core.Rbac.Changes.OfRoles.{committed}
use ara_nes_lms_core.Rbac.Effects.Rows.{row-append_other, row-append, row-remove_other}
use ara_nes_lms_core.Rbac.Effects.UserEdits.{
  IsUserChange, IsUserWritten, IsPasswordChange, assign-IsUserChange, assign-IsUserWritten,
  edit-IsUserWritten, move_in,
}

-- A new primary key of a user is not in use: what an autoincrement column promises.
pub record IsUserAutoincrement (engine : Engine) : Type 0 where
  pub fresh : (t : Tables) → user_by_id (engine.next_user_id t) t ≡ none

module _ (engine : Engine) (t : Tables) where
  create_user-last :
      (hash : String → String) (username password : String) (role_id : ℕ) (role : Role) (r : User)
      → role_by_id role_id t ≡ some role
      → (with_session (create_user_admin engine hash username password role_id) t).0 ≡ ok r
      → (r ≡ added_user engine username (hash password) role_id t)
        × (committed (with_session (create_user_admin engine hash username password role_id) t)
            ≡ add_user (added_user engine username (hash password) role_id t) t)
  unfolding create_user_admin commit query
  create_user-last hash username password role_id role r found = rw found (λ h. ground arith)

  pub create_user-IsUserWritten :
      IsUserAutoincrement engine
      → (hash : String → String) (username password : String) (role_id : ℕ) (r : User)
      → (with_session (create_user_admin engine hash username password role_id) t).0 ≡ ok r
      → IsUserWritten r.id r t
          (committed (with_session (create_user_admin engine hash username password role_id) t))
  create_user-IsUserWritten auto hash username password role_id r =
      elim (Option-cases (role_by_id role_id t)) [
        | inl missing ↦ unfold create_user_admin query in rw missing (λ h. absurd (cc))
        | inr (role, found) ↦ λ h.
            let (result, table) = create_user-last hash username password role_id role r found h in
            let user = added_user engine username (hash password) role_id t in
            rw (result, table)
              (record {
                change = record {
                  others = λ j other. row-append_other (λ q. q.id) j user other t.users;
                  roles = refl;
                };
                found = row-append (λ q. q.id) user t.users (auto.fresh t);
              })
      ]

  module _ (i : ℕ) where
    id_of_user : (user : User) → user_by_id i t ≡ some user → user.id ≡ i
    id_of_user user found = (nat_beq_iff _ _).0 (find_sound _ t.users user found)

    own_id : (user : User) → user_by_id i t ≡ some user → user_by_id user.id t ≡ some user
    own_id user found = simp (id_of_user user found) found

    update_user-last :
        (username : Option String) (role_id : Option ℕ) (old r : User)
        → user_by_id i t ≡ some old
        → (with_session (update_user_admin engine i username role_id) t).0 ≡ ok r
        → (r ≡ with_role role_id (with_username username old))
          × (committed (with_session (update_user_admin engine i username role_id) t)
              ≡ move_in role_id old (rename_user_in username old t))
    unfolding update_user_admin commit query
    update_user-last username none old r found = rw found (λ h. ground arith)
    update_user-last none (some role_id) old r found = elim (Option-cases (role_by_id role_id t)) [
      | inl missing ↦ rw (found, missing) (λ h. absurd (cc))
      | inr (role, target) ↦ rw (found, target) (λ h. ground arith)
    ]
    update_user-last (some username) (some role_id) old r found =
        elim (Bool-cases (username == old.username)) [
          | inl same ↦ elim (Option-cases (role_by_id role_id t)) [
            | inl missing ↦ rw (found, same, missing) (λ h. absurd (cc))
            | inr (role, target) ↦ rw (found, same, target) (λ h. ground arith)
          ]
          | inr other ↦
              elim (Option-cases
                (engine.violation (assign_user old.id (λ u. record u { username = username }) t))) [
                  | inr (message, refused) ↦ rw (found, other, refused) (λ h. ground arith)
                  | inl accepted ↦ elim (Option-cases (role_by_id role_id t)) [
                    | inl missing ↦ rw (found, other, accepted, missing) (λ h. absurd (cc))
                    | inr (role, target) ↦ rw (found, other, accepted, target) (λ h. ground arith)
                  ]
                ]
        ]

    pub update_user-IsUserWritten :
        (username : Option String) (role_id : Option ℕ) (r : User)
        → (with_session (update_user_admin engine i username role_id) t).0 ≡ ok r
        → IsUserWritten i r t
            (committed (with_session (update_user_admin engine i username role_id) t))
    update_user-IsUserWritten username role_id r = elim (Option-cases (user_by_id i t)) [
      | inl missing ↦ unfold update_user_admin query in rw missing (λ h. absurd (cc))
      | inr (old, found) ↦ λ h.
          let (result, table) = update_user-last username role_id old r found h in
          let edited : IsUserWritten i (with_role role_id (with_username username old)) t
              (move_in role_id old (rename_user_in username old t)) =
            subst
              (λ j.
                IsUserWritten j (with_role role_id (with_username username old)) t
                  (move_in role_id old (rename_user_in username old t)))
              (id_of_user old found)
              (edit-IsUserWritten username role_id old t (own_id old found)) in
          rw (result, table) edited
    ]

    password-last :
        (hash : String → String) (password : String) (old r : User)
        → user_by_id i t ≡ some old
        → (with_session (set_user_password_admin engine hash i password) t).0 ≡ ok r
        → committed (with_session (set_user_password_admin engine hash i password) t)
          ≡ assign_user old.id (λ u. record u { password = hash password }) t
    unfolding set_user_password_admin commit query
    password-last hash password old r found = rw found (λ h. ground arith)

    pub set_password-IsPasswordChange :
        (hash : String → String) (password : String) (r : User)
        → (with_session (set_user_password_admin engine hash i password) t).0 ≡ ok r
        → IsPasswordChange i
            (hash password)
            t
            (committed (with_session (set_user_password_admin engine hash i password) t))
    set_password-IsPasswordChange hash password r = elim (Option-cases (user_by_id i t)) [
      | inl missing ↦ unfold set_user_password_admin query in rw missing (λ h. absurd (cc))
      | inr (old, found) ↦ λ h.
          let f : User → User = λ u. record u { password = hash password } in
          rw (password-last hash password old r found h) (record {
            change =
                subst (λ j. IsUserChange j t (assign_user old.id f t)) (id_of_user old found)
                  (assign-IsUserChange old.id f (λ u. refl) t);
            key = old.id;
            users = refl;
          })
    ]

    delete-last :
        (old : User)
        → user_by_id i t ≡ some old
        → (with_session (delete_user_admin engine i) t).0 ≡ ok tt
        → committed (with_session (delete_user_admin engine i) t) ≡ remove_user old.id t
    unfolding delete_user_admin commit query
    delete-last old found = rw found (λ h. ground arith)

    pub delete_user-IsUserChange :
        (with_session (delete_user_admin engine i) t).0 ≡ ok tt
        → IsUserChange i t (committed (with_session (delete_user_admin engine i) t))
    delete_user-IsUserChange = elim (Option-cases (user_by_id i t)) [
      | inl missing ↦ unfold delete_user_admin query in rw missing (λ h. absurd (cc))
      | inr (old, found) ↦ λ h. rw (delete-last old found h) (
          subst (λ j. IsUserChange j t (remove_user old.id t)) (id_of_user old found)
            (record {
              others = λ j other. row-remove_other (λ u. u.id) old.id j other t.users;
              roles = refl;
            }))
    ]

    patch-last :
        (patch : Patch) (m : PermissionMap) (old r : User)
        → validated_permission_patch patch ≡ ok m
        → user_by_id i t ≡ some old
        → (with_session (patch_user_permissions engine i patch) t).0 ≡ ok r
        → (r ≡ record old { permissions = some (merge_permission_patch old.permissions m) })
          × (committed (with_session (patch_user_permissions engine i patch) t)
              ≡ assign_user old.id
                  (λ q. record q { permissions = some (merge_permission_patch old.permissions m) })
                  t)
    unfolding patch_user_permissions commit query
    patch-last patch m old r valid found = rw (valid, found) (λ h. ground arith)

    pub patch_user-IsUserWritten :
        (patch : Patch) (r : User)
        → (with_session (patch_user_permissions engine i patch) t).0 ≡ ok r
        → IsUserWritten i r t (committed (with_session (patch_user_permissions engine i patch) t))
    patch_user-IsUserWritten patch r = elim (Result-cases (validated_permission_patch patch)) [
      | inr (e, refused) ↦ unfold patch_user_permissions in rw refused (λ h. absurd (cc))
      | inl (m, valid) ↦ elim (Option-cases (user_by_id i t)) [
        | inl missing ↦
            unfold patch_user_permissions query in rw (valid, missing) (λ h. absurd (cc))
        | inr (old, found) ↦ λ h.
            let (result, table) = patch-last patch m old r valid found h in
            let f : User → User =
              λ q. record q { permissions = some (merge_permission_patch old.permissions m) } in
            rw (result, table)
              (subst (λ j. IsUserWritten j (f old) t (assign_user old.id f t))
                (id_of_user old found)
                (assign-IsUserWritten old.id f (λ q. refl) old t (own_id old found)))
      ]
    ]
