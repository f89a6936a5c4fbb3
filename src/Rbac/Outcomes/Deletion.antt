-- ===== src/Rbac/Outcomes/Deletion.antt =====
-- `delete_role`.
use mathlib.Core.Path.{subst}
use ara_nes_lms_core.Base.{
  ap, ◌∙◌, nat_eq, string_eq, ℕ, suc, false, not, none, some, List, [], ◌∷◌, ◌≡◌, ◌≢◌, refl, sym,
  arith, filter, find, Option-cases, Bool-cases, inl, inr, ok, raise, Result, ◌==◌,
}
use ara_nes_lms_core.Errors.{Error, role_in_use}
use ara_nes_lms_core.Database.{Role, Tables, Engine, with_session, commit, query}
use ara_nes_lms_core.Rbac.Rows.{remove_role, role_by_id, count_users_of, is_superadmin_role}
use ara_nes_lms_core.Rbac.Roles.{delete_role}
use ara_nes_lms_core.Rbac.Changes.OfRoles.{id_of_found, ℕ-cases}

-- What a successful deletion from `t` has done: only the role is gone.
pub record IsDeleted (i : ℕ) (t u : Tables) : Type 0 where
  pub gone : role_by_id i u ≡ none
  pub others : (j : ℕ) → j ≢ i → role_by_id j u ≡ role_by_id j t
  pub users : u.users ≡ t.users
  pub unused : count_users_of i t ≡ 0

find-removed :
    (i : ℕ) (rs : List Role) → find (λ r. r.id == i) (filter (λ r. not (r.id == i)) rs) ≡ none
find-removed i [] = refl
find-removed i (r ∷ rs) = ground (arith, find-removed i rs)

find-kept :
    (i j : ℕ)
    → j ≢ i
    → (rs : List Role)
    → find (λ r. r.id == j) (filter (λ r. not (r.id == i)) rs) ≡ find (λ r. r.id == j) rs
find-kept i j other [] = refl
find-kept i j other (r ∷ rs) = ground (arith, find-kept i j other rs)

raise-ne-ok : {A : Type 0} {e : Error} {a : A} → ◌≡◌ {A = Result Error A} (raise e) (ok a) → ⊥
raise-ne-ok h = cc

module _ (engine : Engine) (i : ℕ) (t : Tables) where
  delete_role-last :
      (role : Role)
      → role_by_id i t ≡ some role
      → is_superadmin_role role ≡ false
      → count_users_of i t ≡ 0
      → (with_session (delete_role engine i) t).0 ≡ ok tt
      → (with_session (delete_role engine i) t).1 ≡ remove_role role.id t
  unfolding delete_role commit query
  delete_role-last role found mutable free = rw (found, mutable, free) (λ h. ground arith)

  -- A role that users have is not deleted: the error counts exactly those users, if the role is
  -- there and is no superadmin role.
  pub delete_role_used :
      (role : Role) (n : ℕ)
      → role_by_id i t ≡ some role
      → is_superadmin_role role ≡ false
      → count_users_of i t ≡ suc n
      → with_session (delete_role engine i) t ≡ (raise (role_in_use (suc n)), t)
  unfolding delete_role commit query
  delete_role_used role n found mutable used = rw (found, mutable, used) (ground arith)

  -- A deletion that returns has found a role, no superadmin role, that no user had.
  delete_role-passed :
      (with_session (delete_role engine i) t).0 ≡ ok tt
      → (role : Role) × (role_by_id i t ≡ some role)
        × (count_users_of i t ≡ 0)
        × ((with_session (delete_role engine i) t).1 ≡ remove_role role.id t)
  delete_role-passed = elim (Option-cases (role_by_id i t)) [
    | inl missing ↦ unfold delete_role query in rw missing (λ h. absurd (cc))
    | inr (role, found) ↦ elim (Bool-cases (is_superadmin_role role)) [
      | inl immutable ↦ unfold delete_role query in rw (found, immutable) (λ h. absurd (cc))
      | inr mutable ↦ elim (ℕ-cases (count_users_of i t)) [
        | inl free ↦ λ h. (role, found, free, delete_role-last role found mutable free h)
        | inr (n, used) ↦ λ h.
            absurd
              (raise-ne-ok (sym (ap (λ r. r.0) (delete_role_used role n found mutable used)) ∙ h))
      ]
    ]
  ]

  -- If `delete_role` returns, the role is gone, all other roles and all users are as they were,
  -- and no user had the role.
  pub delete_role-ok :
      (with_session (delete_role engine i) t).0 ≡ ok tt
      → IsDeleted i t (with_session (delete_role engine i) t).1
  delete_role-ok h =
      let (role, found, free, e) = delete_role-passed h in
      let e' : (with_session (delete_role engine i) t).1 ≡ remove_role i t =
        e ∙ ap (λ j. remove_role j t) (id_of_found engine t i role found) in
      subst (IsDeleted i t) (sym e') (record {
        gone = find-removed i t.roles;
        others = λ j other. find-kept i j other t.roles;
        users = refl;
        unused = free;
      })
