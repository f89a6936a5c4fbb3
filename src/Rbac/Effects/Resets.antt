-- ===== src/Rbac/Effects/Resets.antt =====
-- `reset_role_permissions` and `reset_user_permissions` of src/user_role/crud.py, when they return.
use ara_nes_lms_core.Base.{
  nat_eq, string_eq, ℕ, false, not, ◌&&◌, ◌||◌, List, [], ◌∷◌, map, filter, find, any, ◌==◌, ◌≡◌,
  refl, ◌∙◌, arith,
}
use ara_nes_lms_core.Database.{Role, User}
use ara_nes_lms_core.Rbac.Rows.{
  is_superadmin_role, insert_role, sort_roles, insert_user, sort_users,
}
use ara_nes_lms_core.Rbac.Roles.{reset_if_resettable}
use ara_nes_lms_core.Rbac.Users.{without_permissions}

-- The keys that the endpoint of the reset collects.
abbrev pub keys_to_reset : List Role → List ℕ
keys_to_reset roles = map (λ r. r.id) (filter (λ r. not (is_superadmin_role r)) roles)

keys-insert :
    (j : ℕ) (r : Role) (rs : List Role)
    → any (λ i. i == j) (keys_to_reset (insert_role r rs))
      ≡ ((not (is_superadmin_role r) && r.id == j) || any (λ i. i == j) (keys_to_reset rs))
unfolding insert_role
keys-insert j r [] = ground arith
keys-insert j r (q ∷ rs) = ground (arith, keys-insert j r rs)

pub keys-sort :
    (j : ℕ) (rs : List Role)
    → any (λ i. i == j) (keys_to_reset (sort_roles rs))
      ≡ any (λ r. not (is_superadmin_role r) && r.id == j) rs
unfolding sort_roles
keys-sort j [] = refl
keys-sort j (r ∷ rs) = keys-insert j r (sort_roles rs) ∙ rw (keys-sort j rs) refl

pub reset_same :
    (j : ℕ) (rs : List Role)
    → any (λ r. not (is_superadmin_role r) && r.id == j) rs ≡ false
    → find (λ r. r.id == j) (map reset_if_resettable rs) ≡ find (λ r. r.id == j) rs
reset_same j [] h = refl
reset_same j (r ∷ rs) h = ground (arith, reset_same j rs)

user_keys-insert :
    (j : ℕ) (u : User) (us : List User)
    → any (λ i. i == j) (map (λ v. v.id) (insert_user u us))
      ≡ (u.id == j || any (λ i. i == j) (map (λ v. v.id) us))
unfolding insert_user
user_keys-insert j u [] = ground arith
user_keys-insert j u (v ∷ us) = ground (arith, user_keys-insert j u us)

pub user_keys-sort :
    (j : ℕ) (us : List User)
    → any (λ i. i == j) (map (λ v. v.id) (sort_users us)) ≡ any (λ u. u.id == j) us
unfolding sort_users
user_keys-sort j [] = refl
user_keys-sort j (u ∷ us) = user_keys-insert j u (sort_users us) ∙ rw (user_keys-sort j us) refl

pub reset_same_user :
    (j : ℕ) (us : List User)
    → any (λ u. u.id == j) us ≡ false
    → find (λ u. u.id == j) (map without_permissions us) ≡ find (λ u. u.id == j) us
reset_same_user j [] h = refl
reset_same_user j (u ∷ us) h = ground (arith, reset_same_user j us)
