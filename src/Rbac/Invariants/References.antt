-- ===== src/Rbac/Invariants/References.antt =====
-- The references of users to roles.
use mathlib.Core.Path.{subst}
use ara_nes_lms_core.Base.{
  nat_eq, string_eq, ℕ, String, Bool, true, false, not, Option, none, some, [], ◌∷◌, ◌≡◌, refl, map,
  ◌==◌, arith, All, any, filter, any-map, any-append, any-filter, any_of_find, none_of_filter,
  All-map, All-map_of, All-zip, All-append, All-filter, Bool-cases, inl, inr, sym, ◌∙◌,
}
use ara_nes_lms_core.Database.{Role, User, Tables, Engine}
use ara_nes_lms_core.Rbac.Rows.{assign_user, count_users_of}
use ara_nes_lms_core.Rbac.Roles.{reset_if_resettable, added_role}
use ara_nes_lms_core.Rbac.Users.{without_permissions}
use ara_nes_lms_core.Rbac.Invariants.Keys.{roles-rename_user}
use ara_nes_lms_core.Rbac.Changes.{
  Change, unchanged, role_added, role_edited, role_removed, role_granted, roles_reset,
  role_extended, user_added, user_renamed, user_moved, password_set, user_granted, user_removed,
  users_reset, rename_in, retitle_in, rename_user_in,
}

abbrev pub is_role_id : Tables → ℕ → Bool
is_role_id t i = any (λ r. r.id == i) t.roles

abbrev pub IsReferenced : Tables → Type 0
IsReferenced t = All (λ u. is_role_id t u.role_id ≡ true) t.users

-- The same users, and every role that there was.
keep_roles :
    (t u : Tables)
    → u.users ≡ t.users
    → ((i : ℕ) → is_role_id t i ≡ true → is_role_id u i ≡ true)
    → IsReferenced t
    → IsReferenced u
keep_roles t u users keeps h = rw users (
    All-map_of (λ v. is_role_id t v.role_id ≡ true) (λ v. is_role_id u v.role_id ≡ true) t.users
      (λ v. keeps v.role_id) h)

is_role_id-map :
    (g : Role → Role)
    → ((r : Role) → (g r).id ≡ r.id)
    → (t : Tables) (i : ℕ) → any (λ r. r.id == i) (map g t.roles) ≡ is_role_id t i
is_role_id-map g keeps t i = any-map (λ r. r.id == i) g (λ r. rw (keeps r)) t.roles

map_roles :
    (g : Role → Role)
    → ((r : Role) → (g r).id ≡ r.id)
    → (t : Tables) → IsReferenced t
    → IsReferenced (record t { roles = map g t.roles })
map_roles g keeps t =
    keep_roles t (record t { roles = map g t.roles }) refl
      (λ i known. is_role_id-map g keeps t i ∙ known)

rename_role :
    (name : Option String) (role : Role) (t : Tables)
    → IsReferenced t
    → IsReferenced (rename_in name role t)
rename_role none role t h = h
rename_role (some name) role t h = elim (Bool-cases (name == role.name)) [
  | inl same ↦ rw same h
  | inr other ↦ rw other (map_roles _ (λ r. ground arith) t h)
]

retitle_role :
    (title : Option String) (role : Role) (t : Tables)
    → IsReferenced t
    → IsReferenced (retitle_in title role t)
retitle_role none role t h = h
retitle_role (some title) role t h = map_roles _ (λ r. ground arith) t h

-- The users mapped by a function after which each still refers to a role.
map_users :
    (g : User → User) (t : Tables)
    → ((v : User) → is_role_id t v.role_id ≡ true → is_role_id t (g v).role_id ≡ true)
    → IsReferenced t
    → IsReferenced (record t { users = map g t.users })
map_users g t keeps h =
    All-map (λ v. is_role_id t v.role_id ≡ true) g t.users
      (All-map_of (λ v. is_role_id t v.role_id ≡ true) (λ v. is_role_id t (g v).role_id ≡ true)
        t.users keeps h)

rename_user :
    (username : Option String) (user : User) (t : Tables)
    → IsReferenced t
    → IsReferenced (rename_user_in username user t)
rename_user none user t h = h
rename_user (some username) user t h = elim (Bool-cases (username == user.username)) [
  | inl same ↦ rw same h
  | inr other ↦ rw other (map_users _ t (λ v known. ground arith) h)
]

remove_role-References :
    (t : Tables) (role : Role)
    → count_users_of role.id t ≡ 0
    → IsReferenced t
    → IsReferenced (record t { roles = filter (λ r. not (r.id == role.id)) t.roles })
remove_role-References t role free h =
    All-map_of (λ v. (is_role_id t v.role_id ≡ true) × ((v.role_id == role.id) ≡ false))
      (λ v. any (λ r. r.id == v.role_id) (filter (λ r. not (r.id == role.id)) t.roles) ≡ true)
      t.users
      (λ v both.
        any-filter (λ r. r.id == v.role_id) (λ r. not (r.id == role.id)) t.roles
          (λ r same. ground (arith, both.1))
        ∙ both.0)
      (All-zip _ _ t.users h (none_of_filter (λ v. v.role_id == role.id) t.users free))

move_user :
    (t : Tables) (user : User) (username : Option String) (role : Role)
    → is_role_id t role.id ≡ true
    → IsReferenced t
    → IsReferenced
        (assign_user user.id (λ v. record v { role_id = role.id }) (rename_user_in username user t))
move_user t user username role known h =
    let t' = rename_user_in username user t in
    let known' : is_role_id t' role.id ≡ true = rw (roles-rename_user username user t) known in
    map_users _ t' (λ v old. ground (arith, known')) (rename_user username user t h)

-- Every change keeps the references: `delete_role` by its count of users, the user operations by
-- their query for the role, whatever foreign keys the database enforces.
pub Change-IsReferenced :
    (engine : Engine) (t u : Tables) → Change engine t u → IsReferenced t → IsReferenced u
Change-IsReferenced engine t u (unchanged e) h = subst IsReferenced (sym e) h
Change-IsReferenced engine t u (role_added name title_key e) h = subst IsReferenced (sym e) (
    keep_roles t _ refl
      (λ i known.
        any-append (λ r. r.id == i) t.roles (added_role engine name title_key t ∷ []) ∙ rw known)
      h)
Change-IsReferenced engine t u (role_edited role name title_key _ e) h =
    subst IsReferenced (sym e)
      (retitle_role title_key role (rename_in name role t) (rename_role name role t h))
Change-IsReferenced engine t u (role_removed role _ free e) h =
    subst IsReferenced (sym e) (remove_role-References t role free h)
Change-IsReferenced engine t u (role_granted role permissions _ e) h =
    subst IsReferenced (sym e) (map_roles _ (λ r. ground arith) t h)
Change-IsReferenced engine t u (roles_reset e) h =
    subst IsReferenced (sym e) (map_roles reset_if_resettable (λ r. ground arith) t h)
Change-IsReferenced engine t u (role_extended role incoming _ _ e) h =
    subst IsReferenced (sym e) (map_roles _ (λ r. ground arith) t h)
Change-IsReferenced engine t u (user_added role username password found e) h =
    subst IsReferenced (sym e) (
      All-append (λ v. is_role_id t v.role_id ≡ true) t.users _ h
        (any_of_find (λ r. r.id == role.id) t.roles role found, tt))
Change-IsReferenced engine t u (user_renamed user username e) h =
    subst IsReferenced (sym e) (rename_user username user t h)
Change-IsReferenced engine t u (user_moved user username role found e) h =
    subst IsReferenced (sym e)
      (move_user t user username role (any_of_find (λ r. r.id == role.id) t.roles role found) h)
Change-IsReferenced engine t u (password_set i password e) h =
    subst IsReferenced (sym e) (map_users _ t (λ v known. ground arith) h)
Change-IsReferenced engine t u (user_granted i permissions e) h =
    subst IsReferenced (sym e) (map_users _ t (λ v known. ground arith) h)
Change-IsReferenced engine t u (user_removed i e) h = subst IsReferenced (sym e) (
    All-map_of _ _ _ (λ v both. both.0)
      (All-filter (λ v. is_role_id t v.role_id ≡ true) _ t.users h))
Change-IsReferenced engine t u (users_reset e) h =
    subst IsReferenced (sym e) (map_users without_permissions t (λ v known. known) h)
