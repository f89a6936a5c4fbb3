-- ===== src/Rbac/Invariants/Keys.antt =====
-- The primary keys of roles.
use mathlib.Core.Path.{subst}
use ara_nes_lms_core.Base.{
  nat_eq, string_eq, ℕ, String, Bool, true, not, Option, none, some, List, [], ◌∷◌, ◌++◌, ◌≡◌, refl,
  map, ◌==◌, if◌then◌else◌, arith, All, find, filter, find-map, find-append, find-append_left,
  find-filter, All-map, All-map_of, All-append, All-filter, ==_refl, Bool-cases, inl, inr, sym, ◌∙◌,
}
use ara_nes_lms_core.Database.{Role, User, Tables, Engine}
use ara_nes_lms_core.Rbac.Rows.{role_by_id, assign_role}
use ara_nes_lms_core.Rbac.Roles.{added_role, reset_if_resettable}
use ara_nes_lms_core.Rbac.Changes.{
  Change, unchanged, role_added, role_edited, role_removed, role_granted, roles_reset,
  role_extended, user_added, user_renamed, user_moved, password_set, user_granted, user_removed,
  users_reset, rename_in, retitle_in, rename_user_in,
}

-- Each row is what its key finds.
abbrev pub IsKeyed : Tables → Type 0
IsKeyed t = All (λ r. role_by_id r.id t ≡ some r) t.roles

-- A new primary key is not in use: what an autoincrement column promises.
pub record IsAutoincrement (engine : Engine) : Type 0 where
  pub fresh : (t : Tables) → role_by_id (engine.next_role_id t) t ≡ none

-- What `role_by_id` finds after every row was mapped by a function that keeps the key.
pub find_role-map :
    (g : Role → Role)
    → ((r : Role) → (g r).id ≡ r.id)
    → (i : ℕ) (rs : List Role)
    → find (λ r. r.id == i) (map g rs)
      ≡ (elim (find (λ r. r.id == i) rs) [ some r ↦ some (g r) | none ↦ none ])
find_role-map g keeps i rs = find-map (λ r. r.id == i) g (λ r. rw (keeps r)) rs

map-IsKeyed :
    (g : Role → Role)
    → ((r : Role) → (g r).id ≡ r.id)
    → (t : Tables) → IsKeyed t
    → IsKeyed (record t { roles = map g t.roles })
map-IsKeyed g keeps t h =
    All-map (λ r. find (λ q. q.id == r.id) (map g t.roles) ≡ some r) g t.roles
      (All-map_of (λ r. role_by_id r.id t ≡ some r)
        (λ r. find (λ q. q.id == (g r).id) (map g t.roles) ≡ some (g r)) t.roles
        (λ r found. simp (keeps r) (find_role-map g keeps r.id t.roles ∙ rw found)) h)

assign-IsKeyed :
    (i : ℕ) (f : Role → Role)
    → ((r : Role) → (f r).id ≡ r.id)
    → (t : Tables) → IsKeyed t
    → IsKeyed (assign_role i f t)
assign-IsKeyed i f keeps t h =
    map-IsKeyed (λ r. if r.id == i then f r else r) (λ r. ground (arith, keeps r)) t h

rename-IsKeyed :
    (name : Option String) (role : Role) (t : Tables) → IsKeyed t → IsKeyed (rename_in name role t)
rename-IsKeyed none role t h = h
rename-IsKeyed (some name) role t h = elim (Bool-cases (name == role.name)) [
  | inl same ↦ rw same h
  | inr other ↦ rw other (assign-IsKeyed role.id (λ r. record r { name = name }) (λ r. refl) t h)
]

retitle-IsKeyed :
    (title : Option String) (role : Role) (t : Tables)
    → IsKeyed t
    → IsKeyed (retitle_in title role t)
retitle-IsKeyed none role t h = h
retitle-IsKeyed (some title) role t h =
    assign-IsKeyed role.id (λ r. record r { title_key = title }) (λ r. refl) t h

-- A new row under an unused key.
add-IsKeyed :
    (t : Tables) (role : Role)
    → role_by_id role.id t ≡ none
    → IsKeyed t
    → IsKeyed (record t { roles = t.roles ++ role ∷ [] })
add-IsKeyed t role fresh h =
    All-append (λ r. find (λ q. q.id == r.id) (t.roles ++ role ∷ []) ≡ some r) t.roles (role ∷ [])
      (All-map_of (λ r. role_by_id r.id t ≡ some r)
        (λ r. find (λ q. q.id == r.id) (t.roles ++ role ∷ []) ≡ some r) t.roles
        (λ r found. find-append_left (λ q. q.id == r.id) t.roles (role ∷ []) r found) h)
      (find-append (λ q. q.id == role.id) t.roles (role ∷ []) ∙ rw (fresh, ==_refl role.id), tt)

filter-IsKeyed :
    (t : Tables) (q : Role → Bool) → IsKeyed t → IsKeyed (record t { roles = filter q t.roles })
filter-IsKeyed t q h =
    All-map_of (λ r. (role_by_id r.id t ≡ some r) × (q r ≡ true))
      (λ r. find (λ p. p.id == r.id) (filter q t.roles) ≡ some r) (filter q t.roles)
      (λ r both. find-filter (λ p. p.id == r.id) q t.roles r both.0 both.1)
      (All-filter (λ r. role_by_id r.id t ≡ some r) q t.roles h)

-- A user's new name leaves the roles alone.
pub roles-rename_user :
    (username : Option String) (user : User) (t : Tables)
    → (rename_user_in username user t).roles ≡ t.roles
roles-rename_user none user t = refl
roles-rename_user (some username) user t = ground arith

rename_user-IsKeyed :
    (username : Option String) (user : User) (t : Tables)
    → IsKeyed t
    → All
        (λ r. find (λ q. q.id == r.id) (rename_user_in username user t).roles ≡ some r)
        (rename_user_in username user t).roles
rename_user-IsKeyed username user t h = simp (roles-rename_user username user t) h

-- With an autoincrement column, every change keeps the keys of roles distinct.
pub Change-IsKeyed :
    (engine : Engine)
    → IsAutoincrement engine
    → (t u : Tables) → Change engine t u
    → IsKeyed t
    → IsKeyed u
Change-IsKeyed engine auto t u (unchanged e) h = subst IsKeyed (sym e) h
Change-IsKeyed engine auto t u (role_added name title_key e) h =
    subst IsKeyed (sym e) (add-IsKeyed t (added_role engine name title_key t) (auto.fresh t) h)
Change-IsKeyed engine auto t u (role_edited role name title_key _ e) h =
    subst IsKeyed (sym e)
      (retitle-IsKeyed title_key role (rename_in name role t) (rename-IsKeyed name role t h))
Change-IsKeyed engine auto t u (role_removed role _ _ e) h =
    subst IsKeyed (sym e) (filter-IsKeyed t (λ r. not (r.id == role.id)) h)
Change-IsKeyed engine auto t u (role_granted role permissions _ e) h =
    subst IsKeyed (sym e)
      (assign-IsKeyed role.id (λ r. record r { permissions = some permissions }) (λ r. refl) t h)
Change-IsKeyed engine auto t u (roles_reset e) h =
    subst IsKeyed (sym e) (map-IsKeyed reset_if_resettable (λ r. ground arith) t h)
Change-IsKeyed engine auto t u (role_extended role incoming _ _ e) h =
    subst IsKeyed (sym e) (assign-IsKeyed role.id _ (λ r. refl) t h)
Change-IsKeyed engine auto t u (user_added role username password _ e) h = subst IsKeyed (sym e) h
Change-IsKeyed engine auto t u (user_renamed user username e) h =
    subst IsKeyed (sym e) (rename_user-IsKeyed username user t h)
Change-IsKeyed engine auto t u (user_moved user username role _ e) h =
    subst IsKeyed (sym e) (rename_user-IsKeyed username user t h)
Change-IsKeyed engine auto t u (password_set i password e) h = subst IsKeyed (sym e) h
Change-IsKeyed engine auto t u (user_granted i permissions e) h = subst IsKeyed (sym e) h
Change-IsKeyed engine auto t u (user_removed i e) h = subst IsKeyed (sym e) h
Change-IsKeyed engine auto t u (users_reset e) h = subst IsKeyed (sym e) h
