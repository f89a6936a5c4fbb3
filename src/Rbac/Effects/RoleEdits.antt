-- ===== src/Rbac/Effects/RoleEdits.antt =====
-- Assignments to a role of src/user_role/crud.py, by key.
use mathlib.Core.Path.{subst}
use ara_nes_lms_core.Base.{
  nat_eq, string_eq, ℕ, String, Option, none, some, ◌==◌, ◌≡◌, ◌≢◌, refl, sym, ◌∙◌, arith,
  Bool-cases, inl, inr,
}
use ara_nes_lms_core.Database.{Role, Tables}
use ara_nes_lms_core.Rbac.Rows.{role_by_id, assign_role}
use ara_nes_lms_core.Rbac.Roles.{renamed, retitled}
use ara_nes_lms_core.Rbac.Changes.{rename_in, retitle_in}
use ara_nes_lms_core.Rbac.Effects.Rows.{row-assign_other, row-assign}

-- Only the role with the key may have changed, and no user.
pub record IsRoleChange (i : ℕ) (t u : Tables) : Type 0 where
  pub others : (j : ℕ) → j ≢ i → role_by_id j u ≡ role_by_id j t
  pub users : u.users ≡ t.users

-- It is now `role`.
pub record IsRoleWritten (i : ℕ) (role : Role) (t u : Tables) : Type 0 where
  pub change : IsRoleChange i t u
  pub found : role_by_id i u ≡ some role

pub assign-IsRoleChange :
    (i : ℕ) (f : Role → Role)
    → ((r : Role) → (f r).id ≡ r.id)
    → (t : Tables) → IsRoleChange i t (assign_role i f t)
assign-IsRoleChange i f keeps t = record {
  others = λ j other. row-assign_other (λ r. r.id) i f keeps j other t.roles;
  users = refl;
}

pub assign-IsRoleWritten :
    (i : ℕ) (f : Role → Role)
    → ((r : Role) → (f r).id ≡ r.id)
    → (role : Role) (t : Tables) → role_by_id i t ≡ some role
    → IsRoleWritten i (f role) t (assign_role i f t)
assign-IsRoleWritten i f keeps role t found = record {
  change = assign-IsRoleChange i f keeps t;
  found = row-assign (λ r. r.id) i f keeps role t.roles found;
}

unchanged-IsRoleWritten :
    (role : Role) (t : Tables) → role_by_id role.id t ≡ some role → IsRoleWritten role.id role t t
unchanged-IsRoleWritten role t found = record {
  change = record { others = λ j other. refl; users = refl };
  found = found;
}

IsRoleWritten-trans :
    (i : ℕ) (q r : Role) (t u v : Tables)
    → IsRoleWritten i q t u
    → IsRoleWritten i r u v
    → IsRoleWritten i r t v
IsRoleWritten-trans i q r t u v first second = record {
  change = record {
    others = λ j other. second.change.others j other ∙ first.change.others j other;
    users = second.change.users ∙ first.change.users;
  };
  found = second.found;
}

rename-IsRoleWritten :
    (name : Option String) (role : Role) (t : Tables)
    → role_by_id role.id t ≡ some role
    → IsRoleWritten role.id (renamed name role) t (rename_in name role t)
rename-IsRoleWritten none role t found = unchanged-IsRoleWritten role t found
rename-IsRoleWritten (some name) role t found = elim (Bool-cases (name == role.name)) [
  | inl same ↦ rw same (unchanged-IsRoleWritten role t found)
  | inr other ↦
      rw other
        (assign-IsRoleWritten role.id (λ r. record r { name = name }) (λ r. refl) role t found)
]

retitle-IsRoleWritten :
    (title_key : Option String) (old role : Role) (t : Tables)
    → old.id ≡ role.id
    → role_by_id role.id t ≡ some role
    → IsRoleWritten role.id (retitled title_key role) t (retitle_in title_key old t)
retitle-IsRoleWritten none old role t same found = unchanged-IsRoleWritten role t found
retitle-IsRoleWritten (some title_key) old role t same found = rw same (
    assign-IsRoleWritten role.id (λ r. record r { title_key = title_key }) (λ r. refl) role t found)

id-renamed : (name : Option String) (role : Role) → (renamed name role).id ≡ role.id
id-renamed none role = refl
id-renamed (some name) role = ground arith

pub edit-IsRoleWritten :
    (name title_key : Option String) (role : Role) (t : Tables)
    → role_by_id role.id t ≡ some role
    → IsRoleWritten role.id
        (retitled title_key (renamed name role))
        t
        (retitle_in title_key role (rename_in name role t))
edit-IsRoleWritten name title_key role t found =
    let first = rename-IsRoleWritten name role t found in
    let same : (renamed name role).id ≡ role.id = id-renamed name role in
    IsRoleWritten-trans role.id (renamed name role) _ t (rename_in name role t) _ first (
      subst
        (λ i.
          IsRoleWritten i (retitled title_key (renamed name role)) (rename_in name role t)
            (retitle_in title_key role (rename_in name role t)))
        same
        (retitle-IsRoleWritten title_key role (renamed name role) (rename_in name role t) (sym same)
          (subst (λ i. role_by_id i (rename_in name role t) ≡ some (renamed name role)) (sym same)
            first.found)))
