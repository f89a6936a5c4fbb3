-- ===== src/Rbac/Effects/UserEdits.antt =====
-- Assignments to a user of src/user_role/crud.py, by key.
use mathlib.Core.Path.{subst}
use ara_nes_lms_core.Base.{
  nat_eq, string_eq, ℕ, String, Option, none, some, map, ◌==◌, if◌then◌else◌, ◌≡◌, ◌≢◌, refl, sym,
  ◌∙◌, arith, Bool-cases, inl, inr,
}
use ara_nes_lms_core.Database.{User, Tables}
use ara_nes_lms_core.Rbac.Rows.{user_by_id, assign_user}
use ara_nes_lms_core.Rbac.Users.{with_username, with_role}
use ara_nes_lms_core.Rbac.Changes.{rename_user_in}
use ara_nes_lms_core.Rbac.Effects.Rows.{row-assign_other, row-assign}

-- Only the user with the key may have changed, and no role.
pub record IsUserChange (i : ℕ) (t u : Tables) : Type 0 where
  pub others : (j : ℕ) → j ≢ i → user_by_id j u ≡ user_by_id j t
  pub roles : u.roles ≡ t.roles

-- It is now `user`.
pub record IsUserWritten (i : ℕ) (user : User) (t u : Tables) : Type 0 where
  pub change : IsUserChange i t u
  pub found : user_by_id i u ≡ some user

-- Only the password of the user with the key may have changed.
pub record IsPasswordChange (i : ℕ) (password : String) (t u : Tables) : Type 0 where
  pub change : IsUserChange i t u
  pub key : ℕ
  pub users :
      u.users
      ≡ map (λ user. if user.id == key then record user { password = password } else user) t.users

pub assign-IsUserChange :
    (i : ℕ) (f : User → User)
    → ((u : User) → (f u).id ≡ u.id)
    → (t : Tables) → IsUserChange i t (assign_user i f t)
assign-IsUserChange i f keeps t = record {
  others = λ j other. row-assign_other (λ u. u.id) i f keeps j other t.users;
  roles = refl;
}

pub assign-IsUserWritten :
    (i : ℕ) (f : User → User)
    → ((u : User) → (f u).id ≡ u.id)
    → (user : User) (t : Tables) → user_by_id i t ≡ some user
    → IsUserWritten i (f user) t (assign_user i f t)
assign-IsUserWritten i f keeps user t found = record {
  change = assign-IsUserChange i f keeps t;
  found = row-assign (λ u. u.id) i f keeps user t.users found;
}

IsUserWritten-trans :
    (i : ℕ) (q r : User) (t u v : Tables)
    → IsUserWritten i q t u
    → IsUserWritten i r u v
    → IsUserWritten i r t v
IsUserWritten-trans i q r t u v first second = record {
  change = record {
    others = λ j other. second.change.others j other ∙ first.change.others j other;
    roles = second.change.roles ∙ first.change.roles;
  };
  found = second.found;
}

unchanged-IsUserWritten :
    (user : User) (t : Tables) → user_by_id user.id t ≡ some user → IsUserWritten user.id user t t
unchanged-IsUserWritten user t found = record {
  change = record { others = λ j other. refl; roles = refl };
  found = found;
}

rename-IsUserWritten :
    (username : Option String) (user : User) (t : Tables)
    → user_by_id user.id t ≡ some user
    → IsUserWritten user.id (with_username username user) t (rename_user_in username user t)
rename-IsUserWritten none user t found = unchanged-IsUserWritten user t found
rename-IsUserWritten (some username) user t found = elim (Bool-cases (username == user.username)) [
  | inl same ↦ rw same (unchanged-IsUserWritten user t found)
  | inr other ↦ rw other (
      assign-IsUserWritten user.id (λ u. record u { username = username }) (λ u. refl) user t found)
]

-- `user.role_id = role_id`, where it is given
abbrev pub move_in : Option ℕ → User → Tables → Tables
move_in none user t = t
move_in (some role_id) user t = assign_user user.id (λ v. record v { role_id = role_id }) t

move-IsUserWritten :
    (role_id : Option ℕ) (old user : User) (t : Tables)
    → old.id ≡ user.id
    → user_by_id user.id t ≡ some user
    → IsUserWritten user.id (with_role role_id user) t (move_in role_id old t)
move-IsUserWritten none old user t same found = unchanged-IsUserWritten user t found
move-IsUserWritten (some role_id) old user t same found =
    rw same
      (assign-IsUserWritten user.id (λ v. record v { role_id = role_id }) (λ v. refl) user t found)

id-renamed : (username : Option String) (user : User) → (with_username username user).id ≡ user.id
id-renamed none user = refl
id-renamed (some username) user = ground arith

pub edit-IsUserWritten :
    (username : Option String) (role_id : Option ℕ) (user : User) (t : Tables)
    → user_by_id user.id t ≡ some user
    → IsUserWritten user.id
        (with_role role_id (with_username username user))
        t
        (move_in role_id user (rename_user_in username user t))
edit-IsUserWritten username role_id user t found =
    let u = rename_user_in username user t in
    let renamed = with_username username user in
    let first = rename-IsUserWritten username user t found in
    let same : renamed.id ≡ user.id = id-renamed username user in
    IsUserWritten-trans user.id renamed _ t u _ first (
      subst (λ i. IsUserWritten i (with_role role_id renamed) u (move_in role_id user u)) same
        (move-IsUserWritten role_id user renamed u (sym same)
          (subst (λ i. user_by_id i u ≡ some renamed) (sym same) first.found)))
