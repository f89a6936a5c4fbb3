-- ===== src/Rbac/Invariants/Superadmin.antt =====
-- The SuperAdmin role: what can happen to the role with `SUPERADMIN_ROLE_ID`.
use mathlib.Core.Path.{subst}
use ara_nes_lms_core.Base.{
  nat_eq, string_eq, ℕ, String, Bool, true, false, not, Option, none, some, [], ◌∷◌, ◌≡◌, refl, map,
  ◌==◌, if◌then◌else◌, arith, find_sound, find-All, filter, find-map_same, find-filter,
  find-append_left, is_empty, ==_iff, Bool-cases, inl, inr, sym, ◌∙◌,
}
use ara_nes_lms_core.Dict.{get, contains, update}
use ara_nes_lms_core.Dict.Laws.{get-update_absent, contains_of_get}
use ara_nes_lms_core.Permissions.Defaults.{PermissionMap}
use ara_nes_lms_core.Permissions.Patch.Validation.{is_empty-sorted}
use ara_nes_lms_core.Database.{Role, Tables, Engine}
use ara_nes_lms_core.Rbac.Rows.{
  role_by_id, role_by_name, assign_role, is_superadmin_role, superadmin_role_id, or_empty,
}
use ara_nes_lms_core.Rbac.Roles.{reset_if_resettable, added_role, duplicate_keys_of}
use ara_nes_lms_core.Rbac.Invariants.Keys.{find_role-map, roles-rename_user, IsKeyed}
use ara_nes_lms_core.Rbac.Changes.{
  Change, unchanged, role_added, role_edited, role_removed, role_granted, roles_reset,
  role_extended, user_added, user_renamed, user_moved, password_set, user_granted, user_removed,
  users_reset, rename_in, retitle_in,
}

-- The role is still there under its key, with its name and title, and with every permission value
-- that it had.
pub record IsKept (role : Role) (t : Tables) : Type 0 where
  pub now : Role
  pub found : role_by_id superadmin_role_id t ≡ some now
  pub name : now.name ≡ role.name
  pub title_key : now.title_key ≡ role.title_key
  pub grants :
      (k : String) (v : Bool)
      → get (or_empty role.permissions) k ≡ some v
      → get (or_empty now.permissions) k ≡ some v

-- The same row.
same_row :
    (role : Role) (t u : Tables) → role_by_id 1 u ≡ role_by_id 1 t → IsKept role t → IsKept role u
same_row role t u e h = record {
  now = h.now;
  found = e ∙ h.found;
  name = h.name;
  title_key = h.title_key;
  grants = h.grants;
}

assign_other :
    (i : ℕ) (f : Role → Role)
    → ((r : Role) → (f r).id ≡ r.id)
    → (i == 1) ≡ false
    → (t : Tables) → role_by_id 1 (assign_role i f t) ≡ role_by_id 1 t
assign_other i f keeps other t =
    find-map_same (λ r. r.id == 1) _ (λ r. ground (arith, keeps r)) (λ r here. ground arith) t.roles

absent_of_free :
    (incoming current : PermissionMap) (k : String)
    → contains current k ≡ true
    → is_empty (map (λ e. e.0) (filter (λ e. contains current e.0) incoming)) ≡ true
    → get incoming k ≡ none
unfolding get
absent_of_free [] current k g h = refl
absent_of_free ((j, v) ∷ incoming) current k g h =
    ground (arith, absent_of_free incoming current k g, ==_iff j k)

-- A permission of the role is not among the keys that pass the check for duplicates.
duplicate_free :
    (incoming current : PermissionMap) (k : String) (v : Bool)
    → is_empty (duplicate_keys_of incoming current) ≡ true
    → get current k ≡ some v
    → get incoming k ≡ none
duplicate_free incoming current k v h g =
    absent_of_free incoming current k (contains_of_get current k v g)
      (sym (is_empty-sorted (map (λ e. e.0) (filter (λ e. contains current e.0) incoming))) ∙ h)

-- A role that is no superadmin role has another key.
id_of_editable : (role : Role) → is_superadmin_role role ≡ false → (role.id == 1) ≡ false
id_of_editable role h = ground arith

rename_other :
    (name : Option String) (role : Role)
    → (role.id == 1) ≡ false
    → (t : Tables) → role_by_id 1 (rename_in name role t) ≡ role_by_id 1 t
rename_other none role other t = refl
rename_other (some name) role other t = elim (Bool-cases (name == role.name)) [
  | inl same ↦ rw same
  | inr new ↦ rw new (assign_other role.id (λ r. record r { name = name }) (λ r. refl) other t)
]

retitle_other :
    (title : Option String) (role : Role)
    → (role.id == 1) ≡ false
    → (t : Tables) → role_by_id 1 (retitle_in title role t) ≡ role_by_id 1 t
retitle_other none role other t = refl
retitle_other (some title) role other t =
    assign_other role.id (λ r. record r { title_key = title }) (λ r. refl) other t

reset_other :
    (t : Tables)
    → role_by_id 1 (record t { roles = map reset_if_resettable t.roles }) ≡ role_by_id 1 t
reset_other t =
    find-map_same (λ r. r.id == 1) reset_if_resettable (λ r. ground arith) (λ r here. ground arith)
      t.roles

remove_other :
    (role now : Role) (t : Tables)
    → (role.id == 1) ≡ false
    → role_by_id 1 t ≡ some now
    → role_by_id 1 (record t { roles = filter (λ r. not (r.id == role.id)) t.roles }) ≡ some now
remove_other role now t other found =
    find-filter (λ r. r.id == 1) (λ r. not (r.id == role.id)) t.roles now found
      (ground (arith, find_sound (λ r. r.id == 1) t.roles now found))

extend_self :
    (original role : Role) (incoming : PermissionMap) (t : Tables)
    → role.id ≡ 1
    → role_by_id 1 t ≡ some role
    → is_empty (duplicate_keys_of incoming (or_empty role.permissions)) ≡ true
    → IsKept original t
    → IsKept original (
        assign_role role.id
          (λ r. record r { permissions = some (update (or_empty role.permissions) incoming) })
          t)
extend_self original role incoming t key first free h =
    let same : h.now ≡ role = ground (arith, h.found) in
    record {
      now = record role { permissions = some (update (or_empty role.permissions) incoming) };
      found =
          find_role-map
            (λ r.
              if r.id == role.id
              then record r { permissions = some (update (or_empty role.permissions) incoming) }
              else r)
            (λ r. ground arith) 1 t.roles
          ∙ ground arith;
      name = ground (arith, h.name);
      title_key = ground (arith, h.title_key);
      grants = λ k v g.
          let old : get (or_empty role.permissions) k ≡ some v = ground (arith, h.grants k v g) in
          get-update_absent (or_empty role.permissions) incoming k
            (duplicate_free incoming (or_empty role.permissions) k v free old)
          ∙ old;
    }

-- The registry of role permissions may add grants to the row, and overwrites none.
extend_row :
    (original role : Role) (incoming : PermissionMap) (t : Tables)
    → IsKeyed t
    → role_by_name role.name t ≡ some role
    → is_empty (duplicate_keys_of incoming (or_empty role.permissions)) ≡ true
    → IsKept original t
    → IsKept original (
        assign_role role.id
          (λ r. record r { permissions = some (update (or_empty role.permissions) incoming) })
          t)
extend_row original role incoming t keyed found free h = elim (Bool-cases (role.id == 1)) [
  | inr other ↦ same_row original t _ (assign_other role.id _ (λ r. refl) other t) h
  | inl self ↦
      let key : role.id ≡ 1 = (==_iff role.id 1).0 self in
      let own : role_by_id role.id t ≡ some role =
        find-All (λ r. role_by_id r.id t ≡ some r) (λ r. r.name == role.name) t.roles role keyed
          found in
      let first : role_by_id 1 t ≡ some role = simp key at own in
      extend_self original role incoming t key first free h
]

-- Every change keeps the SuperAdmin role: its name, its title and every permission that it has.
pub Change-IsKept :
    (engine : Engine) (role : Role) (t u : Tables)
    → Change engine t u
    → IsKeyed t
    → IsKept role t
    → IsKept role u
Change-IsKept engine role t u (unchanged e) k h = subst (IsKept role) (sym e) h
Change-IsKept engine role t u (role_added name title_key e) k h =
    subst (IsKept role) (sym e) (record {
      now = h.now;
      found =
          find-append_left (λ r. r.id == 1) t.roles (added_role engine name title_key t ∷ []) h.now
            h.found;
      name = h.name;
      title_key = h.title_key;
      grants = h.grants;
    })
Change-IsKept engine role t u (role_edited edited name title_key editable e) k h =
    let other = id_of_editable edited editable.1 in
    subst (IsKept role) (sym e) (
      same_row role t _
        (retitle_other title_key edited other (rename_in name edited t)
          ∙ rename_other name edited other t)
        h)
Change-IsKept engine role t u (role_removed removed editable _ e) k h =
    subst (IsKept role) (sym e) (
      same_row role t _
        (remove_other removed h.now t (id_of_editable removed editable.1) h.found ∙ sym h.found) h)
Change-IsKept engine role t u (role_granted granted permissions editable e) k h =
    subst (IsKept role) (sym e) (
      same_row role t _
        (assign_other granted.id _ (λ r. refl) (id_of_editable granted editable.1) t) h)
Change-IsKept engine role t u (roles_reset e) k h =
    subst (IsKept role) (sym e) (same_row role t _ (reset_other t) h)
Change-IsKept engine role t u (role_extended extended incoming found free e) k h =
    subst (IsKept role) (sym e) (extend_row role extended incoming t k found free h)
Change-IsKept engine role t u (user_added _ username password _ e) k h =
    subst (IsKept role) (sym e) (same_row role t _ refl h)
Change-IsKept engine role t u (user_renamed user username e) k h =
    subst (IsKept role) (sym e) (same_row role t _ (rw (roles-rename_user username user t)) h)
Change-IsKept engine role t u (user_moved user username _ _ e) k h =
    subst (IsKept role) (sym e) (same_row role t _ (rw (roles-rename_user username user t)) h)
Change-IsKept engine role t u (password_set i password e) k h =
    subst (IsKept role) (sym e) (same_row role t _ refl h)
Change-IsKept engine role t u (user_granted i permissions e) k h =
    subst (IsKept role) (sym e) (same_row role t _ refl h)
Change-IsKept engine role t u (user_removed i e) k h =
    subst (IsKept role) (sym e) (same_row role t _ refl h)
Change-IsKept engine role t u (users_reset e) k h =
    subst (IsKept role) (sym e) (same_row role t _ refl h)
