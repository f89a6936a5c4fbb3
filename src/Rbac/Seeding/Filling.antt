-- ===== src/Rbac/Seeding/Filling.antt =====
-- What the start of the program does to the permissions of a role.
use ara_nes_lms_core.Base.{
  nat_eq, string_eq, String, true, false, none, [], ◌∷◌, is_empty, ==_iff, ==_refl, ◌≡◌, ◌≢◌, refl,
  arith, inl, inr, Bool-cases,
}
use ara_nes_lms_core.Dict.{get, contains, set, or_else}
use ara_nes_lms_core.Dict.Laws.{get-set, contains-get, get_of_contains}
use ara_nes_lms_core.Permissions.Defaults.{PermissionMap}
use ara_nes_lms_core.Permissions.Registry as Registry
use ara_nes_lms_core.Permissions.Registry.{RbacService}
use ara_nes_lms_core.Database.{Role}
use ara_nes_lms_core.Rbac.Rows.{or_empty}
use ara_nes_lms_core.Rbac.Seeding.{fill, init_role}

-- Old values stay, and the defaults fill the rest.
get-fill :
    (defaults permissions : PermissionMap) (key : String)
    → get (fill defaults permissions).0 key ≡ or_else (get permissions key) (get defaults key)
unfolding fill get
get-fill [] permissions key = ground arith
get-fill ((k, v) ∷ defaults) permissions key = elim (Bool-cases (contains permissions k)) [
  | inl old ↦
      let held = contains-get permissions k old in
      rw old (ground (arith, get-fill defaults permissions key, held, ==_iff k key))
  | inr new ↦
      let missing = get_of_contains permissions k new in
      rw new (
        ground (
          arith,
          get-fill defaults (set permissions k v) key,
          get-set permissions k v key,
          missing,
          ==_iff k key,
        ))
]

-- Without a change, the dictionary is the old one.
fill_unchanged :
    (defaults permissions : PermissionMap)
    → (fill defaults permissions).1 ≡ false
    → (fill defaults permissions).0 ≡ permissions
unfolding fill
fill_unchanged [] permissions h = refl
fill_unchanged ((k, v) ∷ defaults) permissions h =
    ground (arith, fill_unchanged defaults permissions)

-- Every key of the defaults.
covered :
    (defaults permissions : PermissionMap)
    → ((key : String) → get defaults key ≢ none → get permissions key ≢ none)
    → (fill defaults permissions).1 ≡ false
unfolding fill get
covered [] permissions h = refl
covered ((k, v) ∷ defaults) permissions h = elim (Bool-cases (contains permissions k)) [
  | inr new ↦ absurd (h k (rw (==_refl k) (λ e. ground arith)) (get_of_contains permissions k new))
  | inl old ↦
      let held = contains-get permissions k old in
      rw old (covered defaults permissions (λ key g. ground (arith, held, h key, ==_iff k key, g)))
]

get_empty : (d : PermissionMap) (key : String) → is_empty d ≡ true → get d key ≡ none
unfolding get
get_empty [] key h = refl
get_empty (e ∷ d) key h = ground arith

-- A role keeps its key, its name, its title and every permission value that it has, and for every
-- other key it gets the default that is registered for its name, if there is one.
pub get-init_role :
    (service : RbacService) (role : Role) (key : String)
    → ((init_role service role).0.id ≡ role.id)
      × ((init_role service role).0.name ≡ role.name)
      × ((init_role service role).0.title_key ≡ role.title_key)
      × (get (or_empty (init_role service role).0.permissions) key
          ≡ or_else
              (get (or_empty role.permissions) key)
              (get (Registry.get_default_role_permissions service role.name) key))
unfolding init_role get
get-init_role service role key =
    let defaults = Registry.get_default_role_permissions service role.name in
    ground (
      arith,
      get-fill defaults (or_empty role.permissions) key,
      fill_unchanged defaults (or_empty role.permissions),
      get_empty defaults key,
    )

-- Filling a role that is filled changes nothing.
pub init_role-init_role :
    (service : RbacService) (role : Role)
    → init_role service (init_role service role).0 ≡ ((init_role service role).0, false)
unfolding init_role
init_role-init_role service role =
    let defaults = Registry.get_default_role_permissions service role.name in
    let again =
      covered defaults (fill defaults (or_empty role.permissions)).0
        (λ key g. ground (arith, get-fill defaults (or_empty role.permissions) key, g)) in
    ground (arith, again)
