-- ===== src/Permissions/Registry/Merging.antt =====
-- What a role's defaults are after a registration.
use ara_nes_lms_core.Base.{
  string_eq, String, [], ◌∷◌, ◌≡◌, refl, All, arith, ◌==◌, ==_iff, if◌then◌else◌,
}
use ara_nes_lms_core.Dict.{Dict, get, update, IsDict, or_else}
use ara_nes_lms_core.Dict.Laws.{get-update, get-set}
use ara_nes_lms_core.Permissions.Defaults.{PermissionMap, get_or_empty}
use ara_nes_lms_core.Permissions.Registry.{
  RbacService, register_one, register_role_permission_defaults, get_default_role_permissions,
}

get-register_one :
    (s : RbacService) (name : String) (m : PermissionMap)
    → IsDict m
    → (role key : String)
    → get (get_default_role_permissions (register_one s name m) role) key ≡ (
        if name == role
        then or_else (get m key) (get (get_default_role_permissions s role) key)
        else get (get_default_role_permissions s role) key)
unfolding register_one get_default_role_permissions
get-register_one s name m h role key = ground (
  arith,
  get-set s name (update (get_or_empty s name) m) role,
  get-update (get_or_empty s name) m h key,
  ==_iff name role,
)

-- After the registration of a mapping, in which and in whose values keys are distinct, a default of
-- a role is the one that was registered, and where none was, the one that it had: the later
-- registration wins, key by key.
pub get-register :
    (mapping : Dict String PermissionMap) (s : RbacService)
    → IsDict mapping
    → All (λ e. IsDict e.1) mapping
    → (role key : String)
    → get (get_default_role_permissions (register_role_permission_defaults s mapping) role) key
      ≡ or_else
          (get (get_or_empty mapping role) key)
          (get (get_default_role_permissions s role) key)
unfolding register_role_permission_defaults get
get-register [] s h g role key = refl
get-register ((name, m) ∷ mapping) s h g role key = ground (
  arith,
  get-register mapping (register_one s name m) h.1 g.1 role key,
  get-register_one s name m g.0 role key,
  ==_iff name role,
  h.0,
)
