-- ===== src/Permissions/Defaults/Grants.antt =====
-- What the default tables grant.
use ara_nes_lms_core.Base.{
  string_eq, String, Bool, true, none, some, [], ◌≡◌, refl, arith, All, inl, inr, Option-cases,
}
use ara_nes_lms_core.Dict.{Dict, get, update, IsDict, or_else}
use ara_nes_lms_core.Dict.Laws.{get-update, get-All}
use ara_nes_lms_core.Permissions.Keys.{is_registered, rbac_can_manage_permissions}
use ara_nes_lms_core.Permissions.Defaults.{
  PermissionMap, rbac_role_permission_defaults, i18n_role_permission_defaults, get_or_empty,
  get_rbac_role_permission_defaults, get_i18n_role_permission_defaults,
  get_default_role_permissions,
}

-- What holds of the empty dictionary and of every row holds of `table.get(name, {})`.
get_or_empty-All :
    (P : String → PermissionMap → Type 0) (table : Dict String PermissionMap)
    → All (λ x. P x.0 x.1) table
    → (name : String) → P name []
    → P name (get_or_empty table name)
get_or_empty-All P table h name base = elim (Option-cases (get table name)) [
  | inl missing ↦ rw (missing, get_or_empty) base
  | inr (m, found) ↦ rw (found, get_or_empty) (get-All P table h name m found)
]

rbac-IsDict : (role_name : String) → IsDict (get_rbac_role_permission_defaults role_name)
unfolding get_rbac_role_permission_defaults
rbac-IsDict role_name =
    get_or_empty-All (λ name m. IsDict m) rbac_role_permission_defaults (ground arith) role_name tt

i18n-IsDict : (role_name : String) → IsDict (get_i18n_role_permission_defaults role_name)
unfolding get_i18n_role_permission_defaults
i18n-IsDict role_name =
    get_or_empty-All (λ name m. IsDict m) i18n_role_permission_defaults (ground arith) role_name tt

rbac-registered :
    (role_name : String)
    → All (λ e. is_registered e.0 ≡ true) (get_rbac_role_permission_defaults role_name)
unfolding get_rbac_role_permission_defaults is_registered
rbac-registered role_name =
    get_or_empty-All (λ name m. All (λ e. is_registered e.0 ≡ true) m) rbac_role_permission_defaults
      (ground arith) role_name tt

i18n-registered :
    (role_name : String)
    → All (λ e. is_registered e.0 ≡ true) (get_i18n_role_permission_defaults role_name)
unfolding get_i18n_role_permission_defaults is_registered
i18n-registered role_name =
    get_or_empty-All (λ name m. All (λ e. is_registered e.0 ≡ true) m) i18n_role_permission_defaults
      (ground arith) role_name tt

-- The defaults of a role: the rbac table laid over the i18n table.
pub get-defaults :
    (role_name key : String)
    → get (get_default_role_permissions role_name) key
      ≡ or_else
          (get (get_rbac_role_permission_defaults role_name) key)
          (get (get_i18n_role_permission_defaults role_name) key)
unfolding get_default_role_permissions get
get-defaults role_name key =
    let i = get_i18n_role_permission_defaults role_name in
    let r = get_rbac_role_permission_defaults role_name in
    ground (
      arith,
      get-update (update [] i) r (rbac-IsDict role_name) key,
      get-update [] i (i18n-IsDict role_name) key,
    )

-- Every key that a default role comes with is a registered key.
pub defaults_registered :
    (role_name key : String) (v : Bool)
    → get (get_default_role_permissions role_name) key ≡ some v
    → is_registered key ≡ true
defaults_registered role_name key v h =
    elim (Option-cases (get (get_rbac_role_permission_defaults role_name) key)) [
      | inl missing ↦
          get-All (λ k _. is_registered k ≡ true) (get_i18n_role_permission_defaults role_name)
            (i18n-registered role_name) key v (ground (arith, get-defaults role_name key))
      | inr (w, found) ↦
          get-All (λ k _. is_registered k ≡ true) (get_rbac_role_permission_defaults role_name)
            (rbac-registered role_name) key w found
    ]

i18n-manage :
    (role_name : String)
    → get (get_i18n_role_permission_defaults role_name) rbac_can_manage_permissions ≡ none
unfolding get_i18n_role_permission_defaults get
i18n-manage role_name =
    get_or_empty-All (λ name m. get m rbac_can_manage_permissions ≡ none)
      i18n_role_permission_defaults (ground arith) role_name refl

rbac-manage :
    (role_name : String)
    → get (get_rbac_role_permission_defaults role_name) rbac_can_manage_permissions ≡ some true
    → role_name ≡ "SuperAdmin"
unfolding get_rbac_role_permission_defaults get
rbac-manage role_name =
    get_or_empty-All (λ name m. get m rbac_can_manage_permissions ≡ some true → name ≡ "SuperAdmin")
      rbac_role_permission_defaults (ground arith) role_name (λ h. absurd (cc))

-- No role but SuperAdmin is granted the management of permissions by default.
pub manage_only_superadmin :
    (role_name : String)
    → get (get_default_role_permissions role_name) rbac_can_manage_permissions ≡ some true
    → role_name ≡ "SuperAdmin"
manage_only_superadmin role_name h =
    rbac-manage role_name
      (ground (arith, get-defaults role_name rbac_can_manage_permissions, i18n-manage role_name))
