-- ===== src/Actor/Decision.antt =====
-- What the dependencies decide.
use ara_nes_lms_core.Base.{
  nat_eq, string_eq, ℕ, String, Bool, true, false, Option, none, some, List, [], ◌∷◌, Result, ok,
  raise, ◌==◌, ◌≡◌, refl, ap, ◌∙◌, arith, inl, inr, Bool-cases, find,
}
use ara_nes_lms_core.Dict.{get, update, IsDict, or_else}
use ara_nes_lms_core.Dict.Laws.{get-update}
use ara_nes_lms_core.Errors.{Error}
use ara_nes_lms_core.Permissions.Defaults.{PermissionMap}
use ara_nes_lms_core.Database.{Role, User, Tables}
use ara_nes_lms_core.Rbac.Rows.{role_by_id, or_empty, user_by_id}
use ara_nes_lms_core.Actor.{
  CurrentActor, RequestState, Payload, Text, build_effective_permissions, build_current_actor,
  require_permission, has_permission, ensure_permission, joined, select_row, get_current_actor,
  resolve_token_user_id,
}

-- The keys of both permission columns are distinct, as those of a dictionary are.
abbrev pub IsPermissioned : Option PermissionMap → Type 0
IsPermissioned m = IsDict (or_empty m)

-- A key of the user's own permissions decides; only for the others the role's count.
get-build_effective_permissions :
    (user_permissions role_permissions : Option PermissionMap) (key : String)
    → IsPermissioned user_permissions
    → IsPermissioned role_permissions
    → get (build_effective_permissions user_permissions role_permissions) key
      ≡ or_else (get (or_empty user_permissions) key) (get (or_empty role_permissions) key)
unfolding build_effective_permissions get
get-build_effective_permissions none none key hu hr = refl
get-build_effective_permissions none (some r) key hu hr = get-update [] r hr key ∙ ground arith
get-build_effective_permissions (some u) none key hu hr = get-update [] u hu key
get-build_effective_permissions (some u) (some r) key hu hr =
    get-update (update [] r) u hu key
    ∙ ap (or_else (get u key)) (get-update [] r hr key ∙ ground arith)

-- The first user that meets the condition is in the row of the join, if that user's role exists.
joined_first :
    (condition : User → Bool) (t : Tables) (users : List User) (u : User) (r : Role)
    → find condition users ≡ some u
    → role_by_id u.role_id t ≡ some r
    → joined condition t users ≡ some (u, r)
unfolding joined
joined_first condition t [] u r h g = absurd (ground arith)
joined_first condition t (v ∷ users) u r h g = elim (Bool-cases (condition v)) [
  | inr skipped ↦ ground (arith, joined_first condition t users u r)
  | inl meets ↦
      let same : v ≡ u = ground arith in
      let here : role_by_id v.role_id t ≡ some r = ap (λ w. role_by_id w.role_id t) same ∙ g in
      rw (meets, here) (ground arith)
]

abbrev pub nothing_cached : RequestState
nothing_cached = record { current_user_with_role = none; current_actor = none }

abbrev pub is_ok : {A : Type 0} → Result Error A → Bool
is_ok (ok a) = true
is_ok (raise e) = false

abbrev require : String → Result Error CurrentActor → Result Error CurrentActor
require key (ok actor) = require_permission key actor
require key (raise e) = raise e

abbrev pub is_true : Option Bool → Bool
is_true none = false
is_true (some value) = value

module _ (methods : Text) (t : Tables) (payload : Payload) where
  -- A route that depends on `require_permission(key)`, at the start of a request
  abbrev pub authorize : String → Result Error CurrentActor
  authorize key = require key (get_current_actor methods t payload nothing_cached).0

  row_of_user :
      (i : ℕ) (u : User) (r : Role)
      → resolve_token_user_id methods payload ≡ ok (some i)
      → user_by_id i t ≡ some u
      → role_by_id u.role_id t ≡ some r
      → select_row methods t payload ≡ ok (u, r)
  unfolding select_row
  row_of_user i u r resolved here role =
      rw (resolved, joined_first (λ v. v.id == i) t t.users u r here role) refl

  -- A request whose token resolves to a user id passes `require_permission(key)` exactly if the
  -- user's own permissions map the key to true or, where they do not hold the key, those of the
  -- user's role map it to true; given that the user and the role exist, and that keys are
  -- distinct in the permissions of both.
  pub authorize_iff :
      (i : ℕ) (u : User) (r : Role) (key : String)
      → resolve_token_user_id methods payload ≡ ok (some i)
      → user_by_id i t ≡ some u
      → role_by_id u.role_id t ≡ some r
      → IsPermissioned u.permissions
      → IsPermissioned r.permissions
      → is_ok (authorize key)
        ≡ is_true (or_else (get (or_empty u.permissions) key) (get (or_empty r.permissions) key))
  unfolding get_current_actor require_permission build_current_actor
  authorize_iff i u r key resolved here role hu hr =
      rw (row_of_user i u r resolved here role)
        (ground (arith, get-build_effective_permissions u.permissions r.permissions key hu hr))

  -- Whenever the query finds a row, `ensure_permission` on it and `require_permission` on the
  -- actor agree, for every key.
  pub ensure_permission-authorize :
      (u : User) (r : Role) (key : String)
      → select_row methods t payload ≡ ok (u, r)
      → is_ok (ensure_permission u r key) ≡ is_ok (authorize key)
  unfolding get_current_actor require_permission ensure_permission has_permission
      build_current_actor
  ensure_permission-authorize u r key row = rw row (ground arith)
