-- ===== src/Endpoints/Coherence/OfRoles.antt =====
-- The role endpoints of src/user_role/endpoints keep the cache right and answer from it what the
-- tables have.
use ara_nes_lms_core.Base.{
  string_eq, nat_eq, ℕ, String, Option, none, some, map, Result, ok, raise, ◌≡◌, ◌≢◌, refl, sym,
}
use mathlib.Core.Path.{subst}
use ara_nes_lms_core.Errors.{Error, http_exception}
use ara_nes_lms_core.Permissions.Patch.{Patch}
use ara_nes_lms_core.Database.{Role, Tables}
use ara_nes_lms_core.Rbac.Rows.{role_by_id, sort_roles}
use ara_nes_lms_core.Rbac.Invariants.Keys.{IsAutoincrement}
use ara_nes_lms_core.Rbac.Effects.OfRoles.{
  create_role-IsRoleWritten, update_role-IsRoleWritten, patch_role-IsRoleWritten,
  delete_role-IsRoleChange, append-IsRoleChange,
}
use ara_nes_lms_core.Rbac.Effects.RoleEdits.{IsRoleChange, IsRoleWritten}
use ara_nes_lms_core.RedisCache
use ara_nes_lms_core.RbacCache as Caching
use ara_nes_lms_core.RbacCache.{
  build_role_cache_key, build_role_list_cache_key, normalize_item, normalize_list,
}
use ara_nes_lms_core.Endpoints.World.{
  serialize_role, Services, Reply, one_role, many_roles, World, Cache, finish,
}
use ara_nes_lms_core.Endpoints.Roles.{
  refresh_role, forget_role, create_role, update_role, delete_role, patch_role_permissions,
  registry_roles_once_if_not_exist,
}
use ara_nes_lms_core.Endpoints.Guards.{
  create_role-IsAtomic, update_role-IsAtomic, delete_role-IsAtomic, patch_role-IsAtomic,
  registry-IsAtomic,
}
use ara_nes_lms_core.Endpoints.Coherence.Store.{IsReliable, IsFilled, delete-IsFilled, set-IsFilled}
use ara_nes_lms_core.Endpoints.Coherence.Entries.{
  IsFaithful, IsRight, role_written-IsRight, role_change-IsRight,
}

-- What `get_role` and `list_roles` answer without a cache.
unfoldable pub role_answer : ℕ → Tables → Result Error Reply
unfolding serialize_role
role_answer i t = elim (role_by_id i t) [
  | none ↦ raise (http_exception 404)
  | some role ↦ ok (one_role (serialize_role role))
]

unfoldable pub roles_answer : Tables → Result Error Reply
unfolding serialize_role sort_roles
roles_answer t = ok (many_roles (map serialize_role (sort_roles t.roles)))

module _ (services : Services) (reliable : IsReliable services.client)
    (faithful : IsFaithful services) where
  open services use {client, json, role_model, str, engine}

  -- The cache service is on, and what the cache holds of roles and users is what the tables have.
  abbrev pub IsCoherentWith : Tables → Cache services → Type 0
  IsCoherentWith t cache = IsFilled client reliable json (IsRight services t) cache

  abbrev pub IsCoherent : World services → Type 0
  IsCoherent w = IsCoherentWith w.tables w.cache

  pub finish-IsCoherent :
      {A : Type 0} (status : Error → Option ℕ) (after : A → Cache services → Cache services)
      (reply : A → Reply) (cache : Cache services) (t : Tables) (r : Result Error A × Tables)
      → IsCoherentWith t cache
      → ((e : Error) → r.0 ≡ raise e → r.1 ≡ t)
      → ((a : A) → r.0 ≡ ok a → IsCoherentWith r.1 (after a cache))
      → IsCoherent (finish services status after reply cache r).1
  unfolding finish
  finish-IsCoherent status after reply cache t (raise e, u) coherent atomic returned =
      subst (λ v. IsCoherentWith v cache) (sym (atomic e refl)) coherent
  finish-IsCoherent status after reply cache t (ok a, u) coherent atomic returned = returned a refl

  module _ (i : ℕ) (t u : Tables) (cache : Cache services) (coherent : IsCoherentWith t cache) where
    refresh_role-IsCoherent :
        (r : Role) → IsRoleWritten i r t u → IsCoherentWith u (refresh_role services i r cache)
    unfolding Caching.set_role Caching.invalidate_role_list
    refresh_role-IsCoherent r written =
        let list = build_role_list_cache_key in
        let Between : String → String → Type 0 = λ k x. (k ≢ list) × IsRight services t k x in
        set-IsFilled client reliable json Between (IsRight services u) (build_role_cache_key str i)
          (role_model.dump (serialize_role r)) none
          (role_written-IsRight services faithful i r u written.found)
          (λ k x other both.
            role_change-IsRight services t u k x i written.change other both.0 both.1)
          (RedisCache.delete client list cache)
          (delete-IsFilled client reliable json (IsRight services t) Between list
            (λ k x other right. (other, right)) cache coherent)

    forget_role-IsCoherent : IsRoleChange i t u → IsCoherentWith u (forget_role services i cache)
    unfolding Caching.invalidate_role Caching.invalidate_role_list
    forget_role-IsCoherent change =
        let key = build_role_cache_key str i in
        let Between : String → String → Type 0 = λ k x. (k ≢ key) × IsRight services t k x in
        delete-IsFilled client reliable json Between (IsRight services u) build_role_list_cache_key
          (λ k x other both. role_change-IsRight services t u k x i change both.0 other both.1)
          (RedisCache.delete client key cache)
          (delete-IsFilled client reliable json (IsRight services t) Between key
            (λ k x other right. (other, right)) cache coherent)

  module _ (w : World services) (coherent : IsCoherent w) where
    pub create_role-IsCoherent :
        IsAutoincrement engine
        → (name title_key : String) → IsCoherent (create_role services name title_key w).1
    unfolding create_role
    create_role-IsCoherent auto name title_key =
        finish-IsCoherent _ _ _ w.cache w.tables _ coherent
          (create_role-IsAtomic services name title_key w.tables)
          (λ r h.
            refresh_role-IsCoherent r.id w.tables _ w.cache coherent r
              (create_role-IsRoleWritten engine w.tables auto name title_key r h))

    pub update_role-IsCoherent :
        (i : ℕ) (name title_key : Option String)
        → IsCoherent (update_role services i name title_key w).1
    unfolding update_role
    update_role-IsCoherent i name title_key =
        finish-IsCoherent _ _ _ w.cache w.tables _ coherent
          (update_role-IsAtomic services i name title_key w.tables)
          (λ r h.
            refresh_role-IsCoherent i w.tables _ w.cache coherent r
              (update_role-IsRoleWritten engine w.tables i name title_key r h))

    pub delete_role-IsCoherent : (i : ℕ) → IsCoherent (delete_role services i w).1
    unfolding delete_role
    delete_role-IsCoherent i =
        finish-IsCoherent _ _ _ w.cache w.tables _ coherent
          (delete_role-IsAtomic services i w.tables)
          (λ r h.
            forget_role-IsCoherent i w.tables _ w.cache coherent
              (delete_role-IsRoleChange engine w.tables i h))

    pub patch_role-IsCoherent :
        (i : ℕ) (patch : Patch) → IsCoherent (patch_role_permissions services i patch w).1
    unfolding patch_role_permissions
    patch_role-IsCoherent i patch =
        finish-IsCoherent _ _ _ w.cache w.tables _ coherent
          (patch_role-IsAtomic services i patch w.tables)
          (λ r h.
            refresh_role-IsCoherent i w.tables _ w.cache coherent r
              (patch_role-IsRoleWritten engine w.tables i patch r h))

    pub registry-IsCoherent :
        (name : String) (patch : Patch)
        → IsCoherent (registry_roles_once_if_not_exist services name patch w).1
    unfolding registry_roles_once_if_not_exist
    registry-IsCoherent name patch =
        finish-IsCoherent _ _ _ w.cache w.tables _ coherent
          (registry-IsAtomic services name patch w.tables)
          (λ r h.
            forget_role-IsCoherent r.role_id w.tables _ w.cache coherent
              (append-IsRoleChange engine w.tables name patch r h))
