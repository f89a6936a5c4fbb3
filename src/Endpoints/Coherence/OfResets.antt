-- ===== src/Endpoints/Coherence/OfResets.antt =====
-- The reset endpoints of src/user_role/endpoints keep the cache right.
use ara_nes_lms_core.Base.{
  string_eq, nat_eq, ℕ, ◌⊎◌, String, false, List, [], ◌∷◌, ◌++◌, map, any, any-append, ◌==◌, ==_iff,
  ok, ◌≡◌, ◌≢◌, refl, sym, ap, ◌∙◌, arith, inl, inr,
}
use mathlib.Core.Path.{subst}
use ara_nes_lms_core.Database.{Role, User, Tables, with_session, commit, query}
use ara_nes_lms_core.Rbac.Rows.{sort_roles, sort_users}
use ara_nes_lms_core.Rbac.Roles as RoleCrud
use ara_nes_lms_core.Rbac.Roles.{reset_if_resettable}
use ara_nes_lms_core.Rbac.Users as UserCrud
use ara_nes_lms_core.Rbac.Users.{without_permissions}
use ara_nes_lms_core.Rbac.Changes.OfRoles.{committed}
use ara_nes_lms_core.Rbac.Effects.Resets.{
  keys_to_reset, keys-sort, reset_same, user_keys-sort, reset_same_user,
}
use ara_nes_lms_core.RbacCache as Caching
use ara_nes_lms_core.RbacCache.{
  build_role_cache_key, build_role_list_cache_key, build_user_cache_key, build_user_list_cache_key,
  invalidate_items,
}
use ara_nes_lms_core.Endpoints.World.{Services, World, role_schema, user_schema}
use ara_nes_lms_core.Endpoints.Roles.{list_and_reset_roles, reset_role_permissions}
use ara_nes_lms_core.Endpoints.Users.{list_and_reset_users, reset_user_permissions}
use ara_nes_lms_core.Endpoints.Guards.{reset_roles-IsAtomic, reset_users-IsAtomic}
use ara_nes_lms_core.Endpoints.Coherence.Store.{IsReliable, delete_keys-IsFilled}
use ara_nes_lms_core.Endpoints.Coherence.Entries.{IsFaithful, IsRight, roles-IsRight, users-IsRight}
use ara_nes_lms_core.Endpoints.Coherence.OfRoles.{IsCoherent, finish-IsCoherent}

any-key :
    (build : ℕ → String) (ids : List ℕ) (j : ℕ) (rest : List String)
    → any (λ k. k == build j) (map build ids ++ rest) ≡ false
    → any (λ i. i == j) ids ≡ false
any-key build [] j rest h = refl
any-key build (i ∷ ids) j rest h = ground (
  arith,
  h,
  any-key build ids j rest,
  ==_iff i j,
  ==_iff (build i) (build j),
  λ (e : i ≡ j). ap build e,
)

any-last :
    (keys : List String) (last k : String)
    → any (λ j. j == k) (keys ++ last ∷ []) ≡ false
    → k ≢ last
any-last keys last k h e =
    ground (arith, h, any-append (λ j. j == k) keys (last ∷ []), (==_iff last k).1 (sym e))

module _ (services : Services) where
  open services use {engine}

  roles_step :
      (t : Tables) (result : List Role × ℕ)
      → (with_session (list_and_reset_roles services) t).0 ≡ ok result
      → (result.0 ≡ sort_roles t.roles)
        × ((committed (with_session (list_and_reset_roles services) t) ≡ t)
            ⊎ (committed (with_session (list_and_reset_roles services) t)
                ≡ record t { roles = map reset_if_resettable t.roles }))
  unfolding RoleCrud.list_roles RoleCrud.reset_role_permissions commit query
  roles_step t result h = ground arith

  users_step :
      (t : Tables) (result : List User × ℕ)
      → (with_session (list_and_reset_users services) t).0 ≡ ok result
      → (result.0 ≡ sort_users t.users)
        × ((committed (with_session (list_and_reset_users services) t) ≡ t)
            ⊎ (committed (with_session (list_and_reset_users services) t)
                ≡ record t { users = map without_permissions t.users }))
  unfolding UserCrud.list_users UserCrud.reset_user_permissions commit query
  users_step t result h = ground arith

  module _ (t : Tables) (k x : String) where
    open services use {str}

    reset_roles-IsRight :
        any
            (λ j. j == k)
            (map (build_role_cache_key str) (keys_to_reset (sort_roles t.roles))
              ++ build_role_list_cache_key ∷ [])
          ≡ false
        → IsRight services t k x
        → IsRight services (record t { roles = map reset_if_resettable t.roles }) k x
    reset_roles-IsRight gone =
        let build = build_role_cache_key str in
        let keys = keys_to_reset (sort_roles t.roles) in
        let last : List String = build_role_list_cache_key ∷ [] in
        roles-IsRight services t (record t { roles = map reset_if_resettable t.roles }) k x
          (λ j e. reset_same j t.roles (
            sym (keys-sort j t.roles)
            ∙ any-key build keys j last
                (subst (λ i. any (λ l. l == i) (map build keys ++ last) ≡ false) e gone)))
          (any-last (map build keys) build_role_list_cache_key k gone) refl

    reset_users-IsRight :
        any
            (λ j. j == k)
            (map (build_user_cache_key str) (map (λ u. u.id) (sort_users t.users))
              ++ build_user_list_cache_key ∷ [])
          ≡ false
        → IsRight services t k x
        → IsRight services (record t { users = map without_permissions t.users }) k x
    reset_users-IsRight gone =
        let build = build_user_cache_key str in
        let keys : List ℕ = map (λ u. u.id) (sort_users t.users) in
        let last : List String = build_user_list_cache_key ∷ [] in
        users-IsRight services t (record t { users = map without_permissions t.users }) k x
          (λ j e. reset_same_user j t.users (
            sym (user_keys-sort j t.users)
            ∙ any-key build keys j last
                (subst (λ i. any (λ l. l == i) (map build keys ++ last) ≡ false) e gone)))
          (any-last (map build keys) build_user_list_cache_key k gone) refl

  -- Tables that are as they were, or changed as `reset` says.
  either-IsRight :
      (t u v : Tables) (k x : String)
      → (u ≡ t) ⊎ (u ≡ v)
      → (IsRight services t k x → IsRight services v k x)
      → IsRight services t k x
      → IsRight services u k x
  either-IsRight t u v k x (inl same) reset right =
      subst (λ i. IsRight services i k x) (sym same) right
  either-IsRight t u v k x (inr changed) reset right =
      subst (λ i. IsRight services i k x) (sym changed) (reset right)

module _ (services : Services) (reliable : IsReliable services.client)
    (faithful : IsFaithful services) (w : World services)
    (coherent : IsCoherent services reliable faithful w) where
  open services use {client, json, role_model, user_model, str}

  pub reset_roles-IsCoherent :
      IsCoherent services reliable faithful (reset_role_permissions services w).1
  unfolding reset_role_permissions Caching.invalidate_roles
  reset_roles-IsCoherent =
      finish-IsCoherent services reliable faithful _ _ _ w.cache w.tables _ coherent
        (reset_roles-IsAtomic services w.tables)
        (λ result h.
          let (listed, tables) = roles_step services w.tables result h in
          delete_keys-IsFilled client reliable json (IsRight services w.tables) (IsRight services _)
            (role_schema role_model)
            (map (build_role_cache_key str) (keys_to_reset result.0)
              ++ build_role_list_cache_key ∷ [])
            (λ k x gone.
              either-IsRight services w.tables _
                (record w.tables { roles = map reset_if_resettable w.tables.roles }) k x tables
                (reset_roles-IsRight services w.tables k x (
                  subst
                    (λ roles.
                      any (λ j. j == k)
                        (map (build_role_cache_key str) (keys_to_reset roles)
                          ++ build_role_list_cache_key ∷ [])
                      ≡ false)
                    listed gone)))
            w.cache coherent)

  pub reset_users-IsCoherent :
      IsCoherent services reliable faithful (reset_user_permissions services w).1
  unfolding reset_user_permissions Caching.invalidate_users
  reset_users-IsCoherent =
      finish-IsCoherent services reliable faithful _ _ _ w.cache w.tables _ coherent
        (reset_users-IsAtomic services w.tables)
        (λ result h.
          let (listed, tables) = users_step services w.tables result h in
          delete_keys-IsFilled client reliable json (IsRight services w.tables) (IsRight services _)
            (user_schema user_model)
            (map (build_user_cache_key str) (map (λ u. u.id) result.0)
              ++ build_user_list_cache_key ∷ [])
            (λ k x gone.
              either-IsRight services w.tables _
                (record w.tables { users = map without_permissions w.tables.users }) k x tables
                (reset_users-IsRight services w.tables k x (
                  subst
                    (λ users.
                      any (λ j. j == k)
                        (map (build_user_cache_key str) (map (λ u. u.id) users)
                          ++ build_user_list_cache_key ∷ [])
                      ≡ false)
                    listed gone)))
            w.cache coherent)
