-- ===== src/Endpoints/Coherence/OfUsers.antt =====
-- The user endpoints of src/user_role/endpoints keep the cache right.
use ara_nes_lms_core.Base.{
  string_eq, nat_eq, ℕ, String, Option, none, ◌==◌, ◌≢◌, Bool-cases, inl, inr,
}
use ara_nes_lms_core.Permissions.Patch.{Patch}
use ara_nes_lms_core.Database.{User, Tables}
use ara_nes_lms_core.Rbac.Effects.OfUsers.{
  IsUserAutoincrement, create_user-IsUserWritten, update_user-IsUserWritten,
  patch_user-IsUserWritten, delete_user-IsUserChange, set_password-IsPasswordChange,
}
use ara_nes_lms_core.Rbac.Effects.UserEdits.{IsUserChange, IsUserWritten}
use ara_nes_lms_core.RedisCache
use ara_nes_lms_core.RbacCache as Caching
use ara_nes_lms_core.RbacCache.{build_user_cache_key, build_user_list_cache_key}
use ara_nes_lms_core.Actor.{CurrentActor}
use ara_nes_lms_core.Endpoints.World.{serialize_user, Services, World, Cache}
use ara_nes_lms_core.Endpoints.Users.{
  refresh_user, forget_user, create_user, update_user, set_user_password, delete_user,
  patch_user_permissions,
}
use ara_nes_lms_core.Endpoints.Guards.{
  create_user-IsAtomic, update_user-IsAtomic, delete_user-IsAtomic, patch_user-IsAtomic,
  set_password-IsAtomic,
}
use ara_nes_lms_core.Endpoints.Coherence.Store.{IsReliable, delete-IsFilled, set-IsFilled}
use ara_nes_lms_core.Endpoints.Coherence.Entries.{
  IsFaithful, IsRight, user_written-IsRight, user_change-IsRight, password_change-IsRight,
}
use ara_nes_lms_core.Endpoints.Coherence.OfRoles.{IsCoherentWith, IsCoherent, finish-IsCoherent}

module _ (services : Services) (reliable : IsReliable services.client)
    (faithful : IsFaithful services) where
  open services use {client, json, user_model, str, engine, hash_password}

  module _ (i : ℕ) (t u : Tables) (cache : Cache services)
      (coherent : IsCoherentWith services reliable faithful t cache) where
    refresh_user-IsCoherent :
        (r : User)
        → IsUserWritten i r t u
        → IsCoherentWith services reliable faithful u (refresh_user services i r cache)
    unfolding Caching.set_user Caching.invalidate_user_list
    refresh_user-IsCoherent r written =
        let list = build_user_list_cache_key in
        let Between : String → String → Type 0 = λ k x. (k ≢ list) × IsRight services t k x in
        set-IsFilled client reliable json Between (IsRight services u) (build_user_cache_key str i)
          (user_model.dump (serialize_user r)) none
          (user_written-IsRight services faithful i r u written.found)
          (λ k x other both.
            user_change-IsRight services t u k x i written.change other both.0 both.1)
          (RedisCache.delete client list cache)
          (delete-IsFilled client reliable json (IsRight services t) Between list
            (λ k x other right. (other, right)) cache coherent)

    forget_user-IsCoherent :
        IsUserChange i t u
        → IsCoherentWith services reliable faithful u (forget_user services i cache)
    unfolding Caching.invalidate_user Caching.invalidate_user_list
    forget_user-IsCoherent change =
        let key = build_user_cache_key str i in
        let Between : String → String → Type 0 = λ k x. (k ≢ key) × IsRight services t k x in
        delete-IsFilled client reliable json Between (IsRight services u) build_user_list_cache_key
          (λ k x other both. user_change-IsRight services t u k x i change both.0 other both.1)
          (RedisCache.delete client key cache)
          (delete-IsFilled client reliable json (IsRight services t) Between key
            (λ k x other right. (other, right)) cache coherent)

  module _ (w : World services) (coherent : IsCoherent services reliable faithful w) where
    pub create_user-IsCoherent :
        IsUserAutoincrement engine
        → (username password : String) (role_id : ℕ)
        → IsCoherent services reliable faithful (create_user services username password role_id w).1
    unfolding create_user
    create_user-IsCoherent auto username password role_id =
        finish-IsCoherent services reliable faithful _ _ _ w.cache w.tables _ coherent
          (create_user-IsAtomic services username password role_id w.tables)
          (λ r h. refresh_user-IsCoherent r.id w.tables _ w.cache coherent r (
            create_user-IsUserWritten engine w.tables auto hash_password username password role_id r
              h))

    pub update_user-IsCoherent :
        (i : ℕ) (username : Option String) (role_id : Option ℕ)
        → IsCoherent services reliable faithful (update_user services i username role_id w).1
    unfolding update_user
    update_user-IsCoherent i username role_id =
        finish-IsCoherent services reliable faithful _ _ _ w.cache w.tables _ coherent
          (update_user-IsAtomic services i username role_id w.tables)
          (λ r h.
            refresh_user-IsCoherent i w.tables _ w.cache coherent r
              (update_user-IsUserWritten engine w.tables i username role_id r h))

    pub patch_user-IsCoherent :
        (i : ℕ) (patch : Patch)
        → IsCoherent services reliable faithful (patch_user_permissions services i patch w).1
    unfolding patch_user_permissions
    patch_user-IsCoherent i patch =
        finish-IsCoherent services reliable faithful _ _ _ w.cache w.tables _ coherent
          (patch_user-IsAtomic services i patch w.tables)
          (λ r h.
            refresh_user-IsCoherent i w.tables _ w.cache coherent r
              (patch_user-IsUserWritten engine w.tables i patch r h))

    pub delete_user-IsCoherent :
        (i : ℕ) (actor : CurrentActor)
        → IsCoherent services reliable faithful (delete_user services i actor w).1
    unfolding delete_user
    delete_user-IsCoherent i actor = elim (Bool-cases (actor.user_id == i)) [
      | inl self ↦ rw self coherent
      | inr other ↦ rw other (
          finish-IsCoherent services reliable faithful _ _ _ w.cache w.tables _ coherent
            (delete_user-IsAtomic services i w.tables)
            (λ r h.
              forget_user-IsCoherent i w.tables _ w.cache coherent
                (delete_user-IsUserChange engine w.tables i h)))
    ]

    pub set_password-IsCoherent :
        (i : ℕ) (password : String)
        → IsCoherent services reliable faithful (set_user_password services i password w).1
    unfolding set_user_password Caching.invalidate_user
    set_password-IsCoherent i password =
        finish-IsCoherent services reliable faithful _ _ _ w.cache w.tables _ coherent
          (set_password-IsAtomic services i password w.tables)
          (λ r h.
            let change =
              set_password-IsPasswordChange engine w.tables i hash_password password r h in
            delete-IsFilled client reliable json (IsRight services w.tables) (IsRight services _)
              (build_user_cache_key str i)
              (λ k x other. password_change-IsRight services w.tables _ k x i change other) w.cache
              coherent)
