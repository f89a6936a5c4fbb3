-- ===== src/Rbac/Requests/Sequences.antt =====
-- One request, and sequences of requests.
use ara_nes_lms_core.Base.{String, List, [], ◌∷◌}
use ara_nes_lms_core.Database.{Role, Tables, Engine}
use ara_nes_lms_core.Rbac.Changes.{Change}
use ara_nes_lms_core.Rbac.Changes.OfRoles.{
  create_role-Change, update_role-Change, delete_role-Change, patch_role_permissions-Change,
  reset_role_permissions-Change, append-Change,
}
use ara_nes_lms_core.Rbac.Changes.OfUsers.{
  create_user-Change, update_user-Change, set_password-Change, delete_user-Change,
  patch_user-Change, reset_users-Change,
}
use ara_nes_lms_core.Rbac.Invariants.Keys.{IsKeyed, IsAutoincrement, Change-IsKeyed}
use ara_nes_lms_core.Rbac.Invariants.References.{IsReferenced, Change-IsReferenced}
use ara_nes_lms_core.Rbac.Invariants.Superadmin.{IsKept, Change-IsKept}
use ara_nes_lms_core.Rbac.Requests.{
  Request, create_role_request, update_role_request, delete_role_request, patch_role_request,
  reset_roles_request, reset_users_request, role_registry_request, create_user_request,
  update_user_request, set_password_request, delete_user_request, patch_user_request, perform,
  serve,
}

module _ (engine : Engine) (hash_password : String → String) where
  -- Each request commits nothing, or one change of the relation `Change`: the operations of the
  -- source refine that relation, whatever the database answers to their writes.
  pub perform-Change :
      (request : Request) (t : Tables) → Change engine t (perform engine hash_password request t).1
  unfolding perform
  perform-Change (create_role_request name title_key) t = create_role-Change engine t name title_key
  perform-Change (update_role_request i name title_key) t =
      update_role-Change engine t i name title_key
  perform-Change (delete_role_request i) t = delete_role-Change engine t i
  perform-Change (patch_role_request i patch) t = patch_role_permissions-Change engine t i patch
  perform-Change reset_roles_request t = reset_role_permissions-Change engine t
  perform-Change reset_users_request t = reset_users-Change engine t
  perform-Change (role_registry_request name patch) t = append-Change engine t name patch
  perform-Change (create_user_request username password i) t =
      create_user-Change engine t hash_password username password i
  perform-Change (update_user_request i username role_id) t =
      update_user-Change engine t i username role_id
  perform-Change (set_password_request i password) t =
      set_password-Change engine t hash_password i password
  perform-Change (delete_user_request i) t = delete_user-Change engine t i
  perform-Change (patch_user_request i patch) t = patch_user-Change engine t i patch

  -- If the primary keys of roles are distinct and a new one is never in use, then after any
  -- sequence of requests the role with `SUPERADMIN_ROLE_ID` is still there, with its name, its
  -- title key and every permission value that it had.
  pub serve-IsKept :
      IsAutoincrement engine
      → (requests : List Request) (t : Tables) → IsKeyed t
      → (role : Role) → IsKept role t
      → IsKept role (serve engine hash_password requests t)
  unfolding serve
  serve-IsKept auto [] t keyed role h = h
  serve-IsKept auto (request ∷ requests) t keyed role h =
      let c = perform-Change request t in
      serve-IsKept auto requests (perform engine hash_password request t).1
        (Change-IsKeyed engine auto t _ c keyed) role (Change-IsKept engine role t _ c keyed h)

  -- If every user refers to an existing role, then so it is after any sequence of requests,
  -- whatever the database answers, also where it enforces no foreign keys.
  pub serve-IsReferenced :
      (requests : List Request) (t : Tables)
      → IsReferenced t
      → IsReferenced (serve engine hash_password requests t)
  unfolding serve
  serve-IsReferenced [] t h = h
  serve-IsReferenced (request ∷ requests) t h =
      serve-IsReferenced requests (perform engine hash_password request t).1
        (Change-IsReferenced engine t _ (perform-Change request t) h)
