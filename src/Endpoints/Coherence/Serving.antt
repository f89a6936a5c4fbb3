-- ===== src/Endpoints/Coherence/Serving.antt =====
-- Sequences of requests to the endpoints of src/user_role/endpoints, on one cache and one database.
use ara_nes_lms_core.Base.{
  value_or, true, List, [], ◌∷◌, Result, ◌≡◌, ap, ◌∙◌, Option, none, some, Bool-cases, inl, inr,
}
use ara_nes_lms_core.Errors.{Error}
use ara_nes_lms_core.Actor.{CurrentActor, require_permission, granted}
use ara_nes_lms_core.Rbac.Invariants.Keys.{IsAutoincrement}
use ara_nes_lms_core.Rbac.Effects.OfUsers.{IsUserAutoincrement}
use ara_nes_lms_core.Database.{Tables}
use ara_nes_lms_core.Endpoints.World.{Services, World, Reply}
use ara_nes_lms_core.Endpoints.Routes.{
  Call, list_roles_call, reset_roles_call, list_users_call, reset_users_call, get_role_call,
  delete_role_call, get_user_call, delete_user_call, create_role_call, update_role_call,
  patch_role_call, patch_user_call, registry_call, create_user_call, update_user_call,
  set_password_call, permission_of, endpoint, respond, respond_all,
}
use ara_nes_lms_core.Endpoints.Coherence.Store.{IsReliable}
use ara_nes_lms_core.Endpoints.Coherence.Entries.{IsFaithful}
use ara_nes_lms_core.Endpoints.Coherence.OfRoles.{
  IsCoherent, role_answer, roles_answer, create_role-IsCoherent, update_role-IsCoherent,
  delete_role-IsCoherent, patch_role-IsCoherent, registry-IsCoherent,
}
use ara_nes_lms_core.Endpoints.Coherence.OfUsers.{
  create_user-IsCoherent, update_user-IsCoherent, patch_user-IsCoherent, delete_user-IsCoherent,
  set_password-IsCoherent,
}
use ara_nes_lms_core.Endpoints.Coherence.OfResets.{reset_roles-IsCoherent, reset_users-IsCoherent}
use ara_nes_lms_core.Endpoints.Coherence.Reading.{get_role-IsAnswered, list_roles-AreListed}
use ara_nes_lms_core.Endpoints.Coherence.ReadingUsers.{
  user_answer, users_answer, get_user-IsAnswered, list_users-AreListed,
}

-- What the four reading routes answer without a cache; `none` for the routes that write.
unfoldable pub uncached : Call → Tables → Option (Result Error Reply)
uncached list_roles_call t = some (roles_answer t)
uncached (get_role_call i) t = some (role_answer i t)
uncached list_users_call t = some (users_answer t)
uncached (get_user_call i) t = some (user_answer i t)
uncached _ t = none

module _ (services : Services) (reliable : IsReliable services.client)
    (faithful : IsFaithful services) (roles_auto : IsAutoincrement services.engine)
    (users_auto : IsUserAutoincrement services.engine) where
  endpoint-IsCoherent :
      (call : Call) (actor : CurrentActor) (w : World services)
      → IsCoherent services reliable faithful w
      → IsCoherent services reliable faithful (endpoint services call actor w).1
  unfolding endpoint
  endpoint-IsCoherent list_roles_call actor w h =
      (list_roles-AreListed services reliable faithful w h).0
  endpoint-IsCoherent (get_role_call i) actor w h =
      (get_role-IsAnswered services reliable faithful i w h).0
  endpoint-IsCoherent (create_role_call name title_key) actor w h =
      create_role-IsCoherent services reliable faithful w h roles_auto name title_key
  endpoint-IsCoherent (update_role_call i name title_key) actor w h =
      update_role-IsCoherent services reliable faithful w h i name title_key
  endpoint-IsCoherent (delete_role_call i) actor w h =
      delete_role-IsCoherent services reliable faithful w h i
  endpoint-IsCoherent (patch_role_call i patch) actor w h =
      patch_role-IsCoherent services reliable faithful w h i patch
  endpoint-IsCoherent reset_roles_call actor w h =
      reset_roles-IsCoherent services reliable faithful w h
  endpoint-IsCoherent (registry_call name patch) actor w h =
      registry-IsCoherent services reliable faithful w h name patch
  endpoint-IsCoherent list_users_call actor w h =
      (list_users-AreListed services reliable faithful w h).0
  endpoint-IsCoherent (get_user_call i) actor w h =
      (get_user-IsAnswered services reliable faithful i w h).0
  endpoint-IsCoherent (create_user_call username password i) actor w h =
      create_user-IsCoherent services reliable faithful w h users_auto username password i
  endpoint-IsCoherent (update_user_call i username role_id) actor w h =
      update_user-IsCoherent services reliable faithful w h i username role_id
  endpoint-IsCoherent (set_password_call i password) actor w h =
      set_password-IsCoherent services reliable faithful w h i password
  endpoint-IsCoherent (delete_user_call i) actor w h =
      delete_user-IsCoherent services reliable faithful w h i actor
  endpoint-IsCoherent (patch_user_call i patch) actor w h =
      patch_user-IsCoherent services reliable faithful w h i patch
  endpoint-IsCoherent reset_users_call actor w h =
      reset_users-IsCoherent services reliable faithful w h

  respond-IsCoherent :
      (call : Call) (actor : CurrentActor) (w : World services)
      → IsCoherent services reliable faithful w
      → IsCoherent services reliable faithful (respond services call actor w).1
  unfolding respond require_permission
  respond-IsCoherent call actor w h =
      elim (Bool-cases (granted actor.effective_permissions (permission_of call))) [
        | inl allowed ↦ rw allowed (endpoint-IsCoherent call actor w h)
        | inr denied ↦ rw denied h
      ]

  -- On a Redis that answers every call, with faithful dumps and prints and with primary keys that
  -- are never used twice: if the cache agrees with the tables, then it does so after any sequence
  -- of requests, served or refused.
  pub respond_all-IsCoherent :
      (calls : List (Call × CurrentActor)) (w : World services)
      → IsCoherent services reliable faithful w
      → IsCoherent services reliable faithful (respond_all services calls w)
  unfolding respond_all
  respond_all-IsCoherent [] w h = h
  respond_all-IsCoherent ((call, actor) ∷ calls) w h =
      respond_all-IsCoherent calls (respond services call actor w).1
        (respond-IsCoherent call actor w h)

  read-answer :
      (call : Call) (actor : CurrentActor) (w : World services) (answer : Result Error Reply)
      → IsCoherent services reliable faithful w
      → uncached call w.tables ≡ some answer
      → (endpoint services call actor w).0 ≡ answer
  unfolding endpoint uncached
  read-answer list_roles_call actor w answer h e =
      (list_roles-AreListed services reliable faithful w h).1 ∙ ap (value_or answer) e
  read-answer (get_role_call i) actor w answer h e =
      (get_role-IsAnswered services reliable faithful i w h).1 ∙ ap (value_or answer) e
  read-answer list_users_call actor w answer h e =
      (list_users-AreListed services reliable faithful w h).1 ∙ ap (value_or answer) e
  read-answer (get_user_call i) actor w answer h e =
      (get_user-IsAnswered services reliable faithful i w h).1 ∙ ap (value_or answer) e
  read-answer _ actor w answer h e = absurd (cc)

  -- On a Redis that answers every call, with faithful dumps and prints and with primary keys that
  -- are never used twice: a permitted request that reads a role, a user or all of them is answered,
  -- after any sequence of requests that started with a cache in agreement with the tables, with
  -- what the tables then hold, as it would be without a cache.
  pub respond-uncached :
      (calls : List (Call × CurrentActor)) (w : World services)
      → IsCoherent services reliable faithful w
      → (call : Call) (actor : CurrentActor) (answer : Result Error Reply)
      → granted actor.effective_permissions (permission_of call) ≡ true
      → uncached call (respond_all services calls w).tables ≡ some answer
      → (respond services call actor (respond_all services calls w)).0 ≡ answer
  unfolding respond require_permission
  respond-uncached calls w h call actor answer allowed e = rw allowed (
      read-answer call actor (respond_all services calls w) answer
        (respond_all-IsCoherent calls w h) e)
