-- ===== src/Actor.antt =====
-- src/user_role/middlewares.py: who sends a request, and what that user may do. The claims of the
-- token, and the methods of `str`, are parameters. The reads run before anything is written in
-- the request's session, so they read the tables themselves.
pub mod Decision
pub mod Failures
pub mod Caching
use ara_nes_lms_core.Base.{
  nat_eq, string_eq, ℕ, zero, suc, String, Bool, true, false, not, Option, none, some, List, [],
  ◌∷◌, Result, ok, raise, ◌==◌, if◌then◌else◌,
}
use ara_nes_lms_core.Dict.{get, update}
use ara_nes_lms_core.Errors.{Error, http_exception, value_error}
use ara_nes_lms_core.Permissions.Defaults.{PermissionMap}
use ara_nes_lms_core.Database.{Role, User, Tables}
use ara_nes_lms_core.Rbac.Rows.{role_by_id}

pub record CurrentActor : Type 0 where
  pub user_id : ℕ
  pub role_id : ℕ
  pub effective_permissions : PermissionMap

-- `request.state`, with the two attributes of this module.
pub record RequestState : Type 0 where
  pub current_user_with_role : Option (User × Role)
  pub current_actor : Option CurrentActor

-- A claim: an `int` (a `bool` is one, 0 or 1), negative or not, a `str`, or another value.
pub data Claim : Type 0 where
  number : ℕ → Claim
  negative other : Claim
  text : String → Claim

-- The payload: its attributes that are not `None`, its items if it is a dictionary, and the
-- items of `model_dump()` if it has that method.
pub record Payload : Type 0 where
  pub attribute : String → Option Claim
  pub items : Option (String → Option Claim)
  pub model_dump : Option (String → Option Claim)

-- Methods of `str`, and `int` of one; `none` is the `ValueError` of the latter.
pub record Text : Type 0 where
  pub strip : String → String
  pub isdigit : String → Bool
  pub int : String → Option ℕ

-- `if permissions: effective.update(permissions)`
abbrev pub laid_over : PermissionMap → Option PermissionMap → PermissionMap
laid_over effective none = effective
laid_over effective (some permissions) = update effective permissions

unfoldable pub build_effective_permissions :
    Option PermissionMap → Option PermissionMap → PermissionMap
build_effective_permissions user_permissions role_permissions =
    laid_over (laid_over [] role_permissions) user_permissions

unfoldable pub build_current_actor :
    ℕ → ℕ → Option PermissionMap → Option PermissionMap → CurrentActor
build_current_actor user_id role_id user_permissions role_permissions = record {
  user_id = user_id;
  role_id = role_id;
  effective_permissions = build_effective_permissions user_permissions role_permissions;
}

abbrev pub actor_of : User → Role → CurrentActor
actor_of user role = build_current_actor user.id role.id user.permissions role.permissions

abbrev actor_from : Option (User × Role) → RequestState → Option CurrentActor × RequestState
actor_from none state = (none, state)
actor_from (some (user, role)) state =
    if user.id == 0
    then (none, state)
    else if role.id == 0
    then (none, state)
    else (some (actor_of user role), record state { current_actor = some (actor_of user role) })

unfoldable pub get_cached_actor_from_user_role_pair :
    RequestState → Option CurrentActor × RequestState
get_cached_actor_from_user_role_pair state = actor_from state.current_user_with_role state

abbrev claim_in :
    String → Option (String → Option Claim) → Option (String → Option Claim) → Option Claim
claim_in key (some items) model_dump = items key
claim_in key none (some model_dump) = model_dump key
claim_in key none none = none

abbrev claim_or : Option Claim → Option Claim → Option Claim
claim_or (some value) rest = some value
claim_or none rest = rest

unfoldable pub payload_claim : Payload → String → Option Claim
payload_claim payload key =
    claim_or (payload.attribute key) (claim_in key payload.items payload.model_dump)

module _ (methods : Text) where
  abbrev pub positive : Option ℕ → Result Error (Option ℕ)
  positive none = raise value_error
  positive (some zero) = raise (http_exception 401)
  positive (some (suc n)) = ok (some (suc n))

  abbrev pub user_id_of : Option Claim → Result Error (Option ℕ)
  user_id_of none = ok none
  user_id_of (some (number n)) = if n == 0 then raise (http_exception 401) else ok (some n)
  user_id_of (some (text s)) =
      if methods.isdigit (methods.strip s)
      then positive (methods.int (methods.strip s))
      else raise (http_exception 401)
  user_id_of (some _) = raise (http_exception 401)

  unfoldable pub resolve_token_user_id : Payload → Result Error (Option ℕ)
  unfolding payload_claim
  resolve_token_user_id payload = user_id_of (payload_claim payload "uid")

abbrev pub username_of : Option Claim → Result Error String
username_of (some (text s)) = if s == "" then raise (http_exception 401) else ok s
username_of _ = raise (http_exception 401)

unfoldable pub resolve_token_username : Payload → Result Error String
unfolding payload_claim
resolve_token_username payload = username_of (payload_claim payload "sub")

-- `select(User, Role).join(Role, Role.id == User.role_id).where(condition).limit(1)`
unfoldable pub joined : (User → Bool) → Tables → List User → Option (User × Role)
joined condition t [] = none
joined condition t (user ∷ users) =
    let rest = joined condition t users in
    if condition user
    then (elim (role_by_id user.role_id t) [ some role ↦ some (user, role) | none ↦ rest ])
    else rest

module _ (methods : Text) (t : Tables) where
  abbrev pub found : Option (User × Role) → Result Error (User × Role)
  found none = raise (http_exception 401)
  found (some row) = ok row

  abbrev pub by_username : Result Error String → Result Error (User × Role)
  by_username (raise e) = raise e
  by_username (ok username) = found (joined (λ u. u.username == username) t t.users)

  abbrev pub row_for : Payload → Result Error (Option ℕ) → Result Error (User × Role)
  row_for payload (raise e) = raise e
  row_for payload (ok (some user_id)) = found (joined (λ u. u.id == user_id) t t.users)
  row_for payload (ok none) = by_username (resolve_token_username payload)

  -- The query that both functions below send, or the exception before or after it.
  unfoldable pub select_row : Payload → Result Error (User × Role)
  unfolding resolve_token_user_id resolve_token_username joined
  select_row payload = row_for payload (resolve_token_user_id methods payload)

  abbrev keep_pair :
      Result Error (User × Role) → RequestState → Result Error (User × Role) × RequestState
  keep_pair (raise e) state = (raise e, state)
  keep_pair (ok (user, role)) state = (
    ok (user, role),
    record state {
      current_user_with_role = some (user, role);
      current_actor = some (actor_of user role);
    },
  )

  abbrev pair_or_row :
      Payload → Option (User × Role) → RequestState → Result Error (User × Role) × RequestState
  pair_or_row payload (some pair) state = (ok pair, state)
  pair_or_row payload none state = keep_pair (select_row payload) state

  unfoldable pub get_current_user_with_role :
      Payload → RequestState → Result Error (User × Role) × RequestState
  unfolding select_row
  get_current_user_with_role payload state = pair_or_row payload state.current_user_with_role state

  -- The row of this query has `User.role_id` where the other has `Role.id`.
  abbrev pub keep_actor :
      Result Error (User × Role) → RequestState → Result Error CurrentActor × RequestState
  keep_actor (raise e) state = (raise e, state)
  keep_actor (ok (user, role)) state =
      let actor = build_current_actor user.id user.role_id user.permissions role.permissions in
      (ok actor, record state { current_actor = some actor })

  abbrev pub actor_or_row :
      Payload → Option CurrentActor × RequestState → Result Error CurrentActor × RequestState
  actor_or_row payload (some actor, state) = (ok actor, state)
  actor_or_row payload (none, state) = keep_actor (select_row payload) state

  abbrev pub actor_or_pair :
      Payload → Option CurrentActor → RequestState → Result Error CurrentActor × RequestState
  actor_or_pair payload (some actor) state = (ok actor, state)
  actor_or_pair payload none state =
      actor_or_row payload (get_cached_actor_from_user_role_pair state)

  unfoldable pub get_current_actor :
      Payload → RequestState → Result Error CurrentActor × RequestState
  unfolding select_row get_cached_actor_from_user_role_pair
  get_current_actor payload state = actor_or_pair payload state.current_actor state

-- `permissions.get(key, False)`
abbrev pub granted : PermissionMap → String → Bool
granted permissions key = elim (get permissions key) [ none ↦ false | some value ↦ value ]

unfoldable pub require_permission : String → CurrentActor → Result Error CurrentActor
require_permission permission_key actor =
    if not (granted actor.effective_permissions permission_key)
    then raise (http_exception 403)
    else ok actor

unfoldable pub has_permission : User → Role → String → Bool
unfolding build_effective_permissions
has_permission user role permission_key =
    granted (build_effective_permissions user.permissions role.permissions) permission_key

unfoldable pub ensure_permission : User → Role → String → Result Error (Unit {0})
unfolding has_permission
ensure_permission user role permission_key =
    if not (has_permission user role permission_key) then raise (http_exception 403) else ok tt
