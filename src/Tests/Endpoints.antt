-- ===== src/Tests/Endpoints.antt =====
-- The endpoints on a Redis that never fails, two roles and one user.
use ara_nes_lms_core.Base.{
  value_or, nat_eq, string_eq, ℕ, suc, ◌+◌, ◌<◌, String, true, false, Option, none, some, List, [],
  ◌∷◌, ◌≡◌, ◌≢◌, ◌⊎◌, refl, sym, ap, arith, any, length, find, raise, ◌==◌, ==_iff, if◌then◌else◌,
  Bool-cases, inl, inr,
}
use ara_nes_lms_core.Dict
use ara_nes_lms_core.Errors.{http_exception}
use ara_nes_lms_core.Database.{Role, User, Engine, query, commit}
use ara_nes_lms_core.Rbac.Roles as RoleCrud
use ara_nes_lms_core.Rbac.Users.{delete_user_admin}
use ara_nes_lms_core.Rbac.Invariants.Keys.{IsAutoincrement}
use ara_nes_lms_core.Rbac.Effects.OfUsers.{IsUserAutoincrement}
use ara_nes_lms_core.RedisCache.{Client, answered, Json, dict}
use ara_nes_lms_core.Actor.{CurrentActor, granted, require_permission}
use ara_nes_lms_core.Permissions.Patch.{bool}
use ara_nes_lms_core.Endpoints.World.{Services, World, finish}
use ara_nes_lms_core.Endpoints.Roles.{create_role}
use ara_nes_lms_core.Endpoints.Users.{delete_user, user_status}
use ara_nes_lms_core.Endpoints.Routes.{
  Call, list_roles_call, get_role_call, create_role_call, patch_role_call, delete_user_call,
  reset_roles_call, permission_of, endpoint, respond, respond_all,
}
use ara_nes_lms_core.Endpoints.Guards.{respond-raise, respond-granted}
use ara_nes_lms_core.Endpoints.Coherence.Store.{IsReliable}
use ara_nes_lms_core.Endpoints.Coherence.Entries.{IsFaithful}
use ara_nes_lms_core.Endpoints.Coherence.OfRoles.{IsCoherent, roles_answer}
use ara_nes_lms_core.Endpoints.Coherence.Serving.{
  respond_all-IsCoherent, respond-uncached, uncached,
}
use ara_nes_lms_core.Tests.Codec.{role_model, user_model, str, str_inj, str-ne-list}

abbrev client : Client
client = record {
  Server = String → Option String;
  get = λ key server. (answered (server key), server);
  set = λ key text ttl server. (answered tt, λ k. if key == k then some text else server k);
  delete = λ keys server. (answered tt, λ k. if any (λ j. j == k) keys then none else server k);
  ping = λ server. (answered true, server);
}

set_held :
    (key text k x : String) (old : Option String)
    → (if key == k then some text else old) ≡ some x
    → ((k ≡ key) × (x ≡ text)) ⊎ ((k ≢ key) × (old ≡ some x))
set_held key text k x old = elim (Bool-cases (key == k)) [
  | inl same ↦ rw same (λ h. inl (sym ((==_iff key k).0 same), sym (ap (value_or text) h)))
  | inr other ↦ rw other (λ h. inr ((λ e. ground (arith, other, (==_iff key k).1 (sym e))), h))
]

delete_held :
    (keys : List String) (k x : String) (old : Option String)
    → (if any (λ j. j == k) keys then none else old) ≡ some x
    → (any (λ j. j == k) keys ≡ false) × (old ≡ some x)
delete_held keys k x old = elim (Bool-cases (any (λ j. j == k) keys)) [
  | inl gone ↦ rw gone (λ h. absurd (cc))
  | inr kept ↦ rw kept (λ h. (refl, h))
]

abbrev client-IsReliable : IsReliable client
client-IsReliable = record {
  contents = λ server key. server key;
  get-answered = λ key s. refl;
  get-keeps = λ key s k x h. h;
  set-answered = λ key text ttl s. refl;
  set-keeps = λ key text ttl s k x h. set_held key text k x (s k) h;
  delete-answered = λ keys s. refl;
  delete-keeps = λ keys s k x h. delete_held keys k x (s k) h;
}

abbrev role_total : List Role → ℕ
role_total [] = 0
role_total (r ∷ rs) = r.id + role_total rs

abbrev user_total : List User → ℕ
user_total [] = 0
user_total (u ∷ us) = u.id + user_total us

abbrev engine : Engine
engine = record {
  violation = λ t. none;
  next_role_id = λ t. suc (role_total t.roles);
  next_user_id = λ t. suc (user_total t.users);
  lower = λ s. s;
}

roles_above : (n : ℕ) (rs : List Role) → role_total rs < n → find (λ r. r.id == n) rs ≡ none
roles_above n [] h = refl
roles_above n (r ∷ rs) h = ground (arith, roles_above n rs)

users_above : (n : ℕ) (us : List User) → user_total us < n → find (λ u. u.id == n) us ≡ none
users_above n [] h = refl
users_above n (u ∷ us) h = ground (arith, users_above n us)

engine-IsAutoincrement : IsAutoincrement engine
engine-IsAutoincrement = record {
  fresh = λ t. roles_above (suc (role_total t.roles)) t.roles (omega arith);
}

engine-IsUserAutoincrement : IsUserAutoincrement engine
engine-IsUserAutoincrement = record {
  fresh = λ t. users_above (suc (user_total t.users)) t.users (omega arith);
}

abbrev json : Json String
json = record { loads = λ s. dict s; dumps = λ s. s }

abbrev services : Services
services = record {
  client = client;
  Payload = String;
  json = json;
  role_model = role_model.0;
  user_model = user_model.0;
  str = str;
  engine = engine;
  hash_password = λ s. s;
}

services-IsFaithful : IsFaithful services
services-IsFaithful = record {
  codec = record { loads-dumps = λ payload. refl };
  role_read = role_model.1;
  roles_read = role_model.2;
  user_read = user_model.1;
  users_read = user_model.2;
  str_inj = str_inj;
  str-ne = str-ne-list;
}

abbrev superadmin : Role
superadmin = record { id = 1; name = "SuperAdmin"; title_key = ""; permissions = none }

abbrev teacher : Role
teacher = record { id = 5; name = "Teacher"; title_key = ""; permissions = none }

abbrev ann : User
ann = record { id = 1; username = "ann"; password = "x"; role_id = 1; permissions = none }

-- Nothing is cached at first.
abbrev world : World services
world = record {
  tables = record { roles = superadmin ∷ teacher ∷ []; users = ann ∷ [] };
  cache = (
    record { enabled = true; has_client = true; available = true; default_ttl_seconds = 60 },
    λ key. none,
  );
}

abbrev actor : CurrentActor
actor = record {
  user_id = 1;
  role_id = 1;
  effective_permissions =
      ("rbac_roles_read", true)
      ∷ ("rbac_roles_create", true)
      ∷ ("rbac_users_manage", true)
      ∷ ("rbac_can_manage_permissions", true)
      ∷ [];
}

world-IsCoherent : IsCoherent services client-IsReliable services-IsFaithful world
world-IsCoherent = (refl, λ k x h. absurd (cc))

abbrev calls : List (Call × CurrentActor)
calls =
    (list_roles_call, actor)
    ∷ (create_role_call "Guest" "role.guest", actor)
    ∷ (get_role_call 5, actor)
    ∷ (patch_role_call 5 (("rbac_roles_read", bool true) ∷ []), actor)
    ∷ (reset_roles_call, actor)
    ∷ []

respond_all-IsCoherent_example :
    IsCoherent services client-IsReliable services-IsFaithful (respond_all services calls world)
respond_all-IsCoherent_example =
    respond_all-IsCoherent services client-IsReliable services-IsFaithful engine-IsAutoincrement
      engine-IsUserAutoincrement calls world world-IsCoherent

may_read : granted actor.effective_permissions (permission_of list_roles_call) ≡ true
unfolding permission_of Dict.get
may_read = refl

read_by_database :
    uncached list_roles_call (respond_all services calls world).tables
    ≡ some (roles_answer (respond_all services calls world).tables)
unfolding uncached
read_by_database = refl

respond-uncached_example :
    (respond services list_roles_call actor (respond_all services calls world)).0
    ≡ roles_answer (respond_all services calls world).tables
respond-uncached_example =
    respond-uncached services client-IsReliable services-IsFaithful engine-IsAutoincrement
      engine-IsUserAutoincrement calls world world-IsCoherent list_roles_call actor
      (roles_answer (respond_all services calls world).tables) may_read read_by_database

no_such_user : (respond services (delete_user_call 7) actor world).0 ≡ raise (http_exception 404)
unfolding respond endpoint delete_user finish user_status delete_user_admin query require_permission
    permission_of Dict.get
no_such_user = refl

respond-raise_example : (respond services (delete_user_call 7) actor world).1.tables ≡ world.tables
respond-raise_example =
    respond-raise services (delete_user_call 7) actor world (http_exception 404) no_such_user

abbrev creation : Call
creation = create_role_call "Guest" "role.guest"

role_count : length (respond services creation actor world).1.tables.roles ≡ 3
unfolding respond endpoint create_role finish RoleCrud.create_role commit require_permission
    permission_of Dict.get
role_count = refl

created : (respond services creation actor world).1 ≢ world
created e = omega (arith, role_count, ap (λ (w : World services). length w.tables.roles) e)

respond-granted_example :
    (granted actor.effective_permissions (permission_of creation) ≡ true)
    × (creation ≢ delete_user_call actor.user_id)
respond-granted_example = respond-granted services creation actor world created
