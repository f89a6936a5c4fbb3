-- ===== src/Endpoints/World.antt =====
-- src/user_role/endpoints/serializers.py, and what a handler of src/user_role/endpoints works on:
-- the committed tables and the shared cache. Redis, `json`, the validation and dumping of
-- pydantic, the decimal print of a number, the database and `hash_password` are parameters.
use ara_nes_lms_core.Base.{ℕ, String, Option, none, some, List, Result, ok, raise}
use ara_nes_lms_core.Errors.{Error, http_exception}
use ara_nes_lms_core.Permissions.Defaults.{PermissionMap}
use ara_nes_lms_core.Database.{Role, User, Tables, Engine}
use ara_nes_lms_core.Rbac.Rows.{or_empty}
use ara_nes_lms_core.Rbac.Roles.{RoleRegistryResult}
use ara_nes_lms_core.RedisCache.{Client, Json, CacheService}
use ara_nes_lms_core.RbacCache.{Schema}

-- `RoleResponseSchema`, `UserResponseSchema`
pub record RoleView : Type 0 where
  pub id : ℕ
  pub name : String
  pub title_key : String
  pub permissions : PermissionMap

pub record UserView : Type 0 where
  pub id : ℕ
  pub username : String
  pub role_id : ℕ
  pub permissions : PermissionMap

unfoldable pub serialize_role : Role → RoleView
serialize_role role = record {
  id = role.id;
  name = role.name;
  title_key = role.title_key;
  permissions = or_empty role.permissions;
}

unfoldable pub serialize_user : User → UserView
serialize_user user = record {
  id = user.id;
  username = user.username;
  role_id = user.role_id;
  permissions = or_empty user.permissions;
}

-- Pydantic on a schema: `validate` and `validate_items` give `none` for a `ValidationError`.
pub record Model (P V : Type 0) : Type 0 where
  pub validate : P → Option V
  pub validate_items : P → Option (List V)
  pub dump : V → P
  pub dump_items : List V → P

abbrev pub role_schema : {P : Type 0} → Model P RoleView → Schema P
role_schema model = record {
  Item = RoleView;
  id = λ role. role.id;
  model_validate = model.validate;
  validate_items = model.validate_items;
  model_dump = model.dump;
  dump_items = model.dump_items;
}

abbrev pub user_schema : {P : Type 0} → Model P UserView → Schema P
user_schema model = record {
  Item = UserView;
  id = λ user. user.id;
  model_validate = model.validate;
  validate_items = model.validate_items;
  model_dump = model.dump;
  dump_items = model.dump_items;
}

-- What the handlers call that is not code of the repository, and the hash of passwords.
pub record Services : Type 1 where
  pub client : Client
  pub Payload : Type 0
  pub json : Json Payload
  pub role_model : Model Payload RoleView
  pub user_model : Model Payload UserView
  pub str : ℕ → String
  pub engine : Engine
  pub hash_password : String → String

pub data Reply : Type 0 where
  many_roles : List RoleView → Reply
  one_role : RoleView → Reply
  many_users : List UserView → Reply
  one_user : UserView → Reply
  registry_reply : RoleRegistryResult → Reply
  -- `{"updated": n}`, `{"message": s}`, and the response with status 204
  updated : ℕ → Reply
  message : String → Reply
  no_content : Reply

-- `except ... as exc: raise HTTPException(status_code=...)`: the status of the exceptions that a
-- handler names. Another exception leaves the handler as it is.
unfoldable pub translated : (Error → Option ℕ) → Error → Error
translated status e = elim (status e) [ some code ↦ http_exception code | none ↦ e ]

module _ (services : Services) where
  pub record World : Type 0 where
    pub tables : Tables
    pub cache : CacheService × services.client.Server

  abbrev pub Cache : Type 0
  Cache = CacheService × services.client.Server

  abbrev pub Handler : Type 0
  Handler = World → Result Error Reply × World

  -- The end of a handler, after the result of its database operation: the exception becomes a
  -- response, or the cache is brought up to date and the result is sent.
  unfoldable pub finish :
      {A : Type 0}
      → (Error → Option ℕ)
      → (A → Cache → Cache)
      → (A → Reply)
      → Cache
      → Result Error A × Tables
      → Result Error Reply × World
  unfolding translated
  finish status after reply cache (raise e, tables) =
      (raise (translated status e), record { tables = tables; cache = cache })
  finish status after reply cache (ok a, tables) =
      (ok (reply a), record { tables = tables; cache = after a cache })
