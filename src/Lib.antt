-- ===== src/Lib.antt =====
-- AraNES LMS core: roles, users and permissions with their endpoints, the revocation of tokens, the
-- shared cache, translations, and the gateway that runs plugins.
--
-- The program is a FastAPI service over a SQL database (SQLAlchemy) and an optional Redis server.
-- A request is authenticated by a token (src/auth), becomes an actor with effective permissions
-- (src/user_role/middlewares.py), and changes roles and users (src/user_role/crud.py) or
-- translations (src/i18n/crud.py); answers are kept in Redis (src/utils/cache.py,
-- src/user_role/cache.py, src/i18n/cache.py). At its start the program seeds the default roles
-- (src/user_role/bootstrap.py). The endpoints of src/user_role/endpoints bring these together: a
-- request asks for a permission, is answered from the cache or by crud.py, and a change refreshes or
-- deletes the cached entries that it makes stale.
--
-- gateway_server/gateway.py is a program of its own: it discovers plugin directories, launches each
-- plugin's server on a free port, waits until it answers, merges the OpenAPI documents of all
-- plugins, and forwards requests to them.
--
-- Files, and what they model:
-- - Base, Base/*: shared names, Boolean tests, lists, results. Dict, Dict/Laws: Python's dict as an
--   association list in insertion order.
-- - Errors: the exceptions, src/user_role/exceptions.py among them.
-- - Permissions/Keys, Permissions/Defaults: the keys and the tables of defaults of
--   src/user_role/permission.py and src/i18n/permission.py. Permissions/Patch:
--   `validate_permission_patch`. Permissions/Registry: `RBACService`.
-- - Database: the tables of src/user_role/models.py, and the session of src/database.py. `Exec A`
--   takes a session (committed tables, pending tables, whether there are unflushed writes) to a
--   value or an exception and the session after it. `query` flushes first, as the session's
--   autoflush does; `with_session` is `get_db_session`.
-- - Rbac/Rows, Rbac/Roles, Rbac/Users: the functions of src/user_role/crud.py, by their names.
--   Rbac/Changes: the relation `Change` between committed tables, independent of sessions, that says
--   what one operation may do. Rbac/Requests: the operations as requests, each with a session of its
--   own, and sequences of them. Rbac/Effects/*: what an operation returns, in terms of the tables
--   that it leaves.
-- - Rbac/Seeding: src/user_role/bootstrap.py and `init_role_permissions_if_missing`; its children are
--   about filling permissions, filling them again, the match of a default role, and drift.
-- - Actor: src/user_role/middlewares.py; `RequestState` is `request.state`. Actor/Decision,
--   Actor/Failures, Actor/Caching: who passes, the exceptions, and the use of `request.state`.
-- - RedisCache: `RedisCacheService` of src/utils/cache.py over a `Client` whose calls answer or
--   fail. RbacCache: `RbacCacheService` of src/user_role/cache.py over it.
-- - Revocation/LocalCache, Revocation/Identity: the two `OrderedDict`s of src/auth/revocation.py,
--   oldest entry first. Revocation/Service: `is_token_revoked` and `revoke_token` of
--   src/auth/service.py, with the state of a process: local cache, clean-up times, shared cache,
--   table.
-- - I18n: src/i18n/crud.py and the registry of src/i18n/translates.py. I18n/Cache:
--   `I18nCacheService` of src/i18n/cache.py; its `get_large` is `get_large_entry`.
-- - Endpoints/World: the services of a request, and the world (tables and cache) that it changes.
--   Endpoints/Roles: src/user_role/endpoints/roles.py and role_registry.py. Endpoints/Users:
--   src/user_role/endpoints/users.py. Endpoints/Routes: the permission of each route, `respond`, and
--   sequences of requests. Endpoints/Coherence/*: `IsCoherent`, an entry of the cache is what the
--   tables give, and `uncached`, what the reading routes answer from the tables alone.
--   Endpoints/Guards: the permission that each route asks for.
-- - Gateway/Paths, Gateway/Json, Gateway/Openapi: the paths of gateway_server/gateway.py, JSON
--   documents, and `merge_openapi_documents`. Gateway/Manifest: `discover_services` and
--   `_load_manifest`. Gateway/Ports: `allocate_free_port`. Gateway/Readiness:
--   `wait_for_service_ready`. Gateway/Launch: `launch_services` and `shutdown_services`; `Gateway` is
--   the registry with the processes that run. Gateway/Proxy: `proxy_request`.
-- - Tests/*: the theorems at concrete inputs.
--
-- Parameters, for code outside of the repository: the database (`Engine`: new primary keys, the
-- message with which it refuses tables, `str.lower`), password hashing as a function, the Redis
-- client and `json`, pydantic's validation (`Schema`, `Entries`), AuthX's verification of tokens,
-- sha256, the methods of `str` in `Text`, the print and the parse of dates; for the gateway the
-- operating system (`System`: which ports bind, whether `Popen` succeeds, what a probe of a process
-- finds), Python's conversions (`Python`) and the HTTP client (`Upstream`). What a theorem needs of
-- one of them stands in its hypotheses: `IsAutoincrement`, `IsUserAutoincrement`, `IsStore`,
-- `IsCodec`, `IsEvicting`, `IsReliable` (a Redis server that answers and keeps what it is told),
-- `IsFaithful` (validation gives back what was dumped), `IsClock` (the clock advances with every
-- round).
--
-- Numbers: primary keys, counts and lengths are natural numbers. An instant is a number of
-- microseconds, the clock an argument, and the ttl of the local cache, which the source reads from
-- the environment, a parameter. Loops are structural recursion over the lists that the source
-- iterates. Two loops run on fuel: `allocate_free_port` with one round for each port up to 65535,
-- where the search ends, and `wait_for_service_ready` with timeout + 1 rounds, each of which takes
-- at least one unit of the clock. The sleeps of `heartbeat_loop` are computed for a finite list of
-- pings.
--
-- Not modelled: the HTTP framework, the constraints on the fields of request bodies, the i18n
-- endpoints, sign-up and login, src/plugins, rate limiting, the gateway's lifespan and its docs,
-- health, ready and services routes, the signals that end a process, configuration, start-up wiring,
-- logging and profiling, migrations; the asyncio task of the heartbeat; `PermissionService`; a
-- manifest that is not UTF-8 or has a number too large for a float, on both of which `_load_manifest`
-- raises. Calls run one after the other: two requests never interleave inside an operation.
pub mod Base
pub mod Dict
pub mod Errors
pub mod Permissions
pub mod Database
pub mod Rbac
pub mod Actor
pub mod RedisCache
pub mod RbacCache
pub mod Endpoints
pub mod Gateway
pub mod Revocation
pub mod I18n
pub mod Tests
