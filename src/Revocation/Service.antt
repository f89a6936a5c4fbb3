-- ===== src/Revocation/Service.antt =====
-- `is_token_revoked` and `revoke_token` of src/auth/service.py, with the shared cache of
-- src/auth/revocation.py. The clock is an argument; what prints and reads dates, the prefix of
-- the local keys (the ids of the security object and the engine) and the ttl from the environment
-- are parameters.
pub mod Rows
pub mod Steps
pub mod Safety
use ara_nes_lms_core.Base.{
  nat_eq, string_eq, ℕ, ◌+◌, ◌-◌, String, Bool, true, false, Option, none, some, List, [], ◌∷◌, ltb,
  leb, ◌==◌, if◌then◌else◌, filter, not, ◌++◌ as ◌++ᴸ◌,
}
use Prim.Native.Nat.{◌/◌, max, min}
use Prim.Native.String.{◌++◌}
use ara_nes_lms_core.Dict.{Dict, get, set, pop}
use ara_nes_lms_core.RedisCache
use ara_nes_lms_core.RedisCache.{Client, Json}
use ara_nes_lms_core.Revocation.LocalCache.{
  LocalCache, move_to_end, cache_revocation_status, cache_until_of,
}

-- The dictionary in the shared cache: `revoked` if it is a `bool`, `expires_at` if it is a `str`.
pub record Payload : Type 0 where
  pub revoked : Option Bool
  pub expires_at : Option String

-- `fromisoformat` is `_normalize_expiry(datetime.fromisoformat(text))`, `none` its `ValueError`.
pub record Setting : Type 1 where
  pub client : Client
  pub json : Json Payload
  pub isoformat : ℕ → String
  pub fromisoformat : String → Option ℕ
  pub local_prefix : String
  pub engine_id : ℕ
  pub ttl : ℕ

-- `_REVOCATION_EXPIRY_CLEANUP_INTERVAL`, one minute in microseconds
abbrev pub revocation_expiry_cleanup_interval : ℕ
revocation_expiry_cleanup_interval = 60000000

-- `jti` to `expires_at`
abbrev pub Table : Type 0
Table = Dict String ℕ

abbrev pub remove_expired : ℕ → Table → Table
remove_expired now table = filter (λ row. not (leb row.1 now)) table

-- `_build_revocation_cache_key`
unfoldable pub build_revocation_cache_key : String → String
build_revocation_cache_key jti = "auth:revoked:" ++ jti

module _ (setting : Setting) where
  open setting use {client, json, isoformat, fromisoformat, local_prefix, engine_id, ttl}

  -- `shared` is the cache service with its server, or `None`.
  pub record Process : Type 0 where
    pub local : LocalCache
    pub cleanup_due : Dict ℕ ℕ
    pub shared : Option (RedisCache.State client)
    pub table : Table

  -- `_build_local_revocation_cache_key`
  unfoldable pub build_local_revocation_cache_key : String → String
  build_local_revocation_cache_key jti = local_prefix ++ jti

  abbrev dated :
      String → ℕ → Bool → Option ℕ → RedisCache.State client → Option Bool × RedisCache.State client
  dated jti now revoked none s = (none, RedisCache.delete client (build_revocation_cache_key jti) s)
  dated jti now revoked (some expires_at) s =
      if leb expires_at now
      then (none, RedisCache.delete client (build_revocation_cache_key jti) s)
      else (some revoked, s)

  abbrev typed :
      String
      → ℕ
      → Option Bool
      → Option String
      → RedisCache.State client
      → Option Bool × RedisCache.State client
  typed jti now (some revoked) (some expires_at_raw) s =
      dated jti now revoked (fromisoformat expires_at_raw) s
  typed jti now _ _ s = (none, s)

  abbrev status_in :
      String → ℕ → Option Payload × RedisCache.State client → Option Bool × RedisCache.State client
  status_in jti now (none, s) = (none, s)
  status_in jti now (some payload, s) = typed jti now payload.revoked payload.expires_at s

  unfoldable pub get_cached_revocation_status :
      String → ℕ → Option (RedisCache.State client) → Option Bool × Option (RedisCache.State client)
  get_cached_revocation_status jti now none = (none, none)
  get_cached_revocation_status jti now (some s) =
      let (status, s') =
        status_in jti now (RedisCache.get_json client json (build_revocation_cache_key jti) s) in
      (status, some s')

  unfoldable pub set_cached_revocation_status :
      String → Bool → ℕ → ℕ → Option (RedisCache.State client) → Option (RedisCache.State client)
  set_cached_revocation_status jti revoked now expires_at none = none
  set_cached_revocation_status jti revoked now expires_at (some s) =
      let cache_until = cache_until_of ttl revoked now expires_at in
      let ttl_seconds = max ((cache_until - now) / 1000000) 1 in
      some (
        RedisCache.set_json client json (build_revocation_cache_key jti)
          (record { revoked = some revoked; expires_at = some (isoformat expires_at) })
          (some ttl_seconds) s)

  abbrev is_due : ℕ → Option ℕ → Bool
  is_due now none = true
  is_due now (some due_at) = leb due_at now

  unfoldable pub should_cleanup_expired_revocations : ℕ → Dict ℕ ℕ → Bool × Dict ℕ ℕ
  should_cleanup_expired_revocations now due =
      if is_due now (get due engine_id)
      then (true, set due engine_id (now + revocation_expiry_cleanup_interval))
      else (false, due)

  unfoldable pub store_revoked_jti : String → ℕ → ℕ → Process → Process
  unfolding should_cleanup_expired_revocations
  store_revoked_jti jti expires_at now p =
      let (cleanup, due) = should_cleanup_expired_revocations now p.cleanup_due in
      let table = if cleanup then remove_expired now p.table else p.table in
      record p { cleanup_due = due; table = pop table jti ++ᴸ (jti, expires_at) ∷ [] }

  -- `_cache_revocation_status` and `_set_cached_revocation_status`, one after the other.
  abbrev pub record_status : String → Bool → ℕ → ℕ → Process → Process
  record_status jti revoked now expires_at p = record p {
    local =
        cache_revocation_status ttl p.local (build_local_revocation_cache_key jti) revoked now
          expires_at;
    shared = set_cached_revocation_status jti revoked now expires_at p.shared;
  }

  -- The row of the table, for an identifier that neither cache answers.
  abbrev pub answer_from_row : String → ℕ → ℕ → Option ℕ → Process → Bool × Process
  answer_from_row jti token_exp now none p = (false, record_status jti false now token_exp p)
  answer_from_row jti token_exp now (some expires_at) p =
      if leb expires_at now
      then (false, record_status jti false now token_exp (record p { table = pop p.table jti }))
      else (true, record_status jti true now expires_at p)

  abbrev pub answer_from_shared :
      String → ℕ → ℕ → Option Bool × Option (RedisCache.State client) → Process → Bool × Process
  answer_from_shared jti token_exp now (none, shared) p =
      answer_from_row jti token_exp now (get p.table jti) (record p { shared = shared })
  answer_from_shared jti token_exp now (some revoked, shared) p = (
    revoked,
    record p {
      shared = shared;
      local =
          cache_revocation_status ttl p.local (build_local_revocation_cache_key jti) revoked now
            token_exp;
    },
  )

  unfoldable pub ask_shared : String → ℕ → ℕ → Process → Bool × Process
  unfolding get_cached_revocation_status
  ask_shared jti token_exp now p =
      answer_from_shared jti token_exp now (get_cached_revocation_status jti now p.shared) p

  abbrev pub answer_from_local : String → ℕ → ℕ → Option (Bool × ℕ) → Process → Bool × Process
  answer_from_local jti token_exp now none p = ask_shared jti token_exp now p
  answer_from_local jti token_exp now (some (cached_revoked, cached_until)) p =
      if ltb now cached_until
      then (
        cached_revoked,
        record p { local = move_to_end p.local (build_local_revocation_cache_key jti) },
      )
      else ask_shared jti token_exp now
          (record p { local = pop p.local (build_local_revocation_cache_key jti) })

  -- `is_token_revoked`, from the identity of the token on.
  unfoldable pub is_token_revoked : String → ℕ → ℕ → Process → Bool × Process
  unfolding ask_shared
  is_token_revoked token_jti token_exp now p =
      answer_from_local token_jti token_exp now
        (get p.local (build_local_revocation_cache_key token_jti)) p

  -- `revoke_token`, from the identity of the token on; it reads the clock twice.
  unfoldable pub revoke_token : String → ℕ → ℕ → ℕ → Process → Process
  unfolding store_revoked_jti
  revoke_token token_jti expires_at stored_at now p =
      record_status token_jti true now expires_at
        (store_revoked_jti token_jti expires_at stored_at p)
