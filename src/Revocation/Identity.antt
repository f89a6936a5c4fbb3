-- ===== src/Revocation/Identity.antt =====
-- `_extract_jti_and_exp` and `_resolve_revocation_identity` of src/auth/revocation.py: the
-- identifier under which a token is revoked, and the instant until which it would be valid.
-- The verification of tokens (AuthX), `sha256` and the print of `id(security)` are parameters.
pub mod Bounds
use ara_nes_lms_core.Base.{
  string_eq, ℕ, ◌+◌, String, Bool, Option, none, some, List, [], ◌∷◌, ltb, ◌==◌, if◌then◌else◌,
}
use Prim.Native.String.{◌++◌}
use ara_nes_lms_core.Dict.{Dict, get, pop}
use ara_nes_lms_core.Revocation.LocalCache.{move_to_end, put_newest, shrink}

-- `OrderedDict[str, tuple[str, datetime]]`
abbrev pub IdentityCache : Type 0
IdentityCache = Dict String (String × ℕ)

-- `security.verify_token(...)`: it raises, or gives the claims `jti` and `exp`, each of which may
-- be missing; `exp` is `none` also where it is no date.
pub data Verified : Type 0 where
  refused : Verified
  claims : Option String → Option ℕ → Verified

-- `FALLBACK_RAW_TOKEN_TTL`, 30 days in microseconds
abbrev pub fallback_raw_token_ttl : ℕ
fallback_raw_token_ttl = 2592000000000

abbrev pub token_identity_cache_max_entries : ℕ
token_identity_cache_max_entries = 2048

module _ (verify_token : String → Verified) (sha256 : String → String) (security_id : String) where
  unfoldable pub build_raw_token_revocation_key : String → String
  build_raw_token_revocation_key token = "raw:" ++ sha256 token

  unfoldable pub build_token_identity_cache_key : String → String
  build_token_identity_cache_key token = (security_id ++ ":") ++ sha256 token

  -- `if not token_jti: raise ValueError(...)`: an empty identifier counts as missing.
  abbrev pub present : Option String → Option String
  present none = none
  present (some jti) = if jti == "" then none else some jti

  abbrev pub remember :
      String → Option String → Option ℕ → IdentityCache → Option (String × ℕ) × IdentityCache
  remember key (some jti) (some exp) cache =
      (some (jti, exp), shrink token_identity_cache_max_entries (put_newest cache key (jti, exp)))
  remember key _ _ cache = (none, cache)

  abbrev pub verified : String → Verified → IdentityCache → Option (String × ℕ) × IdentityCache
  verified key refused cache = (none, cache)
  verified key (claims jti exp) cache = remember key (present jti) exp cache

  abbrev known :
      String
      → ℕ
      → String
      → Option (String × ℕ)
      → IdentityCache
      → Option (String × ℕ) × IdentityCache
  known token now key none cache = verified key (verify_token token) cache
  known token now key (some (jti, exp)) cache =
      if ltb now exp
      then (some (jti, exp), move_to_end cache key)
      else verified key (verify_token token) (pop cache key)

  -- `none` is the `ValueError` of the function.
  unfoldable pub extract_jti_and_exp :
      String → ℕ → IdentityCache → Option (String × ℕ) × IdentityCache
  unfolding build_token_identity_cache_key
  extract_jti_and_exp token now cache =
      let key = build_token_identity_cache_key token in known token now key (get cache key) cache

  abbrev or_raw : String → ℕ → Option (String × ℕ) × IdentityCache → (String × ℕ) × IdentityCache
  or_raw token now (some identity, cache) = (identity, cache)
  or_raw token now (none, cache) =
      ((build_raw_token_revocation_key token, now + fallback_raw_token_ttl), cache)

  unfoldable pub resolve_revocation_identity :
      String → ℕ → IdentityCache → (String × ℕ) × IdentityCache
  unfolding extract_jti_and_exp build_raw_token_revocation_key
  resolve_revocation_identity token now cache =
      or_raw token now (extract_jti_and_exp token now cache)
