-- ===== src/Revocation/LocalCache.antt =====
-- The local cache of revocation answers, `_cache_revocation_status` of src/auth/revocation.py.
pub mod Newest
pub mod Others
use ara_nes_lms_core.Base.{
  string_eq, ℕ, ◌+◌, String, Bool, true, false, Option, none, some, List, [], ◌∷◌, ◌++◌, length,
  ltb, leb, if◌then◌else◌,
}
use Prim.Native.Nat.{min}
use ara_nes_lms_core.Dict.{Dict, get, set, pop}

-- `OrderedDict[str, tuple[bool, datetime]]`, the oldest entry first
abbrev pub LocalCache : Type 0
LocalCache = Dict String (Bool × ℕ)

-- `_TOKEN_REVOCATION_CACHE_MAX_ENTRIES`
abbrev pub token_revocation_cache_max_entries : ℕ
token_revocation_cache_max_entries = 4096

-- `OrderedDict.move_to_end(key)`, for a key that is there
unfoldable pub move_to_end : {V : Type 0} → Dict String V → String → Dict String V
move_to_end cache key = elim (get cache key) [
  | none ↦ cache
  | some v ↦ pop cache key ++ (key, v) ∷ []
]

-- `for key, (_, valid_until) in list(cache.items()): if valid_until <= now: cache.pop(key, None)`
unfoldable pub drop_expired : ℕ → LocalCache → LocalCache → LocalCache
drop_expired now [] cache = cache
drop_expired now ((key, (_, valid_until)) ∷ items) cache =
    drop_expired now items (if leb valid_until now then pop cache key else cache)

-- `while len(cache) > max_entries: cache.popitem(last=False)`
unfoldable pub shrink : {V : Type 0} → ℕ → Dict String V → Dict String V
shrink max_entries [] = []
shrink max_entries (e ∷ cache) =
    let rest = shrink max_entries cache in
    if ltb max_entries (length (e ∷ cache)) then rest else e ∷ cache

-- The instant until which an answer is cached; `ttl` is `_get_token_revocation_cache_ttl_seconds()`.
unfoldable pub cache_until_of : ℕ → Bool → ℕ → ℕ → ℕ
cache_until_of ttl revoked now expires_at =
    if revoked then expires_at else min expires_at (now + ttl)

-- `cache[jti] = (revoked, cache_until); cache.move_to_end(jti)`
unfoldable pub put_newest : {V : Type 0} → Dict String V → String → V → Dict String V
unfolding move_to_end
put_newest cache jti v = move_to_end (set cache jti v) jti

unfoldable pub make_room : ℕ → LocalCache → LocalCache
unfolding drop_expired shrink
make_room now cache =
    if ltb token_revocation_cache_max_entries (length cache)
    then shrink token_revocation_cache_max_entries (drop_expired now cache cache)
    else cache

unfoldable pub cache_revocation_status : ℕ → LocalCache → String → Bool → ℕ → ℕ → LocalCache
unfolding cache_until_of put_newest make_room
cache_revocation_status ttl cache jti revoked now expires_at =
    make_room now (put_newest cache jti (revoked, cache_until_of ttl revoked now expires_at))
