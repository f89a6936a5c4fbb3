-- ===== src/Tests/Tokens.antt =====
-- A token that is revoked in a process whose local cache says that it is not.
use ara_nes_lms_core.Base.{
  string_eq, nat_eq, ◌≤◌, String, true, false, none, some, List, [], ◌∷◌, ◌≡◌, refl, arith, length,
  ◌==◌, if◌then◌else◌,
}
use ara_nes_lms_core.Dict.{get}
use ara_nes_lms_core.RedisCache.{Client, answered, Json, dict}
use ara_nes_lms_core.Revocation.LocalCache.{
  LocalCache, cache_revocation_status, cache_until_of, token_revocation_cache_max_entries,
}
use ara_nes_lms_core.Revocation.LocalCache.Newest.{
  length-cache_revocation_status, get-cache_revocation_status,
}
use ara_nes_lms_core.Revocation.LocalCache.Others.{get-cache_revocation_status_inv}
use ara_nes_lms_core.Revocation.Identity.{
  IdentityCache, Verified, claims, resolve_revocation_identity, token_identity_cache_max_entries,
}
use ara_nes_lms_core.Revocation.Identity.Bounds.{length-resolve_revocation_identity}
use ara_nes_lms_core.Revocation.Service.{Setting, Process, Payload, is_token_revoked, revoke_token}
use ara_nes_lms_core.Revocation.Service.Safety.{
  Event, asked, revoked, happen, is_token_revoked-revoke_token,
}

abbrev cache : LocalCache
cache = ("1:2:a", (false, 50)) ∷ []

length-cache_revocation_status_example :
    length (cache_revocation_status 60 cache "1:2:b" true 10 90)
    ≤ token_revocation_cache_max_entries
length-cache_revocation_status_example = length-cache_revocation_status 60 cache "1:2:b" true 10 90

get-cache_revocation_status_example :
    get (cache_revocation_status 60 cache "1:2:b" true 10 90) "1:2:b"
    ≡ some (true, cache_until_of 60 true 10 90)
unfolding get cache_until_of
get-cache_revocation_status_example =
    get-cache_revocation_status 60 cache "1:2:b" true 10 90 (refl, tt) (omega arith)

kept : get (cache_revocation_status 60 cache "1:2:b" true 10 90) "1:2:b" ≡ some (true, 90)
unfolding get cache_until_of
kept = get-cache_revocation_status 60 cache "1:2:b" true 10 90 (refl, tt) (omega arith)

abbrev b : String
b = "1:2:b"

get-cache_revocation_status_inv_example :
    (if b == b then some (true, cache_until_of 60 true 10 90) else get cache b) ≡ some (true, 90)
unfolding get
get-cache_revocation_status_inv_example =
    get-cache_revocation_status_inv 60 cache "1:2:b" true 10 90 (refl, tt) b (true, 90) kept

abbrev verify_token : String → Verified
verify_token token = claims (some token) (some 90)

abbrev same_text : String → String
same_text s = s

abbrev identities : IdentityCache
identities = []

length-resolve_revocation_identity_example :
    length (resolve_revocation_identity verify_token same_text "1" "a" 10 identities).1
    ≤ token_identity_cache_max_entries
length-resolve_revocation_identity_example =
    length-resolve_revocation_identity verify_token same_text "1" "a" 10 identities (omega arith)

abbrev client : Client
client = record {
  Server = Unit;
  get = λ key server. (answered none, server);
  set = λ key text ttl server. (answered tt, server);
  delete = λ keys server. (answered tt, server);
  ping = λ server. (answered true, server);
}

abbrev json : Json Payload
json = record { loads = λ s. dict (record { revoked = none; expires_at = none }); dumps = λ p. "" }

abbrev setting : Setting
setting = record {
  client = client;
  json = json;
  isoformat = λ n. "";
  fromisoformat = λ s. none;
  local_prefix = "1:2:";
  engine_id = 2;
  ttl = 60;
}

abbrev process : Process setting
process = record { local = cache; cleanup_due = []; shared = none; table = ("b", 20) ∷ [] }

abbrev events : List Event
events = asked "a" 90 31 ∷ revoked "b" 70 32 33 ∷ []

is_token_revoked-revoke_token_example :
    (is_token_revoked setting "a" 90 40
      (happen setting events (revoke_token setting "a" 90 30 30 process))).0
    ≡ true
unfolding get
is_token_revoked-revoke_token_example =
    is_token_revoked-revoke_token setting process "a" 90 30 30 refl (refl, tt) (refl, tt) events
      (omega arith, ((omega arith, λ same. ground arith), tt)) 90 40 (omega arith)
