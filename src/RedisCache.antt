-- ===== src/RedisCache.antt =====
-- `RedisCacheService` and `resolve_heartbeat_delay` of src/utils/cache.py. The Redis client and
-- `json` are parameters: a call answers or fails with some exception, and changes the server.
pub mod Availability
pub mod RoundTrip
pub mod Heartbeat
use ara_nes_lms_core.Base.{
  ℕ, zero, suc, ◌-◌, ◌+◌, String, Bool, true, false, not, ◌&&◌, ◌||◌, Option, none, some, List, [],
  ◌∷◌, length, is_empty, if◌then◌else◌, nat_eq, ◌==◌,
}
use Prim.Native.Nat.{min, max}

-- What `await` of a client's call gives.
pub data Reply (A : Type 0) : Type 0 where
  answered : A → Reply A
  failed : Reply A

pub record Client : Type 1 where
  pub Server : Type 0
  pub get : String → Server → Reply (Option String) × Server
  pub set : String → String → ℕ → Server → Reply (Unit {0}) × Server
  pub delete : List String → Server → Reply (Unit {0}) × Server
  pub ping : Server → Reply Bool × Server

-- The result of `json.loads`: an error, a dictionary, or another value.
pub data Parsed (P : Type 0) : Type 0 where
  malformed not_dict : Parsed P
  dict : P → Parsed P

pub record Json (P : Type 0) : Type 0 where
  pub loads : String → Parsed P
  pub dumps : P → String

-- The fields that the methods below read or write; `has_client` is `self.client is not None`.
pub record CacheService : Type 0 where
  pub enabled : Bool
  pub has_client : Bool
  pub available : Bool
  pub default_ttl_seconds : ℕ

abbrev pub is_available : CacheService → Bool
is_available c = c.enabled && c.available && c.has_client

unfoldable pub mark_unavailable : CacheService → CacheService
mark_unavailable c = record c { available = false }

-- `__post_init__`: whether the package is there, and whether `Redis.from_url` returned.
unfoldable pub init : Bool → ℕ → Bool → Bool → CacheService
init enabled default_ttl_seconds has_package connected = record {
  enabled = enabled && has_package && connected;
  has_client = enabled && has_package && connected;
  available = false;
  default_ttl_seconds = default_ttl_seconds;
}

-- `if not self.enabled or self.client is None`
abbrev pub is_off : CacheService → Bool
is_off c = not c.enabled || not c.has_client

-- `ttl_seconds or self.default_ttl_seconds`
abbrev pub ttl_or_default : Option ℕ → CacheService → ℕ
ttl_or_default none c = c.default_ttl_seconds
ttl_or_default (some n) c = if n == 0 then c.default_ttl_seconds else n

module _ (client : Client) where
  open client use {Server}

  abbrev pub State : Type 0
  State = CacheService × Server

  -- `except Exception: self.mark_unavailable()` after a call whose answer is dropped
  abbrev note_failure : CacheService → Reply (Unit {0}) × Server → State
  note_failure c (answered _, server) = (c, server)
  note_failure c (failed, server) = (mark_unavailable c, server)

  abbrev pong : CacheService → Reply Bool × Server → Bool × State
  pong c (answered b, server) = (b, (record c { available = b }, server))
  pong c (failed, server) = (false, (record c { available = false }, server))

  unfoldable pub ping : State → Bool × State
  ping (c, server) =
      if is_off c
      then (false, (record c { available = false }, server))
      else pong c (client.ping server)

  unfoldable pub delete : String → State → State
  unfolding mark_unavailable
  delete key (c, server) =
      if is_off c then (c, server) else note_failure c (client.delete (key ∷ []) server)

  unfoldable pub delete_many : List String → State → State
  unfolding mark_unavailable
  delete_many keys (c, server) =
      if is_empty keys || is_off c then (c, server) else note_failure c (client.delete keys server)

  module _ {P : Type 0} (json : Json P) where
    unfoldable pub set_json : String → P → Option ℕ → State → State
    unfolding mark_unavailable
    set_json key payload ttl_seconds (c, server) =
        if is_off c
        then (c, server)
        else note_failure c
            (client.set key (json.dumps payload) (ttl_or_default ttl_seconds c) server)

    abbrev load : String → CacheService → Server → Parsed P → Option P × State
    load key c server malformed = (none, note_failure c (client.delete (key ∷ []) server))
    load key c server not_dict = (none, (c, server))
    load key c server (dict payload) = (some payload, (c, server))

    abbrev read : String → CacheService → Reply (Option String) × Server → Option P × State
    read key c (failed, server) = (none, (mark_unavailable c, server))
    read key c (answered none, server) = (none, (c, server))
    read key c (answered (some raw), server) = load key c server (json.loads raw)

    unfoldable pub get_json : String → State → Option P × State
    unfolding mark_unavailable
    get_json key (c, server) =
        if is_off c then (none, (c, server)) else read key c (client.get key server)

-- `schedule[index]`
abbrev pub item_at : List ℕ → ℕ → ℕ
item_at [] i = 0
item_at (d ∷ ds) zero = d
item_at (d ∷ ds) (suc i) = item_at ds i

-- The subtraction stops at 0, as `max(failure_count - 1, 0)` does.
unfoldable pub resolve_heartbeat_delay : List ℕ → ℕ → ℕ
resolve_heartbeat_delay schedule failure_count =
    if is_empty schedule
    then 43200
    else item_at schedule (min (failure_count - 1) (length schedule - 1))

-- One round of `heartbeat_loop`: from the count of failures and the result of `ping` to the new
-- count and the seconds of the sleep.
unfoldable pub heartbeat_round : List ℕ → ℕ → Bool → ℕ × ℕ
unfolding resolve_heartbeat_delay
heartbeat_round schedule failure_count ok =
    let schedule' = if is_empty schedule then 43200 ∷ [] else schedule in
    let count = if ok then 0 else failure_count + 1 in
    (count, resolve_heartbeat_delay schedule' count)

-- The sleeps of the loop over the results of its pings.
unfoldable pub heartbeat_loop : List ℕ → ℕ → List Bool → List ℕ
unfolding heartbeat_round
heartbeat_loop schedule failure_count [] = []
heartbeat_loop schedule failure_count (ok ∷ pings) =
    let (count, delay) = heartbeat_round schedule failure_count ok in
    delay ∷ heartbeat_loop schedule count pings
