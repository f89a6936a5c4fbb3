-- ===== src/RedisCache/Availability.antt =====
-- When the service is available.
use ara_nes_lms_core.Base.{ℕ, String, true, false, Option, List, [], ◌∷◌, ◌≡◌, refl, arith}
use ara_nes_lms_core.RedisCache.{
  Client, Json, is_available, is_off, State, ping, delete, delete_many, set_json, get_json,
}

-- The calls of the service's methods.
pub data Call (P : Type 0) : Type 0 where
  get_call : String → Call P
  set_call : String → P → Option ℕ → Call P
  delete_call : String → Call P
  delete_many_call : List String → Call P

module _ (client : Client) {P : Type 0} (json : Json P) where
  unfoldable pub after : Call P → State client → State client
  after (get_call key) s = (get_json client json key s).1
  after (set_call key payload ttl) s = set_json client json key payload ttl s
  after (delete_call key) s = delete client key s
  after (delete_many_call keys) s = delete_many client keys s

  unfoldable pub after_all : List (Call P) → State client → State client
  after_all [] s = s
  after_all (call ∷ calls) s = after_all calls (after call s)

  after-is_available :
      (call : Call P) (s : State client)
      → is_available s.0 ≡ false
      → is_available (after call s).0 ≡ false
  unfolding after get_json set_json delete delete_many
  after-is_available (get_call key) (c, server) h = ground arith
  after-is_available (set_call key payload ttl) (c, server) h = ground arith
  after-is_available (delete_call key) (c, server) h = ground arith
  after-is_available (delete_many_call keys) (c, server) h = ground arith

  -- A service that is unavailable stays so through any calls of the methods that read, write and
  -- delete.
  pub after_all-is_available :
      (calls : List (Call P)) (s : State client)
      → is_available s.0 ≡ false
      → is_available (after_all calls s).0 ≡ false
  unfolding after_all
  after_all-is_available [] s h = h
  after_all-is_available (call ∷ calls) s h =
      after_all-is_available calls (after call s) (after-is_available call s h)

  after_off : (call : Call P) (s : State client) → is_off s.0 ≡ true → after call s ≡ s
  unfolding after get_json set_json delete delete_many
  after_off (get_call key) (c, server) h = ground arith
  after_off (set_call key payload ttl) (c, server) h = ground arith
  after_off (delete_call key) (c, server) h = ground arith
  after_off (delete_many_call keys) (c, server) h = ground arith

  -- No sequence of calls changes a service that is disabled or has no client, nor the server.
  pub after_all_off :
      (calls : List (Call P)) (s : State client) → is_off s.0 ≡ true → after_all calls s ≡ s
  unfolding after_all
  after_all_off [] s h = refl
  after_all_off (call ∷ calls) s h = rw (after_off call s h) (after_all_off calls s h)

  -- What `ping` returns is whether the service is available afterwards.
  pub ping-is_available : (s : State client) → is_available (ping client s).1.0 ≡ (ping client s).0
  unfolding ping
  ping-is_available (c, server) = ground arith
