-- ===== src/RedisCache/RoundTrip.antt =====
-- What `get_json` reads after `set_json`.
use ara_nes_lms_core.Base.{ℕ, String, false, Option, some, ◌≡◌, arith}
use ara_nes_lms_core.RedisCache.{
  Client, answered, Json, dict, CacheService, is_off, ttl_or_default, set_json, get_json,
}

-- What the client promises of SET and GET, and `json` of dumping and loading a dictionary.
pub record IsStore (client : Client) : Type 0 where
  pub get-set :
      (key text : String) (ttl : ℕ) (s : client.Server)
      → (client.set key text ttl s).0 ≡ answered tt
      → (client.get key (client.set key text ttl s).1).0 ≡ answered (some text)

pub record IsCodec {P : Type 0} (json : Json P) : Type 0 where
  pub loads-dumps : (payload : P) → json.loads (json.dumps payload) ≡ dict payload

module _ (client : Client) (store : IsStore client) {P : Type 0} (json : Json P)
    (codec : IsCodec json) where
  -- With a server that gives what it has set, and a `json` that loads what it has dumped: if the
  -- service is on and the server answers the write, then the dictionary that was written is what
  -- is read next under the key.
  pub get_json-set_json :
      (key : String) (payload : P) (ttl : Option ℕ) (c : CacheService) (server : client.Server)
      → is_off c ≡ false
      → (client.set key (json.dumps payload) (ttl_or_default ttl c) server).0 ≡ answered tt
      → (get_json client json key (set_json client json key payload ttl (c, server))).0
        ≡ some payload
  unfolding get_json set_json
  get_json-set_json key payload ttl c server on written = ground (
    arith,
    store.get-set key (json.dumps payload) (ttl_or_default ttl c) server written,
    codec.loads-dumps payload,
  )
