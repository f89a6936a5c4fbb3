-- ===== src/Tests/Caches.antt =====
-- The shared cache on a server that never fails.
use ara_nes_lms_core.Base.{
  nat_eq, string_eq, pair_eq, ℕ, String, true, false, Option, none, some, List, [], ◌∷◌, ◌≡◌, refl,
  any, ◌==◌, ==_refl, if◌then◌else◌,
}
use ara_nes_lms_core.RedisCache.{
  Client, answered, Json, dict, CacheService, is_available, get_json, set_json,
}
use ara_nes_lms_core.RedisCache.Availability.{
  Call, get_call, set_call, delete_call, after_all, after_all-is_available,
}
use ara_nes_lms_core.RedisCache.RoundTrip.{IsStore, IsCodec, get_json-set_json}
use ara_nes_lms_core.RbacCache.{
  Schema, get_role, get_role_list, get_item, get_items, normalize_item, normalize_list,
  ids_are_strictly_increasing,
}
use ara_nes_lms_core.RbacCache.Coherence.{IsEvicting}
use ara_nes_lms_core.I18n.Cache.{Entries, get_large_entry, get_entry, normalize_entry}

abbrev client : Client
client = record {
  Server = String → Option String;
  get = λ key server. (answered (server key), server);
  set = λ key text ttl server. (answered tt, λ k. if key == k then some text else server k);
  delete = λ keys server. (answered tt, λ k. if any (λ j. j == k) keys then none else server k);
  ping = λ server. (answered true, server);
}

client-IsStore : IsStore client
client-IsStore = record { get-set = λ key text ttl s h. rw (==_refl key) refl }

client-IsEvicting : IsEvicting client
client-IsEvicting = record { get-delete = λ keys key s among h. rw among refl }

abbrev json : Json String
json = record { loads = λ s. dict s; dumps = λ s. s }

json-IsCodec : IsCodec json
json-IsCodec = record { loads-dumps = λ payload. refl }

abbrev service : CacheService
service = record { enabled = true; has_client = true; available = false; default_ttl_seconds = 60 }

abbrev off : CacheService
off = record { enabled = false; has_client = false; available = false; default_ttl_seconds = 60 }

abbrev server : String → Option String
server key = some "4"

abbrev calls : List (Call String)
calls = set_call "a" "b" none ∷ get_call "a" ∷ delete_call "a" ∷ []

after_all-is_available_example :
    is_available (after_all client json calls (service, server)).0 ≡ false
after_all-is_available_example = after_all-is_available client json calls (service, server) refl

get_json-set_json_example :
    (get_json client json "a" (set_json client json "a" "b" none (service, server))).0 ≡ some "b"
get_json-set_json_example =
    get_json-set_json client client-IsStore json json-IsCodec "a" "b" none service server refl refl

abbrev schema : Schema String
schema = record {
  Item = ℕ;
  id = λ n. n;
  model_validate = λ payload. if payload == "4" then some 4 else none;
  validate_items = λ payload. some (1 ∷ 4 ∷ []);
  model_dump = λ n. "4";
  dump_items = λ items. "4";
}

abbrev str : ℕ → String
str n = if n == 4 then "4" else "0"

answered_role : (get_role client json schema str 4 (service, server)).0 ≡ some 4
unfolding get_role get_item normalize_item get_json
answered_role = refl

answered_list : (get_role_list client json schema (service, server)).0 ≡ some (1 ∷ 4 ∷ [])
unfolding get_role_list get_items normalize_list get_json ids_are_strictly_increasing
answered_list = refl

abbrev pairs : Entries (String × String) String
pairs = record {
  Item = String × String;
  key_of = λ item. item;
  model_validate = λ payload. some ("course", "text");
  validate_items = λ payload. none;
  dump_items = λ items. "";
}

abbrev singles : Entries String String
singles = record {
  Item = String;
  key_of = λ item. item;
  model_validate = λ payload. some payload;
  validate_items = λ payload. none;
  dump_items = λ items. "";
}

abbrev str_len : String → String
str_len s = "6"

answered_large :
    (get_large_entry client json pairs str_len "course" "text" (service, server)).0
    ≡ some ("course", "text")
unfolding get_large_entry get_entry normalize_entry get_json
answered_large = refl
