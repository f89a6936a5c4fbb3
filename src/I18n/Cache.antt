-- ===== src/I18n/Cache.antt =====
-- `I18nCacheService` of src/i18n/cache.py: translations in the shared cache. Pydantic's validation
-- is a parameter, as is the decimal print of `len(key)`.
pub mod Coherence
use ara_nes_lms_core.Base.{
  Eq, string_eq, pair_eq, ℕ, String, Bool, true, false, not, Option, none, some, List, [], ◌∷◌,
  is_empty, str_le, ◌==◌, if◌then◌else◌,
}
use Prim.Native.String.{◌++◌}
use ara_nes_lms_core.RedisCache
use ara_nes_lms_core.RedisCache.{Client, Json}
use ara_nes_lms_core.RbacCache.{from_keys}
use ara_nes_lms_core.I18n.{pair_le, build_small_cache_key, build_small_list_cache_key}

-- `P` is the type of dictionaries. `model_validate` and `validate_items` (the latter of the value
-- under "items") give `none` where they raise `ValidationError`.
pub record Entries (K P : Type 0) : Type 1 where
  pub Item : Type 0
  pub key_of : Item → K
  pub model_validate : P → Option Item
  pub validate_items : P → Option (List Item)
  pub dump_items : List Item → P

unfoldable pub build_large_cache_key : (String → String) → String → String → String
build_large_cache_key str_len key1 key2 =
    "i18n:large:" ++ (str_len key1 ++ (":" ++ (key1 ++ ("|" ++ (str_len key2 ++ (":" ++ key2))))))

unfoldable pub build_large_list_cache_key : String
build_large_list_cache_key = "i18n:large:list"

module _ {K P : Type 0} ⦃e : Eq K⦄ (le : K → K → Bool) (entries : Entries K P) where
  open entries use {Item, key_of}

  abbrev increasing_from : Option K → List Item → Bool
  increasing_from previous_key [] = true
  increasing_from none (item ∷ items) = increasing_from (some (key_of item)) items
  increasing_from (some previous_key) (item ∷ items) =
      let rest = increasing_from (some (key_of item)) items in
      if le (key_of item) previous_key then false else rest

  -- `_small_keys_are_strictly_increasing`, `_large_keys_are_strictly_increasing`
  unfoldable pub keys_are_strictly_increasing : List Item → Bool
  keys_are_strictly_increasing items = increasing_from none items

  abbrev expecting : K → Option Item → Option Item
  expecting expected_key none = none
  expecting expected_key (some item) = if not (key_of item == expected_key) then none else some item

  -- `_normalize_small_item`, `_normalize_large_item`
  unfoldable pub normalize_entry : P → K → Option Item
  normalize_entry payload expected_key = expecting expected_key (entries.model_validate payload)

  abbrev in_order : Option (List Item) → Option (List Item)
  in_order none = none
  in_order (some items) = if not (keys_are_strictly_increasing items) then none else some items

  -- `_normalize_small_list`, `_normalize_large_list`
  unfoldable pub normalize_entries : P → Option (List Item)
  unfolding keys_are_strictly_increasing
  normalize_entries payload = in_order (entries.validate_items payload)

  module _ (client : Client) (json : Json P) where
    abbrev pub State : Type 0
    State = RedisCache.State client

    abbrev normal_or_delete : {A : Type 0} → String → Option A → State → Option A × State
    normal_or_delete cache_key none s = (none, RedisCache.delete client cache_key s)
    normal_or_delete cache_key (some a) s = (some a, s)

    abbrev checked : {A : Type 0} → String → (P → Option A) → Option P × State → Option A × State
    checked cache_key normalize (none, s) = (none, s)
    checked cache_key normalize (some payload, s) = normal_or_delete cache_key (normalize payload) s

    unfoldable pub get_entry : String → K → State → Option Item × State
    unfolding normalize_entry RedisCache.get_json RedisCache.delete
    get_entry cache_key key s =
        checked cache_key (λ payload. normalize_entry payload key)
          (RedisCache.get_json client json cache_key s)

    unfoldable pub get_entries : String → State → Option (List Item) × State
    unfolding normalize_entries RedisCache.get_json RedisCache.delete
    get_entries cache_key s =
        checked cache_key normalize_entries (RedisCache.get_json client json cache_key s)

module _ (client : Client) where
  -- `_delete_keys`, on the backend's `delete_many`
  unfoldable pub delete_cache_keys : List String → RedisCache.State client → RedisCache.State client
  unfolding from_keys RedisCache.delete_many
  delete_cache_keys keys s =
      let cache_keys = from_keys [] keys in
      if is_empty cache_keys then s else RedisCache.delete_many client cache_keys s

module _ (client : Client) {P : Type 0} (json : Json P) (small : Entries String P) where
  unfoldable pub get_small :
      String → RedisCache.State client → Option small.Item × RedisCache.State client
  unfolding build_small_cache_key get_entry
  get_small key s = get_entry str_le small client json (build_small_cache_key key) key s

  unfoldable pub get_small_list :
      RedisCache.State client → Option (List small.Item) × RedisCache.State client
  unfolding build_small_list_cache_key get_entries
  get_small_list s = get_entries str_le small client json build_small_list_cache_key s

  unfoldable pub set_small :
      String → P → Option ℕ → RedisCache.State client → RedisCache.State client
  unfolding build_small_cache_key RedisCache.set_json
  set_small key payload ttl s =
      RedisCache.set_json client json (build_small_cache_key key) payload ttl s

  unfoldable pub set_small_list :
      List small.Item → Option ℕ → RedisCache.State client → RedisCache.State client
  unfolding build_small_list_cache_key RedisCache.set_json
  set_small_list items ttl s =
      RedisCache.set_json client json build_small_list_cache_key (small.dump_items items) ttl s

  unfoldable invalidate_small_list : RedisCache.State client → RedisCache.State client
  unfolding build_small_list_cache_key RedisCache.delete
  invalidate_small_list s = RedisCache.delete client build_small_list_cache_key s

  unfoldable invalidate_small : String → RedisCache.State client → RedisCache.State client
  unfolding build_small_cache_key RedisCache.delete
  invalidate_small key s = RedisCache.delete client (build_small_cache_key key) s

  unfoldable pub invalidate_small_entry_and_list :
      String → RedisCache.State client → RedisCache.State client
  unfolding build_small_cache_key build_small_list_cache_key delete_cache_keys
  invalidate_small_entry_and_list key s =
      delete_cache_keys client (build_small_cache_key key ∷ build_small_list_cache_key ∷ []) s

module _ (client : Client) {P : Type 0} (json : Json P) (large : Entries (String × String) P)
    (str_len : String → String) where
  unfoldable pub get_large_entry :
      String → String → RedisCache.State client → Option large.Item × RedisCache.State client
  unfolding build_large_cache_key get_entry
  get_large_entry key1 key2 s =
      get_entry pair_le large client json (build_large_cache_key str_len key1 key2) (key1, key2) s

  unfoldable pub get_large_list :
      RedisCache.State client → Option (List large.Item) × RedisCache.State client
  unfolding build_large_list_cache_key get_entries
  get_large_list s = get_entries pair_le large client json build_large_list_cache_key s

  unfoldable pub set_large :
      String → String → P → Option ℕ → RedisCache.State client → RedisCache.State client
  unfolding build_large_cache_key RedisCache.set_json
  set_large key1 key2 payload ttl s =
      RedisCache.set_json client json (build_large_cache_key str_len key1 key2) payload ttl s

  unfoldable pub set_large_list :
      List large.Item → Option ℕ → RedisCache.State client → RedisCache.State client
  unfolding build_large_list_cache_key RedisCache.set_json
  set_large_list items ttl s =
      RedisCache.set_json client json build_large_list_cache_key (large.dump_items items) ttl s

  unfoldable invalidate_large_list : RedisCache.State client → RedisCache.State client
  unfolding build_large_list_cache_key RedisCache.delete
  invalidate_large_list s = RedisCache.delete client build_large_list_cache_key s

  unfoldable invalidate_large : String → String → RedisCache.State client → RedisCache.State client
  unfolding build_large_cache_key RedisCache.delete
  invalidate_large key1 key2 s =
      RedisCache.delete client (build_large_cache_key str_len key1 key2) s

  unfoldable pub invalidate_large_entry_and_list :
      String → String → RedisCache.State client → RedisCache.State client
  unfolding build_large_cache_key build_large_list_cache_key delete_cache_keys
  invalidate_large_entry_and_list key1 key2 s =
      delete_cache_keys client
        (build_large_cache_key str_len key1 key2 ∷ build_large_list_cache_key ∷ []) s
