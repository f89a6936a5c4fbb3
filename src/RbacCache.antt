-- ===== src/RbacCache.antt =====
-- `RbacCacheService` of src/user_role/cache.py: roles and users in the shared cache. Pydantic's
-- validation of a role or a user, and the decimal print of a key, are parameters.
pub mod Coherence
use ara_nes_lms_core.Base.{
  nat_eq, string_eq, ℕ, String, Bool, true, false, not, ◌||◌, Option, none, some, List, [], ◌∷◌,
  ◌++◌ as ◌++ᴸ◌, map, any, is_empty, leb, ltb, ◌==◌, if◌then◌else◌,
}
use Prim.Native.String.{◌++◌}
use ara_nes_lms_core.RedisCache
use ara_nes_lms_core.RedisCache.{Client, Json}

-- `P` is the type of dictionaries. `model_validate` and `validate_items` (the latter of the value
-- under "items") give `none` where they raise `ValidationError`; `model_dump` and `dump_items`
-- give what is stored.
pub record Schema (P : Type 0) : Type 1 where
  pub Item : Type 0
  pub id : Item → ℕ
  pub model_validate : P → Option Item
  pub validate_items : P → Option (List Item)
  pub model_dump : Item → P
  pub dump_items : List Item → P

-- `list(dict.fromkeys(keys))`
unfoldable pub from_keys : List String → List String → List String
from_keys seen [] = []
from_keys seen (key ∷ keys) =
    let skipped = from_keys seen keys in
    let kept = key ∷ from_keys (key ∷ seen) keys in
    if any (λ k. k == key) seen then skipped else kept

module _ {P : Type 0} (schema : Schema P) where
  open schema use {Item, id}

  abbrev increasing_from : Option ℕ → List Item → Bool
  increasing_from previous_id [] = true
  increasing_from none (item ∷ items) = increasing_from (some (id item)) items
  increasing_from (some previous_id) (item ∷ items) =
      let rest = increasing_from (some (id item)) items in
      if leb (id item) previous_id then false else rest

  -- `_ids_are_strictly_increasing`
  unfoldable pub ids_are_strictly_increasing : List Item → Bool
  ids_are_strictly_increasing items = increasing_from none items

  abbrev expecting : ℕ → Option Item → Option Item
  expecting expected_id none = none
  expecting expected_id (some item) = if not (id item == expected_id) then none else some item

  -- `_normalize_role_item`, `_normalize_user_item`
  unfoldable pub normalize_item : P → ℕ → Option Item
  normalize_item payload expected_id = expecting expected_id (schema.model_validate payload)

  abbrev in_order : Option (List Item) → Option (List Item)
  in_order none = none
  in_order (some items) = if not (ids_are_strictly_increasing items) then none else some items

  -- `_normalize_role_list`, `_normalize_user_list`
  unfoldable pub normalize_list : P → Option (List Item)
  unfolding ids_are_strictly_increasing
  normalize_list payload = in_order (schema.validate_items payload)

module _ (str : ℕ → String) where
  unfoldable pub build_role_cache_key : ℕ → String
  build_role_cache_key role_id = "rbac:role:" ++ str role_id

  unfoldable pub build_user_cache_key : ℕ → String
  build_user_cache_key user_id = "rbac:user:" ++ str user_id

unfoldable pub build_role_list_cache_key : String
build_role_list_cache_key = "rbac:role:list"

unfoldable pub build_user_list_cache_key : String
build_user_list_cache_key = "rbac:user:list"

-- The methods for roles and for users differ only in their keys and schemas.
module _ (client : Client) {P : Type 0} (json : Json P) (schema : Schema P) where
  open schema use {Item}

  abbrev pub State : Type 0
  State = RedisCache.State client

  -- `_delete_keys`, on the backend's `delete_many`
  unfoldable pub delete_keys : List String → State → State
  unfolding from_keys RedisCache.delete_many
  delete_keys keys s =
      let cache_keys = from_keys [] keys in
      if is_empty cache_keys then s else RedisCache.delete_many client cache_keys s

  abbrev pub normal_or_delete : {A : Type 0} → String → Option A → State → Option A × State
  normal_or_delete key none s = (none, RedisCache.delete client key s)
  normal_or_delete key (some a) s = (some a, s)

  abbrev pub checked : {A : Type 0} → String → (P → Option A) → Option P × State → Option A × State
  checked key normalize (none, s) = (none, s)
  checked key normalize (some payload, s) = normal_or_delete key (normalize payload) s

  -- What `get_role` and `get_user` have in common, under the key of the item.
  unfoldable pub get_item : String → ℕ → State → Option Item × State
  unfolding normalize_item RedisCache.get_json RedisCache.delete
  get_item key item_id s =
      checked key (λ payload. normalize_item schema payload item_id)
        (RedisCache.get_json client json key s)

  -- What `get_role_list` and `get_user_list` have in common.
  unfoldable pub get_items : String → State → Option (List Item) × State
  unfolding normalize_list RedisCache.get_json RedisCache.delete
  get_items key s = checked key (normalize_list schema) (RedisCache.get_json client json key s)

  unfoldable pub set_item : String → P → Option ℕ → State → State
  unfolding RedisCache.set_json
  set_item key payload ttl_seconds s = RedisCache.set_json client json key payload ttl_seconds s

  -- The payload is `{"items": items}`.
  unfoldable pub set_items : String → List Item → Option ℕ → State → State
  unfolding RedisCache.set_json
  set_items key items ttl_seconds s =
      RedisCache.set_json client json key (schema.dump_items items) ttl_seconds s

  -- `keys.append(list_key)` if `include_list`
  unfoldable pub invalidate_items : (ℕ → String) → String → List ℕ → Bool → State → State
  unfolding delete_keys
  invalidate_items build_key list_key ids include_list s =
      delete_keys (map build_key ids ++ᴸ (if include_list then list_key ∷ [] else [])) s

  module _ (str : ℕ → String) where
    unfoldable pub get_role : ℕ → State → Option Item × State
    unfolding build_role_cache_key get_item
    get_role role_id s = get_item (build_role_cache_key str role_id) role_id s

    unfoldable pub get_user : ℕ → State → Option Item × State
    unfolding build_user_cache_key get_item
    get_user user_id s = get_item (build_user_cache_key str user_id) user_id s

    unfoldable pub set_role : ℕ → P → Option ℕ → State → State
    unfolding build_role_cache_key set_item
    set_role role_id payload ttl s = set_item (build_role_cache_key str role_id) payload ttl s

    unfoldable pub set_user : ℕ → P → Option ℕ → State → State
    unfolding build_user_cache_key set_item
    set_user user_id payload ttl s = set_item (build_user_cache_key str user_id) payload ttl s

    unfoldable pub invalidate_role : ℕ → State → State
    unfolding build_role_cache_key RedisCache.delete
    invalidate_role role_id s = RedisCache.delete client (build_role_cache_key str role_id) s

    unfoldable pub invalidate_user : ℕ → State → State
    unfolding build_user_cache_key RedisCache.delete
    invalidate_user user_id s = RedisCache.delete client (build_user_cache_key str user_id) s

    unfoldable pub invalidate_roles : List ℕ → Bool → State → State
    unfolding build_role_cache_key build_role_list_cache_key invalidate_items
    invalidate_roles role_ids include_list s =
        invalidate_items (build_role_cache_key str) build_role_list_cache_key role_ids include_list
          s

    unfoldable pub invalidate_users : List ℕ → Bool → State → State
    unfolding build_user_cache_key build_user_list_cache_key invalidate_items
    invalidate_users user_ids include_list s =
        invalidate_items (build_user_cache_key str) build_user_list_cache_key user_ids include_list
          s

  unfoldable pub get_role_list : State → Option (List Item) × State
  unfolding build_role_list_cache_key get_items
  get_role_list s = get_items build_role_list_cache_key s

  unfoldable pub get_user_list : State → Option (List Item) × State
  unfolding build_user_list_cache_key get_items
  get_user_list s = get_items build_user_list_cache_key s

  unfoldable pub set_role_list : List Item → Option ℕ → State → State
  unfolding build_role_list_cache_key set_items
  set_role_list items ttl s = set_items build_role_list_cache_key items ttl s

  unfoldable pub set_user_list : List Item → Option ℕ → State → State
  unfolding build_user_list_cache_key set_items
  set_user_list items ttl s = set_items build_user_list_cache_key items ttl s

  unfoldable pub invalidate_role_list : State → State
  unfolding build_role_list_cache_key RedisCache.delete
  invalidate_role_list s = RedisCache.delete client build_role_list_cache_key s

  unfoldable pub invalidate_user_list : State → State
  unfolding build_user_list_cache_key RedisCache.delete
  invalidate_user_list s = RedisCache.delete client build_user_list_cache_key s
