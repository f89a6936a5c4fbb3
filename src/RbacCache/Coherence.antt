-- ===== src/RbacCache/Coherence.antt =====
-- What the cache of roles and users may answer.
use mathlib.Core.Path.{subst}
use ara_nes_lms_core.Base.{
  nat_eq, string_eq, ℕ, ◌<◌, String, Bool, true, false, none, some, List, [], ◌∷◌, ◌++◌, map, any,
  All, All-map_of, any-append, ◌==◌, ==_iff, if◌then◌else◌, ◌≡◌, refl, ap, ◌∙◌, arith, inl, inr,
  Bool-cases,
}
use ara_nes_lms_core.RedisCache
use ara_nes_lms_core.RedisCache.{Client, Json, CacheService, is_off, answered}
use ara_nes_lms_core.RbacCache.{
  Schema, from_keys, increasing_from, ids_are_strictly_increasing, normalize_item, normalize_list,
  build_role_cache_key, build_role_list_cache_key, State, delete_keys, get_item, get_items,
  invalidate_items, get_role, invalidate_roles, get_role_list,
}

-- What the client promises of DEL: a key that it deletes is gone.
pub record IsEvicting (client : Client) : Type 0 where
  pub get-delete :
      (keys : List String) (key : String) (s : client.Server)
      → any (λ k. k == key) keys ≡ true
      → (client.delete keys s).0 ≡ answered tt
      → (client.get key (client.delete keys s).1).0 ≡ answered none

-- Dropping repeated keys keeps every key.
pub any-from_keys :
    (seen keys : List String) (key : String)
    → any (λ k. k == key) seen ≡ false
    → any (λ k. k == key) (from_keys seen keys) ≡ any (λ k. k == key) keys
unfolding from_keys
any-from_keys seen [] key h = refl
any-from_keys seen (k ∷ keys) key h = elim (Bool-cases (any (λ j. j == k) seen)) [
  | inr new ↦ elim (Bool-cases (k == key)) [
    | inl same ↦ rw (new, same) refl
    | inr other ↦ rw (new, other) (any-from_keys (k ∷ seen) keys key (rw other h))
  ]
  | inl old ↦ elim (Bool-cases (k == key)) [
    | inl same ↦
        absurd (
          ground (arith, h, subst (λ i. any (λ j. j == i) seen ≡ true) ((==_iff k key).0 same) old))
    | inr other ↦ rw (old, other) (any-from_keys seen keys key h)
  ]
]

any-map_key :
    (build : ℕ → String) (ids : List ℕ) (i : ℕ)
    → any (λ j. j == i) ids ≡ true
    → any (λ k. k == build i) (map build ids) ≡ true
any-map_key build [] i h = h
any-map_key build (j ∷ ids) i h = elim (Bool-cases (j == i)) [
  | inl same ↦ rw ((==_iff (build j) (build i)).1 (ap build ((==_iff j i).0 same))) refl
  | inr other ↦ ground (arith, any-map_key build ids i)
]

module _ {P : Type 0} (schema : Schema P) where
  -- Each item has a larger key than all before it.
  abbrev pub IsIncreasing : List schema.Item → Type 0
  IsIncreasing [] = Unit
  IsIncreasing (item ∷ items) =
      All (λ later. schema.id item < schema.id later) items × IsIncreasing items

  increasing_from-IsIncreasing :
      (previous : ℕ) (items : List schema.Item)
      → increasing_from schema (some previous) items ≡ true
      → All (λ later. previous < schema.id later) items × IsIncreasing items
  increasing_from-IsIncreasing previous [] h = (tt, tt)
  increasing_from-IsIncreasing previous (item ∷ items) h =
      let step : (previous < schema.id item)
          × (increasing_from schema (some (schema.id item)) items ≡ true) =
        ground (arith, h) in
      let rest = increasing_from-IsIncreasing (schema.id item) items step.1 in
      ((step.0, All-map_of _ _ items (λ later lt. omega (arith, lt, step.0)) rest.0), rest)

  list_sound :
      (items : List schema.Item)
      → ids_are_strictly_increasing schema items ≡ true
      → IsIncreasing items
  unfolding ids_are_strictly_increasing
  list_sound [] h = tt
  list_sound (item ∷ items) h = increasing_from-IsIncreasing (schema.id item) items h

module _ (client : Client) {P : Type 0} (json : Json P) (schema : Schema P) (str : ℕ → String) where
  -- Whatever the shared cache holds, a role that `get_role` answers has the key asked for.
  pub get_role_id :
      (role_id : ℕ) (s : State client json schema) (item : schema.Item)
      → (get_role client json schema str role_id s).0 ≡ some item
      → schema.id item ≡ role_id
  unfolding get_role get_item normalize_item
  get_role_id role_id s item h = ground (arith, ==_iff (schema.id item) role_id)

  -- Whatever the shared cache holds, a list of roles that `get_role_list` answers has strictly
  -- increasing keys.
  pub get_role_list-IsIncreasing :
      (s : State client json schema) (items : List schema.Item)
      → (get_role_list client json schema s).0 ≡ some items
      → IsIncreasing schema items
  unfolding get_role_list get_items normalize_list
  get_role_list-IsIncreasing s items h = list_sound schema items (ground arith)

  -- A role whose key is among those that `invalidate_roles` has just deleted is not answered, if
  -- the service is on, the server has carried out the deletion, and DEL deletes.
  pub get_role-invalidate_roles :
      IsEvicting client
      → (ids : List ℕ) (include_list : Bool) (c : CacheService) (server : client.Server)
        (role_id : ℕ)
      → any (λ j. j == role_id) ids ≡ true
      → is_off c ≡ false
      → (client.delete
          (from_keys [] (
            map (build_role_cache_key str) ids
            ++ (if include_list then build_role_list_cache_key ∷ [] else [])))
          server).0
        ≡ answered tt
      → (get_role client json schema str role_id
          (invalidate_roles client json schema str ids include_list (c, server))).0
        ≡ none
  unfolding get_role get_item invalidate_roles invalidate_items delete_keys RedisCache.delete_many
      RedisCache.get_json
  get_role-invalidate_roles evicting ids include_list c server role_id asked on done =
      let list : List String = if include_list then build_role_list_cache_key ∷ [] else [] in
      let key = build_role_cache_key str role_id in
      let keys = from_keys [] (map (build_role_cache_key str) ids ++ list) in
      let among : any (λ k. k == key) keys ≡ true =
        any-from_keys [] (map (build_role_cache_key str) ids ++ list) key refl
        ∙ any-append (λ k. k == key) (map (build_role_cache_key str) ids) list
        ∙ rw (any-map_key (build_role_cache_key str) ids role_id asked) refl in
      ground (arith, evicting.get-delete keys key server among done, among)
