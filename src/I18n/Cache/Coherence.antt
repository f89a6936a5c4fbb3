-- ===== src/I18n/Cache/Coherence.antt =====
-- What the cache of translations may answer.
use ara_nes_lms_core.Base.{
  string_eq, pair_eq, String, true, false, none, some, [], ◌∷◌, any, ◌==◌, ==_iff, ==_refl, ◌≡◌,
  refl, ◌∙◌, arith,
}
use ara_nes_lms_core.RedisCache
use ara_nes_lms_core.RedisCache.{Client, Json, CacheService, is_off, answered}
use ara_nes_lms_core.RbacCache.{from_keys}
use ara_nes_lms_core.RbacCache.Coherence.{IsEvicting, any-from_keys}
use ara_nes_lms_core.I18n.{build_small_cache_key, build_small_list_cache_key}
use ara_nes_lms_core.I18n.Cache.{
  Entries, normalize_entry, get_entry, delete_cache_keys, get_small, get_large_entry,
  invalidate_small_entry_and_list,
}

module _ (client : Client) {P : Type 0} (json : Json P) where
  -- Whatever the shared cache holds, a large translation that `get_large` answers has the pair of
  -- keys asked for.
  pub get_large_entry_key :
      (large : Entries (String × String) P) (str_len : String → String) (key1 key2 : String)
      (s : RedisCache.State client) (item : large.Item)
      → (get_large_entry client json large str_len key1 key2 s).0 ≡ some item
      → large.key_of item ≡ (key1, key2)
  unfolding get_large_entry get_entry normalize_entry
  get_large_entry_key large str_len key1 key2 s item h =
      ground (arith, ==_iff (large.key_of item) (key1, key2))

  -- A small translation whose entry `invalidate_small_entry_and_list` has just deleted is not
  -- answered, if the service is on, the server has carried out the deletion, and DEL deletes.
  pub get_small-invalidate_small_entry_and_list :
      IsEvicting client
      → (small : Entries String P) (key : String) (c : CacheService) (server : client.Server)
      → is_off c ≡ false
      → (client.delete
          (from_keys [] (build_small_cache_key key ∷ build_small_list_cache_key ∷ []))
          server).0
        ≡ answered tt
      → (get_small client json small key
          (invalidate_small_entry_and_list client json small key (c, server))).0
        ≡ none
  unfolding get_small get_entry invalidate_small_entry_and_list delete_cache_keys
      RedisCache.delete_many RedisCache.get_json
  get_small-invalidate_small_entry_and_list evicting small key c server on done =
      let k = build_small_cache_key key in
      let keys = from_keys [] (k ∷ build_small_list_cache_key ∷ []) in
      let among : any (λ j. j == k) keys ≡ true =
        any-from_keys [] (k ∷ build_small_list_cache_key ∷ []) k refl ∙ rw (==_refl k) refl in
      ground (arith, evicting.get-delete keys k server among done, among)
