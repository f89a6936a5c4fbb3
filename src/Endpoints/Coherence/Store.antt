-- ===== src/Endpoints/Coherence/Store.antt =====
-- `RedisCacheService` on a Redis that answers every call.
use ara_nes_lms_core.Base.{
  value_or, string_eq, ℕ, ◌⊎◌, String, false, Option, none, some, List, [], ◌∷◌, any, is_empty,
  ◌==◌, ==_iff, if◌then◌else◌, ◌≡◌, ◌≢◌, refl, sym, ap, ◌∙◌, arith, Option-cases, inl, inr,
}
use mathlib.Core.Path.{subst}
use ara_nes_lms_core.RedisCache.{
  Client, Json, CacheService, is_off, ttl_or_default, answered, delete, delete_many, set_json,
  get_json, State,
}
use ara_nes_lms_core.RedisCache.RoundTrip.{IsCodec}
use ara_nes_lms_core.RbacCache.{
  Schema, from_keys, delete_keys, checked, get_item, get_items, normalize_item, normalize_list,
}
use ara_nes_lms_core.RbacCache.Coherence.{any-from_keys}

-- A Redis that answers every call. `contents` is what the server holds under a key. SET writes the
-- key, DEL removes its keys; beyond that a call may only lose entries, as when they expire.
pub record IsReliable (client : Client) : Type 0 where
  pub contents : client.Server → String → Option String
  pub get-answered :
      (key : String) (s : client.Server) → (client.get key s).0 ≡ answered (contents s key)
  pub get-keeps :
      (key : String) (s : client.Server) (k x : String)
      → contents (client.get key s).1 k ≡ some x
      → contents s k ≡ some x
  pub set-answered :
      (key text : String) (ttl : ℕ) (s : client.Server)
      → (client.set key text ttl s).0 ≡ answered tt
  pub set-keeps :
      (key text : String) (ttl : ℕ) (s : client.Server) (k x : String)
      → contents (client.set key text ttl s).1 k ≡ some x
      → ((k ≡ key) × (x ≡ text)) ⊎ ((k ≢ key) × (contents s k ≡ some x))
  pub delete-answered :
      (keys : List String) (s : client.Server) → (client.delete keys s).0 ≡ answered tt
  pub delete-keeps :
      (keys : List String) (s : client.Server) (k x : String)
      → contents (client.delete keys s).1 k ≡ some x
      → (any (λ j. j == k) keys ≡ false) × (contents s k ≡ some x)

module _ (client : Client) (reliable : IsReliable client) {P : Type 0} (json : Json P) where
  -- The service is on, and each entry of the server is right.
  abbrev pub IsFilled : (String → String → Type 0) → State client → Type 0
  IsFilled Right cache =
      (is_off cache.0 ≡ false) × ((k x : String) → reliable.contents cache.1 k ≡ some x → Right k x)

  delete-step :
      (key : String) (c : CacheService) (server : client.Server)
      → is_off c ≡ false
      → delete client key (c, server) ≡ (c, (client.delete (key ∷ []) server).1)
  unfolding delete
  delete-step key c server on = rw on (rw (reliable.delete-answered (key ∷ []) server) refl)

  set-step :
      (key : String) (payload : P) (ttl : Option ℕ) (c : CacheService) (server : client.Server)
      → is_off c ≡ false
      → set_json client json key payload ttl (c, server)
        ≡ (c, (client.set key (json.dumps payload) (ttl_or_default ttl c) server).1)
  unfolding set_json
  set-step key payload ttl c server on =
      rw on (rw (reliable.set-answered key (json.dumps payload) (ttl_or_default ttl c) server) refl)

  delete_many-step :
      (key : String) (keys : List String) (c : CacheService) (server : client.Server)
      → is_off c ≡ false
      → delete_many client (key ∷ keys) (c, server) ≡ (c, (client.delete (key ∷ keys) server).1)
  unfolding delete_many
  delete_many-step key keys c server on =
      rw on (rw (reliable.delete-answered (key ∷ keys) server) refl)

  module _ (Right Right' : String → String → Type 0) where
    pub delete-IsFilled :
        (key : String)
        → ((k x : String) → k ≢ key → Right k x → Right' k x)
        → (cache : State client) → IsFilled Right cache
        → IsFilled Right' (delete client key cache)
    delete-IsFilled key carry (c, server) (on, filled) =
        subst (IsFilled Right') (sym (delete-step key c server on)) (
          on,
          λ k x held.
              let (gone, before) = reliable.delete-keeps (key ∷ []) server k x held in
              carry k x (λ e. ground (arith, gone, (==_iff key k).1 (sym e))) (filled k x before),
        )

    pub set-IsFilled :
        (key : String) (payload : P) (ttl : Option ℕ)
        → Right' key (json.dumps payload)
        → ((k x : String) → k ≢ key → Right k x → Right' k x)
        → (cache : State client) → IsFilled Right cache
        → IsFilled Right' (set_json client json key payload ttl cache)
    set-IsFilled key payload ttl written carry (c, server) (on, filled) =
        subst (IsFilled Right') (sym (set-step key payload ttl c server on)) (
          on,
          λ k x held.
              elim (reliable.set-keeps key (json.dumps payload) (ttl_or_default ttl c) server k x
                held) [
                  | inl (same, text) ↦
                      subst (λ j. Right' j x) (sym same) (subst (Right' key) (sym text) written)
                  | inr (other, before) ↦ carry k x other (filled k x before)
                ],
        )

    delete_many-IsFilled :
        (keys : List String)
        → ((k x : String) → any (λ j. j == k) keys ≡ false → Right k x → Right' k x)
        → (cache : State client) → IsFilled Right cache
        → IsFilled Right' (if is_empty keys then cache else delete_many client keys cache)
    delete_many-IsFilled [] carry (c, server) (on, filled) =
        (on, λ k x held. carry k x refl (filled k x held))
    delete_many-IsFilled (key ∷ keys) carry (c, server) (on, filled) =
        subst (IsFilled Right') (sym (delete_many-step key keys c server on)) (
          on,
          λ k x held.
              let (gone, before) = reliable.delete-keeps (key ∷ keys) server k x held in
              carry k x gone (filled k x before),
        )

    pub delete_keys-IsFilled :
        (schema : Schema P) (keys : List String)
        → ((k x : String) → any (λ j. j == k) keys ≡ false → Right k x → Right' k x)
        → (cache : State client) → IsFilled Right cache
        → IsFilled Right' (delete_keys client json schema keys cache)
    unfolding delete_keys
    delete_keys-IsFilled schema keys carry =
        delete_many-IsFilled (from_keys [] keys)
          (λ k x gone. carry k x (sym (any-from_keys [] keys k refl) ∙ gone))

  get_nothing :
      (key : String) (c : CacheService) (server : client.Server)
      → is_off c ≡ false
      → reliable.contents server key ≡ none
      → get_json client json key (c, server) ≡ (none, (c, (client.get key server).1))
  unfolding get_json
  get_nothing key c server on empty = rw on (rw (reliable.get-answered key server) (rw empty refl))

  get_dict :
      IsCodec json
      → (key : String) (c : CacheService) (server : client.Server) (p : P) → is_off c ≡ false
      → reliable.contents server key ≡ some (json.dumps p)
      → get_json client json key (c, server) ≡ (some p, (c, (client.get key server).1))
  unfolding get_json
  get_dict codec key c server p on held =
      rw on (rw (reliable.get-answered key server) (rw held (rw (codec.loads-dumps p) refl)))

  module _ (codec : IsCodec json) (Right : String → String → Type 0) (key : String)
      (dumped : (x : String) → Right key x → (p : P) × (x ≡ json.dumps p)) where
    -- `get_json` answers nothing that is not right, and leaves the server right.
    get_json-IsFilled :
        (cache : State client)
        → IsFilled Right cache
        → let r = get_json client json key cache in
          IsFilled Right r.1 × ((p : P) → r.0 ≡ some p → Right key (json.dumps p))
    get_json-IsFilled (c, server) (on, filled) =
        let server' = (client.get key server).1 in
        let kept : IsFilled Right (c, server') =
          (on, λ k x held. filled k x (reliable.get-keeps key server k x held)) in
        elim (Option-cases (reliable.contents server key)) [
          | inl empty ↦
              subst (λ r. IsFilled Right r.1 × ((p : P) → r.0 ≡ some p → Right key (json.dumps p)))
                (sym (get_nothing key c server on empty)) (kept, λ p h. absurd (cc))
          | inr (x, held) ↦
              let (p, same) = dumped x (filled key x held) in
              subst (λ r. IsFilled Right r.1 × ((p : P) → r.0 ≡ some p → Right key (json.dumps p)))
                (sym (get_dict codec key c server p on (held ∙ ap some same)))
                (
                  kept,
                  λ q h.
                      subst (λ o. Right key (json.dumps o)) (ap (value_or p) h)
                        (subst (Right key) same (filled key x held)),
                )
        ]

    module _ (schema : Schema P) {A : Type 0} (Good : A → Type 0) where
      checked-IsFilled :
          (normalize : P → Option A) (r : Option P × State client)
          → IsFilled Right r.1
          → ((p : P) → r.0 ≡ some p → (a : A) → normalize p ≡ some a → Good a)
          → let q = checked client json schema key normalize r in
            IsFilled Right q.1 × ((a : A) → q.0 ≡ some a → Good a)
      checked-IsFilled normalize (none, cache) filled read = (filled, λ a h. absurd (cc))
      checked-IsFilled normalize (some p, cache) filled read = elim (Option-cases (normalize p)) [
        | inl refused ↦ rw refused (
          delete-IsFilled Right Right key (λ k x other right. right) cache filled,
          λ a h. absurd (cc),
        )
        | inr (a, normal) ↦
            rw normal (filled, λ b h. subst Good (ap (value_or a) h) (read p refl a normal))
      ]

    pub get_item-IsFilled :
        (schema : Schema P) (i : ℕ) (Good : schema.Item → Type 0)
        → ((p : P)
            → Right key (json.dumps p)
            → (item : schema.Item) → normalize_item schema p i ≡ some item
            → Good item)
        → (cache : State client) → IsFilled Right cache
        → let q = get_item client json schema key i cache in
          IsFilled Right q.1 × ((item : schema.Item) → q.0 ≡ some item → Good item)
    unfolding get_item
    get_item-IsFilled schema i Good read cache filled =
        let (kept, right) = get_json-IsFilled cache filled in
        checked-IsFilled schema Good (λ p. normalize_item schema p i)
          (get_json client json key cache) kept (λ p h. read p (right p h))

    pub get_items-IsFilled :
        (schema : Schema P) (Good : List schema.Item → Type 0)
        → ((p : P)
            → Right key (json.dumps p)
            → (items : List schema.Item) → normalize_list schema p ≡ some items
            → Good items)
        → (cache : State client) → IsFilled Right cache
        → let q = get_items client json schema key cache in
          IsFilled Right q.1 × ((items : List schema.Item) → q.0 ≡ some items → Good items)
    unfolding get_items
    get_items-IsFilled schema Good read cache filled =
        let (kept, right) = get_json-IsFilled cache filled in
        checked-IsFilled schema Good (normalize_list schema) (get_json client json key cache) kept
          (λ p h. read p (right p h))
