-- ===== src/Revocation/LocalCache/Newest.antt =====
-- The size of the local cache, and what it answers for the entry that was stored last.
use mathlib.Core.Path.{subst}
use ara_nes_lms_core.Base.{
  All, ◌&&◌, string_eq, ℕ, ◌≤◌, ◌<◌, String, Bool, false, none, some, [], ◌∷◌, ◌++◌, length, ltb,
  leb, ◌≡◌, refl, ap, ◌∙◌, sym, arith, ◌==◌, ==_iff, ==_refl, inl, inr, Bool-cases,
}
use ara_nes_lms_core.Dict.{Dict, get, set, pop, IsDict}
use ara_nes_lms_core.Dict.Laws.{get-set, get-pop, get-pop_absent, set-IsDict}
use ara_nes_lms_core.Revocation.LocalCache.{
  LocalCache, token_revocation_cache_max_entries, move_to_end, drop_expired, shrink, cache_until_of,
  put_newest, make_room, cache_revocation_status,
}

pub length-shrink : {V : Type 0} (m : ℕ) (c : Dict String V) → length (shrink m c) ≤ m
unfolding shrink
length-shrink m [] = omega arith
length-shrink m (e ∷ c) = ground (arith, length-shrink m c)

-- Whatever the cache held, after an answer is stored it has at most 4096 entries.
pub length-cache_revocation_status :
    (ttl : ℕ) (cache : LocalCache) (jti : String) (revoked : Bool) (now expires_at : ℕ)
    → length (cache_revocation_status ttl cache jti revoked now expires_at)
      ≤ token_revocation_cache_max_entries
unfolding cache_revocation_status make_room
length-cache_revocation_status ttl cache jti revoked now expires_at =
    let c = put_newest cache jti (revoked, cache_until_of ttl revoked now expires_at) in
    ground (arith, length-shrink token_revocation_cache_max_entries (drop_expired now c c))

module _ {V : Type 0} where
  -- The entry stands last, and its key nowhere else.
  pub record IsNewest (j : String) (v : V) (c : Dict String V) : Type 0 where
    pub older : Dict String V
    pub split : c ≡ older ++ (j, v) ∷ []
    pub fresh : get older j ≡ none

  get-append_last :
      (older : Dict String V) (j : String) (v : V)
      → get older j ≡ none
      → get (older ++ (j, v) ∷ []) j ≡ some v
  unfolding get
  get-append_last [] j v h = ground (arith, ==_refl j)
  get-append_last ((k, w) ∷ older) j v h = ground (arith, get-append_last older j v)

  pub get-IsNewest : (j : String) (v : V) (c : Dict String V) → IsNewest j v c → get c j ≡ some v
  get-IsNewest j v c h = ap (λ d. get d j) h.split ∙ get-append_last h.older j v h.fresh

  -- Popping another key, and dropping the oldest entries, keeps the newest.
  pop-append_last :
      (older : Dict String V) (j k : String) (v : V)
      → (j == k) ≡ false
      → pop (older ++ (j, v) ∷ []) k ≡ pop older k ++ (j, v) ∷ []
  unfolding pop
  pop-append_last [] j k v h = ground arith
  pop-append_last ((i, w) ∷ older) j k v h = ground (arith, pop-append_last older j k v h)

  pop-IsNewest :
      (j k : String) (v : V) (c : Dict String V)
      → (j == k) ≡ false
      → IsNewest j v c
      → IsNewest j v (pop c k)
  pop-IsNewest j k v c other h = record {
    older = pop h.older k;
    split = ap (λ d. pop d k) h.split ∙ pop-append_last h.older j k v other;
    fresh = get-pop_absent h.older k j h.fresh;
  }

  shrink_last :
      (m : ℕ)
      → 0 < m
      → (older : Dict String V) (j : String) (v : V) → get older j ≡ none
      → IsNewest j v (shrink m (older ++ (j, v) ∷ []))
  unfolding shrink get
  shrink_last m pos [] j v h = record { older = []; split = ground arith; fresh = refl }
  shrink_last m pos ((k, w) ∷ older) j v h =
      elim (Bool-cases (ltb m (length ((k, w) ∷ (older ++ (j, v) ∷ []))))) [
        | inl over ↦ rw over (shrink_last m pos older j v (ground arith))
        | inr fits ↦ rw fits (record { older = (k, w) ∷ older; split = refl; fresh = h })
      ]

  set_move : (c : Dict String V) (j : String) (v : V) → IsDict c → IsNewest j v (put_newest c j v)
  unfolding put_newest move_to_end
  set_move c j v h =
      let stored : get (set c j v) j ≡ some v = get-set c j v j ∙ rw (==_refl j) in
      record {
        older = pop (set c j v) j;
        split = ground (arith, stored);
        fresh = get-pop (set c j v) j j (set-IsDict c j v h) ∙ rw (==_refl j);
      }

-- No entry of the key has expired.
abbrev NotExpired : String → ℕ → Bool × ℕ → String → Type 0
NotExpired j now v k = ((j == k) && leb v.1 now) ≡ false

drop-IsNewest :
    (now : ℕ) (j : String) (v : Bool × ℕ) (items c : LocalCache)
    → All (λ e. NotExpired j now e.1 e.0) items
    → IsNewest j v c
    → IsNewest j v (drop_expired now items c)
unfolding drop_expired
drop-IsNewest now j v [] c h n = n
drop-IsNewest now j v ((k, (b, until)) ∷ items) c h n = elim (Bool-cases (leb until now)) [
  | inl expired ↦
      rw expired
        (drop-IsNewest now j v items (pop c k) h.1 (pop-IsNewest j k v c (ground (arith, h.0)) n))
  | inr live ↦ rw live (drop-IsNewest now j v items c h.1 n)
]

live_items :
    (now : ℕ) (j : String) (v : Bool × ℕ) (older : LocalCache)
    → get older j ≡ none
    → now < v.1
    → All (λ e. NotExpired j now e.1 e.0) (older ++ (j, v) ∷ [])
unfolding get
live_items now j v [] h lt = (ground arith, tt)
live_items now j v ((k, w) ∷ older) h lt =
    (ground (arith, ==_iff j k, ==_iff k j), live_items now j v older (ground arith) lt)

make_room-IsNewest :
    (now : ℕ) (j : String) (v : Bool × ℕ) (c : LocalCache)
    → now < v.1
    → IsNewest j v c
    → IsNewest j v (make_room now c)
unfolding make_room
make_room-IsNewest now j v c lt n =
    elim (Bool-cases (ltb token_revocation_cache_max_entries (length c))) [
      | inr fits ↦ rw fits n
      | inl over ↦
          let live =
            subst (λ d. All (λ e. NotExpired j now e.1 e.0) d) (sym n.split)
              (live_items now j v n.older n.fresh lt) in
          let n' = drop-IsNewest now j v c c live n in
          rw over (
            subst (λ d. IsNewest j v (shrink token_revocation_cache_max_entries d)) (sym n'.split)
              (shrink_last token_revocation_cache_max_entries (omega arith) n'.older j v n'.fresh))
    ]

-- In a cache with distinct keys, an answer that is stored, and is to last beyond now, is what the
-- cache gives for its key, whatever had to make room for it.
pub get-cache_revocation_status :
    (ttl : ℕ) (cache : LocalCache) (jti : String) (revoked : Bool) (now expires_at : ℕ)
    → IsDict cache
    → now < cache_until_of ttl revoked now expires_at
    → get (cache_revocation_status ttl cache jti revoked now expires_at) jti
      ≡ some (revoked, cache_until_of ttl revoked now expires_at)
unfolding cache_revocation_status
get-cache_revocation_status ttl cache jti revoked now expires_at dict lt =
    let v : Bool × ℕ = (revoked, cache_until_of ttl revoked now expires_at) in
    get-IsNewest jti v _
      (make_room-IsNewest now jti v (put_newest cache jti v) lt (set_move cache jti v dict))
