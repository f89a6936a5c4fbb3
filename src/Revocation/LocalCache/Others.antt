-- ===== src/Revocation/LocalCache/Others.antt =====
-- What storing one answer does to the others.
use ara_nes_lms_core.Base.{
  string_eq, ℕ, String, Bool, some, [], ◌∷◌, ◌++◌, length, ltb, leb, if◌then◌else◌, ◌≡◌, ◌∙◌, sym,
  arith, ◌==◌, ==_iff, ==_refl, inl, inr, Bool-cases, Option-cases,
}
use ara_nes_lms_core.Dict.{get, set, pop, IsDict}
use ara_nes_lms_core.Dict.Laws.{get-set, get-pop, set-IsDict, pop-IsDict, append-IsDict, get-append}
use ara_nes_lms_core.Revocation.LocalCache.{
  LocalCache, token_revocation_cache_max_entries, move_to_end, drop_expired, shrink, cache_until_of,
  put_newest, make_room, cache_revocation_status,
}

-- Everything that `d` holds, `c` holds, and the keys of `d` are distinct.
pub record IsPart (d c : LocalCache) : Type 0 where
  pub dict : IsDict d
  pub same : (k : String) (v : Bool × ℕ) → get d k ≡ some v → get c k ≡ some v

IsPart-refl : (c : LocalCache) → IsDict c → IsPart c c
IsPart-refl c h = record { dict = h; same = λ k v g. g }

IsPart-trans : (b c d : LocalCache) → IsPart b c → IsPart c d → IsPart b d
IsPart-trans b c d p q = record { dict = p.dict; same = λ k v g. q.same k v (p.same k v g) }

pop-IsPart : (c : LocalCache) (k : String) → IsDict c → IsPart (pop c k) c
pop-IsPart c k h = record {
  dict = pop-IsDict c k h;
  same = λ j v g. ground (arith, get-pop c k j h);
}

drop-IsPart : (now : ℕ) (items c : LocalCache) → IsDict c → IsPart (drop_expired now items c) c
unfolding drop_expired
drop-IsPart now [] c h = IsPart-refl c h
drop-IsPart now ((k, (b, until)) ∷ items) c h = elim (Bool-cases (leb until now)) [
  | inl expired ↦ rw expired (
      IsPart-trans (drop_expired now items (pop c k)) (pop c k) c
        (drop-IsPart now items (pop c k) (pop-IsDict c k h)) (pop-IsPart c k h))
  | inr live ↦ rw live (drop-IsPart now items c h)
]

tail-IsPart :
    (k : String) (v : Bool × ℕ) (c : LocalCache) → IsDict ((k, v) ∷ c) → IsPart c ((k, v) ∷ c)
unfolding get
tail-IsPart k v c h = record { dict = h.1; same = λ j w g. ground (arith, h.0, ==_iff k j) }

shrink-IsPart : (m : ℕ) (c : LocalCache) → IsDict c → IsPart (shrink m c) c
unfolding shrink
shrink-IsPart m [] h = IsPart-refl [] h
shrink-IsPart m ((k, v) ∷ c) h = elim (Bool-cases (ltb m (length ((k, v) ∷ c)))) [
  | inl over ↦
      rw over
        (IsPart-trans (shrink m c) c ((k, v) ∷ c) (shrink-IsPart m c h.1) (tail-IsPart k v c h))
  | inr fits ↦ rw fits (IsPart-refl ((k, v) ∷ c) h)
]

make_room-IsPart : (now : ℕ) (c : LocalCache) → IsDict c → IsPart (make_room now c) c
unfolding make_room
make_room-IsPart now c h = elim (Bool-cases (ltb token_revocation_cache_max_entries (length c))) [
  | inr fits ↦ rw fits (IsPart-refl c h)
  | inl over ↦
      let d = drop-IsPart now c c h in
      rw over (
        IsPart-trans (shrink token_revocation_cache_max_entries (drop_expired now c c))
          (drop_expired now c c) c
          (shrink-IsPart token_revocation_cache_max_entries (drop_expired now c c) d.dict) d)
]

-- A popped key at the end again.
moved :
    (c : LocalCache) (j : String) (v : Bool × ℕ)
    → get c j ≡ some v
    → move_to_end c j ≡ pop c j ++ (j, v) ∷ []
unfolding move_to_end
moved c j v h = ground arith

pub move_to_end-IsDict : (c : LocalCache) (j : String) → IsDict c → IsDict (move_to_end c j)
move_to_end-IsDict c j h = elim (Option-cases (get c j)) [
  | inl missing ↦ unfold move_to_end in rw (missing, move_to_end) h
  | inr (v, found) ↦
      rw (moved c j v found)
        (append-IsDict (pop c j) j v (get-pop c j j h ∙ rw (==_refl j)) (pop-IsDict c j h))
]

pub get-move_to_end : (c : LocalCache) (j k : String) → IsDict c → get (move_to_end c j) k ≡ get c k
get-move_to_end c j k h = elim (Option-cases (get c j)) [
  | inl missing ↦ unfold move_to_end in rw (missing, move_to_end)
  | inr (v, found) ↦
      rw (moved c j v found)
        (ground (arith, get-append (pop c j) j v k, get-pop c j k h, ==_iff j k))
]

pub cache_revocation_status-IsDict :
    (ttl : ℕ) (cache : LocalCache) (jti : String) (revoked : Bool) (now expires_at : ℕ)
    → IsDict cache
    → IsDict (cache_revocation_status ttl cache jti revoked now expires_at)
unfolding cache_revocation_status put_newest
cache_revocation_status-IsDict ttl cache jti revoked now expires_at h =
    let v : Bool × ℕ = (revoked, cache_until_of ttl revoked now expires_at) in
    (make_room-IsPart now (put_newest cache jti v)
      (move_to_end-IsDict (set cache jti v) jti (set-IsDict cache jti v h))).dict

-- After an answer is stored in a cache with distinct keys, what the cache gives for another key it
-- gave before, and what it gives for the key itself is that answer.
pub get-cache_revocation_status_inv :
    (ttl : ℕ) (cache : LocalCache) (jti : String) (revoked : Bool) (now expires_at : ℕ)
    → IsDict cache
    → (k : String) (w : Bool × ℕ)
    → get (cache_revocation_status ttl cache jti revoked now expires_at) k ≡ some w
    → (if jti == k then some (revoked, cache_until_of ttl revoked now expires_at) else get cache k)
      ≡ some w
unfolding cache_revocation_status put_newest
get-cache_revocation_status_inv ttl cache jti revoked now expires_at h k w g =
    let v : Bool × ℕ = (revoked, cache_until_of ttl revoked now expires_at) in
    let stored = set-IsDict cache jti v h in
    let part =
      make_room-IsPart now (put_newest cache jti v)
        (move_to_end-IsDict (set cache jti v) jti stored) in
    sym (get-set cache jti v k)
    ∙ sym (get-move_to_end (set cache jti v) jti k stored)
    ∙ part.same k w g
