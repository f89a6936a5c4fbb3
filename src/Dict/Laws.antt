-- ===== src/Dict/Laws.antt =====
-- What `get` reads after each operation on a dictionary, and that keys stay distinct.
use mathlib.Core.Path.{subst₂}
use ara_nes_lms_core.Base.{
  All, Eq, ◌==◌, ==_iff, true, false, none, some, [], ◌∷◌, ◌++◌, ◌≡◌, refl, ◌≢◌, arith, Bool-cases,
  inl, inr, if◌then◌else◌,
}
use ara_nes_lms_core.Dict.{Dict, get, contains, set, pop, update, IsDict, or_else}

module _ {ℓ} {K V : Type ℓ} ⦃e : Eq K⦄ where
  pub get-set :
      (d : Dict K V) (k : K) (v : V) (j : K)
      → get (set d k v) j ≡ (if k == j then some v else get d j)
  unfolding get set
  get-set [] k v j = refl
  get-set ((i, w) ∷ d) k v j = ground (arith, ==_iff i k, ==_iff i j, ==_iff k j, get-set d k v j)

  -- A dictionary with distinct keys laid over another.
  pub get-update :
      (d m : Dict K V) → IsDict m → (j : K) → get (update d m) j ≡ or_else (get m j) (get d j)
  unfolding get update
  get-update d [] h j = refl
  get-update d ((k, v) ∷ m) h j =
      ground (arith, get-update (set d k v) m h.1 j, get-set d k v j, ==_iff k j, h.0)

  pub contains-get : (d : Dict K V) (k : K) → contains d k ≡ true → get d k ≢ none
  unfolding get contains
  contains-get [] k h = ground arith
  contains-get ((j, v) ∷ d) k h = ground (arith, contains-get d k)

  pub get_of_contains : (d : Dict K V) (k : K) → contains d k ≡ false → get d k ≡ none
  unfolding get contains
  get_of_contains [] k h = refl
  get_of_contains ((j, v) ∷ d) k h = ground (arith, get_of_contains d k)

  pub set-IsDict : (d : Dict K V) (k : K) (v : V) → IsDict d → IsDict (set d k v)
  unfolding set get
  set-IsDict [] k v h = ground arith
  set-IsDict ((j, w) ∷ d) k v h = elim (Bool-cases (j == k)) [
    | inl same ↦ rw same h
    | inr other ↦
        rw other
          (ground (arith, get-set d k v j, ==_iff k j, ==_iff j k, h.0), set-IsDict d k v h.1)
  ]

  pub update-IsDict : (d m : Dict K V) → IsDict d → IsDict (update d m)
  unfolding update
  update-IsDict d [] h = h
  update-IsDict d ((k, v) ∷ m) h = update-IsDict (set d k v) m (set-IsDict d k v h)

  pub get-pop :
      (d : Dict K V) (k j : K) → IsDict d → get (pop d k) j ≡ (if k == j then none else get d j)
  unfolding get pop
  get-pop [] k j h = ground arith
  get-pop ((i, w) ∷ d) k j h =
      ground (arith, ==_iff i k, ==_iff i j, ==_iff k j, get-pop d k j h.1, h.0)

  -- What holds of every entry holds of the entry that is read.
  pub get-All {κ} :
      (P : K → V → Type κ) (d : Dict K V)
      → All (λ x. P x.0 x.1) d
      → (k : K) (v : V) → get d k ≡ some v
      → P k v
  unfolding get
  get-All P [] h k v g = absurd (cc)
  get-All P ((j, w) ∷ d) h k v g = elim (Bool-cases (j == k)) [
    | inl same ↦ subst₂ P ((==_iff j k).0 same) (ground arith) h.0
    | inr other ↦ get-All P d h.1 k v (rw other at g)
  ]

  pub get-update_absent : (d m : Dict K V) (k : K) → get m k ≡ none → get (update d m) k ≡ get d k
  unfolding get update
  get-update_absent d [] k h = refl
  get-update_absent d ((j, v) ∷ m) k h =
      ground (arith, get-update_absent (set d j v) m k, get-set d j v k)

  pub contains_of_get : (d : Dict K V) (k : K) (v : V) → get d k ≡ some v → contains d k ≡ true
  unfolding get contains
  contains_of_get [] k v h = ground arith
  contains_of_get ((j, w) ∷ d) k v h = ground (arith, contains_of_get d k v)

  pub get-pop_absent : (d : Dict K V) (k j : K) → get d j ≡ none → get (pop d k) j ≡ none
  unfolding get pop
  get-pop_absent [] k j h = h
  get-pop_absent ((i, w) ∷ d) k j h = ground (arith, get-pop_absent d k j)

  pub pop-IsDict : (d : Dict K V) (k : K) → IsDict d → IsDict (pop d k)
  unfolding pop
  pop-IsDict [] k h = tt
  pop-IsDict ((j, v) ∷ d) k h = elim (Bool-cases (j == k)) [
    | inl same ↦ rw same h.1
    | inr other ↦ rw other (get-pop_absent d k j h.0, pop-IsDict d k h.1)
  ]

  pub get-append :
      (d : Dict K V) (j : K) (v : V) (k : K)
      → get (d ++ (j, v) ∷ []) k ≡ or_else (get d k) (if j == k then some v else none)
  unfolding get
  get-append [] j v k = refl
  get-append ((i, w) ∷ d) j v k = ground (arith, get-append d j v k)

  pub append-IsDict :
      (d : Dict K V) (j : K) (v : V) → get d j ≡ none → IsDict d → IsDict (d ++ (j, v) ∷ [])
  unfolding get
  append-IsDict [] j v h g = (refl, tt)
  append-IsDict ((i, w) ∷ d) j v h g = (
    ground (arith, get-append d j v i, ==_iff i j, ==_iff j i, g.0),
    append-IsDict d j v (ground arith) g.1,
  )
