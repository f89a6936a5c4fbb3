-- ===== src/Gateway/Openapi/Values.antt =====
-- Values and keys of dictionaries that the merge of gateway_server/gateway.py builds.
use ara_nes_lms_core.Base.{
  string_eq, String, true, ◌||◌, none, some, List, [], ◌∷◌, ◌==◌, ==_iff, ==_refl, ◌≡◌, refl, arith,
  Bool-cases, inl, inr,
}
use ara_nes_lms_core.Dict.{Dict, set, contains}
use ara_nes_lms_core.Gateway.Paths.{rewritten, to_public_openapi_paths, to_public_path}
use ara_nes_lms_core.Gateway.Openapi.{unless_empty}

-- A property of every value of a dictionary.
abbrev pub Values : {V : Type 0} → (V → Type 0) → List (String × V) → Type 0
Values P [] = Unit
Values P ((k, v) ∷ d) = P v × Values P d

module _ {V : Type 0} (P : V → Type 0) where
  pub set-Values :
      (d : Dict String V) (k : String) (v : V) → Values P d → P v → Values P (set d k v)
  unfolding set
  set-Values [] k v h p = (p, tt)
  set-Values ((j, w) ∷ d) k v h p = elim (Bool-cases (j == k)) [
    | inl same ↦ rw same (p, h.1)
    | inr other ↦ rw other (h.0, set-Values d k v h.1 p)
  ]

pub contains-set :
    {V : Type 0} (d : Dict String V) (k : String) (v : V) (j : String)
    → contains (set d k v) j ≡ ((k == j) || contains d j)
unfolding set contains
contains-set [] k v j = ground arith
contains-set ((i, w) ∷ d) k v j =
    ground (arith, ==_iff i k, ==_iff i j, ==_iff k j, contains-set d k v j)

pub contains-set_self :
    {V : Type 0} (d : Dict String V) (k : String) (v : V) → contains (set d k v) k ≡ true
contains-set_self d k v = rw (contains-set d k v k, ==_refl k) refl

-- The name is one of the schemas.
abbrev pub Among : {V : Type 0} → Dict String V → String → Type 0
Among schemas name = contains schemas name ≡ true

pub or_none :
    {A : Type 0} (xs : List A) → (elim (unless_empty xs) [ none ↦ [] | some ys ↦ ys ]) ≡ xs
or_none [] = refl
or_none (x ∷ xs) = refl

module _ {A : Type 0} (P : A → Type 0) where
  rewritten-Values :
      (paths : Dict String A) (s : String) (document_paths : Dict String A)
      → Values P paths
      → Values P document_paths
      → Values P (rewritten paths s document_paths)
  rewritten-Values paths s [] h g = h
  rewritten-Values paths s ((path, path_item) ∷ rest) h g =
      rewritten-Values (set paths (to_public_path path s) path_item) s rest
        (set-Values P paths (to_public_path path s) path_item h g.0) g.1

  pub to_public-Values :
      (s : String) (document_paths : Dict String A)
      → Values P document_paths
      → Values P (to_public_openapi_paths document_paths s)
  unfolding to_public_openapi_paths
  to_public-Values s document_paths h = rewritten-Values [] s document_paths tt h
