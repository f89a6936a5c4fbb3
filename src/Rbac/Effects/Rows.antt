-- ===== src/Rbac/Effects/Rows.antt =====
-- The first row with a key, in a list of rows that is assigned to, appended to or filtered.
use ara_nes_lms_core.Base.{
  nat_eq, ℕ, true, false, not, Option, none, some, List, [], ◌∷◌, ◌++◌, map, filter, find, any,
  ◌==◌, if◌then◌else◌, ◌≡◌, ◌≢◌, refl, arith, find-map_same,
}

module _ {A : Type 0} (key : A → ℕ) where
  abbrev pub row : ℕ → List A → Option A
  row i xs = find (λ x. key x == i) xs

  module _ (i : ℕ) (f : A → A) (keeps : (x : A) → key (f x) ≡ key x) where
    pub row-assign_other :
        (j : ℕ)
        → j ≢ i
        → (xs : List A) → row j (map (λ x. if key x == i then f x else x) xs) ≡ row j xs
    row-assign_other j other xs =
        find-map_same (λ x. key x == j) (λ x. if key x == i then f x else x)
          (λ x. ground (arith, keeps x)) (λ x h. ground (arith, h)) xs

    pub row-assign :
        (x : A) (xs : List A)
        → row i xs ≡ some x
        → row i (map (λ x. if key x == i then f x else x) xs) ≡ some (f x)
    row-assign x [] h = absurd (cc)
    row-assign x (y ∷ ys) h = ground (arith, keeps y, row-assign x ys, h)

  pub row-append_other :
      (j : ℕ) (x : A) → j ≢ key x → (xs : List A) → row j (xs ++ x ∷ []) ≡ row j xs
  row-append_other j x other [] = ground arith
  row-append_other j x other (y ∷ ys) = ground (arith, row-append_other j x other ys)

  pub row-append :
      (x : A) (xs : List A) → row (key x) xs ≡ none → row (key x) (xs ++ x ∷ []) ≡ some x
  row-append x [] h = ground arith
  row-append x (y ∷ ys) h = ground (arith, row-append x ys, h)

  pub row-remove_other :
      (i j : ℕ) → j ≢ i → (xs : List A) → row j (filter (λ x. not (key x == i)) xs) ≡ row j xs
  row-remove_other i j other [] = refl
  row-remove_other i j other (x ∷ xs) = ground (arith, row-remove_other i j other xs)

  -- Mapping leaves the row with a key alone, if it leaves every row with that key alone.
  pub row-map_same :
      (j : ℕ) (g : A → A)
      → ((x : A) → key (g x) ≡ key x)
      → (xs : List A) → any (λ i. i == j) (map key (filter (λ x. true) xs)) ≡ false
      → row j (map g xs) ≡ row j xs
  row-map_same j g keeps [] h = refl
  row-map_same j g keeps (x ∷ xs) h = ground (arith, keeps x, row-map_same j g keeps xs)
