-- ===== src/Rbac/Seeding/Matching.antt =====
-- `_resolve_default_role_match` on the dictionaries of a list of roles.
use mathlib.Core.Path.{subst}
use mathlib.Core.List.{Memᴰ}
use mathlib.Core.List.Memᴰ
use ara_nes_lms_core.Base.{
  Eq, nat_eq, string_eq, ℕ, String, Option, none, some, List, [], ◌∷◌, map, ok, raise, Result, ◌==◌,
  ==_iff, ◌≡◌, refl, sym, ap, ◌∙◌, arith, inl, inr, Bool-cases,
}
use ara_nes_lms_core.Dict.{Dict, get, update, IsDict, or_else}
use ara_nes_lms_core.Dict.Laws.{get-update}
use ara_nes_lms_core.Errors.{Error, runtime_error}
use ara_nes_lms_core.Database.{Role}
use ara_nes_lms_core.Rbac.Seeding.{
  resolve_default_role_match, get_by_id, matched, expected, roles_by_id, roles_by_name,
}

-- What a look-up of the role with a property has found: none of the list, or the only one.
abbrev IsFound : (Role → Type 0) → List Role → Option Role → Type 0
IsFound P roles none = (r : Role) → Memᴰ r roles → P r → ⊥
IsFound P roles (some a) = Memᴰ a roles × P a × ((r : Role) → Memᴰ r roles → P r → r ≡ a)

or_else-none : {A : Type 0} (o : Option A) → or_else o none ≡ o
or_else-none none = refl
or_else-none (some a) = refl

IsFound-later :
    (P : Role → Type 0) (a : Role) (roles : List Role) (o : Option Role)
    → (P a → ⊥)
    → IsFound P roles o
    → IsFound P (a ∷ roles) o
IsFound-later P a roles none other h = λ r among p. elim (Memᴰ.cases_cons among) [
  | inl e ↦ other (subst P e p)
  | inr later ↦ h r later p
]
IsFound-later P a roles (some b) other (among, p, only) = (
  Memᴰ.tail among,
  p,
  λ r among' q. elim (Memᴰ.cases_cons among') [
    | inl e ↦ absurd (other (subst P e q))
    | inr later ↦ only r later q
  ],
)

module _ {K : Type 0} ⦃e : Eq K⦄ (key : Role → K) where
  abbrev keyed : List Role → Dict K Role
  keyed roles = map (λ r. (key r, r)) roles

  get-keyed :
      (roles : List Role)
      → IsDict (keyed roles)
      → (k : K) → IsFound (λ r. key r ≡ k) roles (get (keyed roles) k)
  unfolding get
  get-keyed [] h k = λ r among same. absurd (Memᴰ.not-nil among)
  get-keyed (a ∷ roles) h k = elim (Bool-cases (key a == k)) [
    | inr other ↦ rw other (
        IsFound-later (λ r. key r ≡ k) a roles (get (keyed roles) k)
          (λ same. absurd (ground (arith, ==_iff (key a) k))) (get-keyed roles h.1 k))
    | inl same ↦
        let here : key a ≡ k = (==_iff (key a) k).0 same in
        let absent : IsFound (λ r. key r ≡ key a) roles none =
          subst (IsFound (λ r. key r ≡ key a) roles) h.0 (get-keyed roles h.1 (key a)) in
        rw same (
          Memᴰ.head refl,
          here,
          λ r among p. elim (Memᴰ.cases_cons among) [
            | inl e ↦ e
            | inr later ↦ absurd (absent r later (p ∙ sym here))
          ],
        )
  ]

  get-update-keyed :
      (roles : List Role)
      → IsDict (keyed roles)
      → (k : K) → IsFound (λ r. key r ≡ k) roles (get (update [] (keyed roles)) k)
  unfolding get
  get-update-keyed roles h k =
      subst (IsFound (λ r. key r ≡ k) roles)
        (sym (get-update [] (keyed roles) h k ∙ or_else-none (get (keyed roles) k)))
        (get-keyed roles h k)

-- The role has the key that the default fixes; a default that fixes none is held by no role, and
-- fits each.
abbrev pub HoldsKey : Option ℕ → Role → Type 0
HoldsKey none r = ⊥
HoldsKey (some i) r = r.id ≡ i

abbrev pub FitsKey : Option ℕ → Role → Type 0
FitsKey none r = Unit
FitsKey (some i) r = r.id ≡ i

module _ (role_id : Option ℕ) (role_name : String) (roles : List Role) where
  -- A role of the list with the name of the default, and its key if that is fixed.
  abbrev pub IsMatch : Role → Type 0
  IsMatch r = Memᴰ r roles × (r.name ≡ role_name) × FitsKey role_id r

  -- No role of the list has the name, or the key.
  abbrev pub IsFree : Type 0
  IsFree = (r : Role) → Memᴰ r roles → ((r.name ≡ role_name) → ⊥) × (HoldsKey role_id r → ⊥)

  -- Which of the three a result must be.
  abbrev pub IsDecided : Result Error (Option Role) → Type 0
  IsDecided (ok none) = IsFree
  IsDecided (ok (some r)) = IsMatch r
  IsDecided (raise e) = (e ≡ runtime_error) × (IsFree → ⊥) × ((r : Role) → IsMatch r → ⊥)

  get_by_id-IsFound :
      IsDict (map (λ r. (r.id, r)) roles)
      → IsFound (HoldsKey role_id) roles (get_by_id (roles_by_id roles) role_id)
  get_by_id-IsFound h = by_key role_id
    where
      by_key : (o : Option ℕ) → IsFound (HoldsKey o) roles (get_by_id (roles_by_id roles) o)
      by_key none = λ r among p. p
      by_key (some i) = get-update-keyed (λ r. r.id) roles h i

decide :
    (role_id : Option ℕ) (role_name : String) (roles : List Role) (at_key at_name : Option Role)
    → IsFound (HoldsKey role_id) roles at_key
    → IsFound (λ r. r.name ≡ role_name) roles at_name
    → IsDecided role_id role_name roles (matched role_id role_name at_key at_name)
decide role_id role_name roles none none no_key no_name =
    λ r among. (no_name r among, no_key r among)
decide none role_name roles (some a) at_name (among, p, only) names = absurd p
decide (some i) role_name roles (some a) none (among, here, only) no_name =
    let fails : expected (some i) role_name a ≡ raise runtime_error =
      ground (arith, no_name a among, ==_iff a.name role_name) in
    subst (IsDecided (some i) role_name roles) (sym fails)
      (refl, λ free. (free a among).1 here, λ r m. no_name r m.0 m.1)
decide none role_name roles none (some b) no_key (among, named, only) =
    let returns : expected none role_name b ≡ ok (some b) =
      ground (arith, ==_iff b.name role_name) in
    subst (IsDecided none role_name roles) (sym returns) (among, named, tt)
decide (some i) role_name roles none (some b) no_key (among, named, only) =
    let fails : expected (some i) role_name b ≡ raise runtime_error =
      ground (arith, no_key b among, ==_iff b.id i) in
    subst (IsDecided (some i) role_name roles) (sym fails)
      (refl, λ free. (free b among).0 named, λ r m. no_key r m.0 m.2)
decide (some i) role_name roles (some a) (some b) (among, here, only) (among', named, only') =
    elim (Bool-cases (a.id == b.id)) [
      | inr apart ↦ rw apart (
        refl,
        λ free. (free a among).1 here,
        λ r m.
            let same : a ≡ b = sym (only r m.0 m.2) ∙ only' r m.0 m.1 in
            ground (arith, ap (λ (q : Role). q.id) same, ==_iff a.id b.id),
      )
      | inl same ↦
          let one : b ≡ a = only b among' (sym ((==_iff a.id b.id).0 same) ∙ here) in
          let a_named : a.name ≡ role_name = ap (λ (q : Role). q.name) (sym one) ∙ named in
          let returns : expected (some i) role_name a ≡ ok (some a) =
            ground (arith, ==_iff a.name role_name, ==_iff a.id i) in
          rw same (subst (IsDecided (some i) role_name roles) (sym returns) (among, a_named, here))
    ]

-- For roles with distinct keys and distinct names, the match of a default role is the role of the
-- list that has its name, and its key where that is fixed; it is none exactly if no role has the
-- name or the key; and in every other case it fails with `RuntimeError`.
pub resolve_default_role_match-IsDecided :
    (role_id : Option ℕ) (role_name : String) (roles : List Role)
    → IsDict (map (λ r. (r.id, r)) roles)
    → IsDict (map (λ r. (r.name, r)) roles)
    → IsDecided role_id role_name roles
        (resolve_default_role_match role_id role_name (roles_by_id roles) (roles_by_name roles))
unfolding resolve_default_role_match
resolve_default_role_match-IsDecided role_id role_name roles ids names =
    decide role_id role_name roles (get_by_id (roles_by_id roles) role_id)
      (get (roles_by_name roles) role_name) (get_by_id-IsFound role_id role_name roles ids)
      (get-update-keyed (λ r. r.name) roles names role_name)
