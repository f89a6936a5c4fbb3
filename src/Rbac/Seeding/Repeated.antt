-- ===== src/Rbac/Seeding/Repeated.antt =====
-- `init_role_permissions_if_missing`, run again.
use mathlib.Core.List.{Memᴰ}
use mathlib.Core.List.Memᴰ
use ara_nes_lms_core.Base.{
  nat_eq, ℕ, Bool, true, false, none, List, [], ◌∷◌, map, any, ◌==◌, ==_iff, ok, Result, ◌≡◌, refl,
  sym, ap, ◌∙◌, arith, inl, inr, Bool-cases, Option-cases, if◌then◌else◌,
}
use ara_nes_lms_core.Permissions.Registry.{RbacService}
use ara_nes_lms_core.Errors.{Error}
use ara_nes_lms_core.Database.{Role, Tables, Engine, with_session, query, commit, flush}
use ara_nes_lms_core.Rbac.Rows.{assign_role}
use ara_nes_lms_core.Rbac.Seeding.{
  init_role, count_changed, write_roles, init_role_permissions_if_missing,
}
use ara_nes_lms_core.Rbac.Seeding.Filling.{get-init_role, init_role-init_role}

module _ (service : RbacService) where
  abbrev filled : Role → Role
  filled r = (init_role service r).0

  -- A row, after the roles of a list were written.
  abbrev written : List Role → Role → Role
  written roles r = if any (λ p. r.id == p.id) roles then filled r else r

  id-filled : (r : Role) → (filled r).id ≡ r.id
  id-filled r = (get-init_role service r "").0

  filled-filled : (r : Role) → filled (filled r) ≡ filled r
  filled-filled r = ap (λ p. p.0) (init_role-init_role service r)

  if_same : (b : Bool) (r : Role) → (if b then r else r) ≡ r
  if_same true r = refl
  if_same false r = refl

  map-written_none : (xs : List Role) → map (written []) xs ≡ xs
  map-written_none [] = refl
  map-written_none (x ∷ xs) = ap (λ rest. x ∷ rest) (map-written_none xs)

  written-cons :
      (p : Role) (roles : List Role) (r : Role)
      → written roles (if r.id == p.id then filled r else r) ≡ written (p ∷ roles) r
  written-cons p roles r = elim (Bool-cases (r.id == p.id)) [
    | inl same ↦
        rw (same, id-filled r, filled-filled r) (if_same (any (λ q. r.id == q.id) roles) (filled r))
    | inr other ↦ rw other refl
  ]

  map-map :
      (f g h : Role → Role)
      → ((r : Role) → g (f r) ≡ h r)
      → (xs : List Role) → map g (map f xs) ≡ map h xs
  map-map f g h e [] = refl
  map-map f g h e (x ∷ xs) = rw (e x, map-map f g h e xs) refl

  roles-write_roles :
      (roles : List Role) (t : Tables)
      → (write_roles service roles t).roles ≡ map (written roles) t.roles
  roles-write_roles [] t = sym (map-written_none t.roles)
  roles-write_roles (p ∷ roles) t =
      roles-write_roles roles (assign_role p.id filled t)
      ∙ map-map (λ r. if r.id == p.id then filled r else r) (written roles) (written (p ∷ roles))
          (written-cons p roles) t.roles

  any-Memᴰ : (r : Role) (roles : List Role) → Memᴰ r roles → any (λ p. r.id == p.id) roles ≡ true
  any-Memᴰ r [] h = absurd (Memᴰ.not-nil h)
  any-Memᴰ r (p ∷ roles) h = elim (Memᴰ.cases_cons h) [
    | inl e ↦ ground (arith, ap (λ (q : Role). q.id) e, ==_iff r.id p.id)
    | inr later ↦ ground (arith, any-Memᴰ r roles later)
  ]

  count-written :
      (roles xs : List Role)
      → ((r : Role) → Memᴰ r xs → any (λ p. r.id == p.id) roles ≡ true)
      → count_changed service (map (written roles) xs) ≡ 0
  count-written roles [] h = refl
  count-written roles (x ∷ xs) h =
      rw (h x (Memᴰ.head refl), init_role-init_role service x)
        (count-written roles xs (λ r later. h r (Memᴰ.tail later)))

  count-write_roles : (t : Tables) → count_changed service (write_roles service t.roles t).roles ≡ 0
  count-write_roles t =
      ap (count_changed service) (roles-write_roles t.roles t)
      ∙ count-written t.roles t.roles (λ r among. any-Memᴰ r t.roles among)

  module _ (engine : Engine) where
    -- Nothing to fill.
    unchanged :
        (u : Tables)
        → count_changed service u.roles ≡ 0
        → with_session (init_role_permissions_if_missing engine service true none) u ≡ (ok 0, u)
    unfolding init_role_permissions_if_missing query flush
    unchanged u h = rw h refl

    left_filled :
        (t u : Tables) (n : ℕ)
        → with_session (init_role_permissions_if_missing engine service true none) t ≡ (ok n, u)
        → count_changed service u.roles ≡ 0
    unfolding init_role_permissions_if_missing query flush commit
    left_filled t u n = elim (Bool-cases (count_changed service t.roles == 0)) [
      | inl nothing ↦ rw nothing (λ h.
          sym (ap (λ (p : Result Error ℕ × Tables). count_changed service p.1.roles) h)
          ∙ (==_iff (count_changed service t.roles) 0).0 nothing)
      | inr some_changed ↦
          rw some_changed (elim (Option-cases (engine.violation (write_roles service t.roles t))) [
            | inl accepted ↦ rw accepted (λ h.
                sym (ap (λ (p : Result Error ℕ × Tables). count_changed service p.1.roles) h)
                ∙ count-write_roles t)
            | inr (message, refused) ↦ rw refused (λ h. absurd (ground arith))
          ])
    ]

    -- If `init_role_permissions_if_missing`, over all roles and with a commit, returns, then a
    -- second run of it on the tables that it leaves returns 0 and leaves them as they are.
    pub init_role_permissions_if_missing_again :
        (t u : Tables) (n : ℕ)
        → with_session (init_role_permissions_if_missing engine service true none) t ≡ (ok n, u)
        → with_session (init_role_permissions_if_missing engine service true none) u ≡ (ok 0, u)
    init_role_permissions_if_missing_again t u n h = unchanged u (left_filled t u n h)
