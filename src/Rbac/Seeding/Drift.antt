-- ===== src/Rbac/Seeding/Drift.antt =====
-- Roles that have drifted from the defaults.
use ara_nes_lms_core.Base.{
  nat_eq, string_eq, ℕ, String, Bool, true, Option, none, some, List, [], ◌∷◌, ◌++◌, filter,
  Result-cases, raise, ◌==◌, ◌≡◌, refl, arith, inl, inr, Bool-cases,
}
use ara_nes_lms_core.Dict.{Dict}
use ara_nes_lms_core.Errors.{Error}
use ara_nes_lms_core.Database.{Role, Tables, Engine, Session, opened, with_session, query, flush}
use ara_nes_lms_core.Rbac.Rows.{assign_role}
use ara_nes_lms_core.Rbac.Seeding.{
  resolve_default_role_match, match_defaults, Lists, titled, is_default_role, default_roles,
  roles_by_id, roles_by_name, seed_roles_if_missing,
}

match_defaults-committed :
    (defaults : List (Option ℕ × (String × String))) (by_id : Dict ℕ Role)
    (by_name : Dict String Role) (lists : Lists) (s : Session)
    → (match_defaults defaults by_id by_name lists s).1.committed ≡ s.committed
unfolding match_defaults
match_defaults-committed [] by_id by_name lists s = refl
match_defaults-committed ((role_id, (name, title_key)) ∷ defaults) by_id by_name
      (updates, additions) s =
    let d : Option ℕ × (String × String) = (role_id, (name, title_key)) in
    elim (Result-cases (resolve_default_role_match role_id name by_id by_name)) [
      | inr (e, drift) ↦ rw drift refl
      | inl (none, free) ↦
          rw free (match_defaults-committed defaults by_id by_name (updates, additions ++ d ∷ []) s)
      | inl (some r, taken) ↦ elim (Bool-cases (r.title_key == "")) [
        | inl untitled ↦
            rw (taken, untitled)
              (match_defaults-committed defaults by_id by_name
                (updates ++ titled title_key r ∷ [], additions)
                (record s {
                  pending = assign_role r.id (titled title_key) s.pending;
                  dirty = true;
                }))
        | inr has_title ↦
            rw (taken, has_title)
              (match_defaults-committed defaults by_id by_name (updates, additions) s)
      ]
    ]

module _ (engine : Engine) (do_commit : Bool) (t : Tables) where
  abbrev pub stored_defaults : List Role
  stored_defaults = filter is_default_role t.roles

  -- If matching the default roles with those of the database fails, then the start fails with
  -- that exception, and the database is as before, also where titles were already corrected.
  pub seed_roles_if_missing_drift :
      (e : Error)
      → (match_defaults default_roles
          (roles_by_id stored_defaults)
          (roles_by_name stored_defaults)
          ([], [])
          (opened t)).0
        ≡ raise e
      → with_session (seed_roles_if_missing engine do_commit) t ≡ (raise e, t)
  unfolding seed_roles_if_missing query flush
  seed_roles_if_missing_drift e drift =
      let kept =
        match_defaults-committed default_roles (roles_by_id stored_defaults)
          (roles_by_name stored_defaults) ([], []) (opened t) in
      rw drift (ground (arith, kept))
