-- ===== src/Actor/Caching.antt =====
-- What the attributes of `request.state` change.
use ara_nes_lms_core.Base.{
  nat_eq, string_eq, ℕ, String, Bool, Option, none, some, List, [], ◌∷◌, Result, ok, raise, ◌==◌,
  ◌≡◌, refl, ap, inl, inr, Bool-cases, Option-cases, find_sound, ==_iff,
}
use ara_nes_lms_core.Errors.{Error}
use ara_nes_lms_core.Database.{Role, User, Tables}
use ara_nes_lms_core.Rbac.Rows.{role_by_id}
use ara_nes_lms_core.Actor.{
  Payload, Text, joined, select_row, build_current_actor, found, row_for, by_username,
  get_current_user_with_role, get_current_actor, resolve_token_user_id, resolve_token_username,
}
use ara_nes_lms_core.Actor.Decision.{nothing_cached}

-- A row of the join has the role that its user refers to.
IsJoined : Result Error (User × Role) → Type 0
IsJoined (ok (u, r)) = r.id ≡ u.role_id
IsJoined (raise e) = Unit

joined-IsJoined :
    (condition : User → Bool) (t : Tables) (m : Text) (users : List User)
    → IsJoined (found m t (joined condition t users))
unfolding joined IsJoined
joined-IsJoined condition t m [] = tt
joined-IsJoined condition t m (v ∷ users) = elim (Bool-cases (condition v)) [
  | inr skipped ↦ rw skipped (joined-IsJoined condition t m users)
  | inl meets ↦ elim (Option-cases (role_by_id v.role_id t)) [
    | inl missing ↦ rw (meets, missing) (joined-IsJoined condition t m users)
    | inr (role, here) ↦
        rw (meets, here)
          ((==_iff role.id v.role_id).0 (find_sound (λ r. r.id == v.role_id) t.roles role here))
  ]
]

module _ (methods : Text) (t : Tables) (payload : Payload) where
  by_username-IsJoined : (r : Result Error String) → IsJoined (by_username methods t r)
  unfolding IsJoined
  by_username-IsJoined (raise e) = tt
  by_username-IsJoined (ok username) =
      joined-IsJoined (λ u. u.username == username) t methods t.users

  row_for-IsJoined : (r : Result Error (Option ℕ)) → IsJoined (row_for methods t payload r)
  unfolding IsJoined
  row_for-IsJoined (raise e) = tt
  row_for-IsJoined (ok (some i)) = joined-IsJoined (λ u. u.id == i) t methods t.users
  row_for-IsJoined (ok none) = by_username-IsJoined (resolve_token_username payload)

  same_actor :
      (row : Result Error (User × Role))
      → IsJoined row
      → select_row methods t payload ≡ row
      → (get_current_actor methods t payload
          (get_current_user_with_role methods t payload nothing_cached).1).0
        ≡ (get_current_actor methods t payload nothing_cached).0
  unfolding get_current_actor get_current_user_with_role IsJoined
  same_actor (ok (u, r)) h e =
      rw e (ap (λ i. ok (build_current_actor u.id i u.permissions r.permissions)) h)
  same_actor (raise e) h g = rw (g, get_current_actor) (rw g refl)

  -- In a request where `get_current_user_with_role` has run, `get_current_actor` answers from
  -- `request.state` what it answers from the database at the start of the request: the same
  -- actor, or the same exception.
  pub get_current_actor-get_current_user_with_role :
      (get_current_actor methods t payload
        (get_current_user_with_role methods t payload nothing_cached).1).0
      ≡ (get_current_actor methods t payload nothing_cached).0
  get_current_actor-get_current_user_with_role =
      same_actor (select_row methods t payload)
        (unfold select_row in row_for-IsJoined (resolve_token_user_id methods payload)) refl
