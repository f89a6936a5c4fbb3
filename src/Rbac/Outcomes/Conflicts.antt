-- ===== src/Rbac/Outcomes/Conflicts.antt =====
-- `update_user_admin` on a name that is taken.
use ara_nes_lms_core.Base.{
  nat_eq, string_eq, ℕ, String, true, false, none, some, ◌≡◌, arith, raise, ◌==◌,
}
use ara_nes_lms_core.Errors.{username_already_exists, integrity_error}
use ara_nes_lms_core.Database.{
  User, Tables, Engine, with_session, commit, query, is_unique_violation,
}
use ara_nes_lms_core.Rbac.Rows.{user_by_id, username_unique_identifiers}
use ara_nes_lms_core.Rbac.Users.{update_user_admin}
use ara_nes_lms_core.Rbac.Changes.{rename_user_in}

module _ (engine : Engine) (t : Tables) (i : ℕ) (user : User) (username message : String)
    (found : user_by_id i t ≡ some user) (new : (username == user.username) ≡ false)
    (refused : engine.violation (rename_user_in (some username) user t) ≡ some message)
    (unique : is_unique_violation engine message username_unique_identifiers ≡ true) where
  -- A user is given a name that the database refuses as taken. With no role in the request the
  -- error is `UsernameAlreadyExistsError`. With a role, whichever it is, the query for that role
  -- flushes the name before the `try` block, and the `IntegrityError` itself leaves the function.
  pub update_user_conflict :
      ((with_session (update_user_admin engine i (some username) none) t).0
        ≡ raise username_already_exists)
      × ((role_id : ℕ)
          → (with_session (update_user_admin engine i (some username) (some role_id)) t).0
            ≡ raise (integrity_error message))
  unfolding update_user_admin commit query
  update_user_conflict = (ground arith, λ role_id. ground arith)
