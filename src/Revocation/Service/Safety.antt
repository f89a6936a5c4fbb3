-- ===== src/Revocation/Service/Safety.antt =====
-- `is_token_revoked` after `revoke_token` and other calls of both, in a process without a shared
-- cache.
use ara_nes_lms_core.Base.{
  string_eq, ℕ, ◌≤◌, ◌<◌, All, String, true, none, List, [], ◌∷◌, ◌≡◌, ◌==◌, ==_refl,
}
use ara_nes_lms_core.Dict.{IsDict}
use ara_nes_lms_core.Revocation.Service.{Setting, Process, is_token_revoked, revoke_token}
use ara_nes_lms_core.Revocation.Service.Steps.{
  IsRevoked, is_token_revoked-IsRevoked, revoke_token-IsRevoked, start-IsRevoked,
}

-- What may happen to the process between: a token is asked for, or revoked.
pub data Event : Type 0 where
  asked : String → ℕ → ℕ → Event
  revoked : String → ℕ → ℕ → ℕ → Event

-- An event before the deadline, which does not give the token itself an earlier one.
abbrev pub IsBefore : String → ℕ → Event → Type 0
IsBefore j deadline (asked k exp now) = now < deadline
IsBefore j deadline (revoked k e stored_at now) =
    (stored_at < deadline) × ((k == j) ≡ true → deadline ≤ e)

module _ (setting : Setting) where
  unfoldable pub happen : List Event → Process setting → Process setting
  happen [] p = p
  happen (asked k exp now ∷ events) p = happen events (is_token_revoked setting k exp now p).1
  happen (revoked k e stored_at now ∷ events) p =
      happen events (revoke_token setting k e stored_at now p)

  happen-IsRevoked :
      (j : String) (deadline : ℕ) (events : List Event) (p : Process setting)
      → All (IsBefore j deadline) events
      → IsRevoked setting j deadline p
      → IsRevoked setting j deadline (happen events p)
  unfolding happen
  happen-IsRevoked j deadline [] p before h = h
  happen-IsRevoked j deadline (asked k exp now ∷ events) p before h =
      happen-IsRevoked j deadline events (is_token_revoked setting k exp now p).1 before.1
        (is_token_revoked-IsRevoked setting j deadline p k exp now before.0 h).1
  happen-IsRevoked j deadline (revoked k e stored_at now ∷ events) p before h =
      happen-IsRevoked j deadline events (revoke_token setting k e stored_at now p) before.1
        (revoke_token-IsRevoked setting j deadline p k e stored_at now before.0.1 before.0.0 h)

  -- In a process without a shared cache, whose local cache and table have distinct keys, a token
  -- that `revoke_token` revokes with an expiry counts as revoked at every instant before it:
  -- whatever the local cache answered for it before, and after any sequence of questions and
  -- revocations before the expiry that does not revoke it again with an earlier one.
  pub is_token_revoked-revoke_token :
      (p : Process setting) (jti : String) (expires_at stored_at now : ℕ)
      → p.shared ≡ none
      → IsDict p.local
      → IsDict p.table
      → (events : List Event) → All (IsBefore jti expires_at) events
      → (exp at : ℕ) → at < expires_at
      → (is_token_revoked setting jti exp at
          (happen events (revoke_token setting jti expires_at stored_at now p))).0
        ≡ true
  is_token_revoked-revoke_token p jti expires_at stored_at now alone local_dict table_dict events
        before exp at lt =
      let start =
        start-IsRevoked setting p jti expires_at stored_at now alone local_dict table_dict in
      let p' = revoke_token setting jti expires_at stored_at now p in
      (is_token_revoked-IsRevoked setting jti expires_at (happen events p') jti exp at lt
          (happen-IsRevoked jti expires_at events p' before start)).0
        (==_refl jti)
