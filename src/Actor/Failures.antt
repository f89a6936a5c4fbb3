-- ===== src/Actor/Failures.antt =====
-- The exceptions of the dependencies.
use ara_nes_lms_core.Base.{
  ◌↔◌, nat_eq, string_eq, ℕ, zero, suc, ◌⊎◌, String, true, Option, none, some, Result, ok, raise,
  ◌==◌, ◌≡◌, refl, ◌∙◌, arith, inl, inr, Bool-cases, Result-cases,
}
use ara_nes_lms_core.Errors.{Error, http_exception, value_error}
use ara_nes_lms_core.Database.{Role, User, Tables}
use ara_nes_lms_core.Actor.{
  CurrentActor, RequestState, Claim, Payload, Text, number, text, negative, other, select_row,
  found, by_username, get_current_actor, payload_claim, resolve_token_user_id,
  resolve_token_username, positive, user_id_of, username_of, get_cached_actor_from_user_role_pair,
  joined, keep_actor, actor_or_row, actor_or_pair,
}
use ara_nes_lms_core.Actor.Decision.{nothing_cached}

module _ (methods : Text) where
  -- A claim that passes for digits, and that `int` refuses all the same.
  abbrev pub IsMisread : Option Claim → Type 0
  IsMisread c =
      (s : String) × (c ≡ some (text s))
      × (methods.isdigit (methods.strip s) ≡ true)
      × (methods.int (methods.strip s) ≡ none)

  -- Status 401, or the exception of `int` on such a claim.
  abbrev pub IsFailure : Option Claim → Error → Type 0
  IsFailure c e = (e ≡ http_exception 401) ⊎ ((e ≡ value_error) × IsMisread c)

  positive-raise :
      (n : Option ℕ) (e : Error)
      → positive methods n ≡ raise e
      → (e ≡ http_exception 401) ⊎ ((e ≡ value_error) × (n ≡ none))
  positive-raise none e h = inr (ground arith, refl)
  positive-raise (some zero) e h = inl (ground arith)
  positive-raise (some (suc n)) e h = absurd (ground arith)

  user_id_of-raise : (c : Option Claim) (e : Error) → user_id_of methods c ≡ raise e → IsFailure c e
  user_id_of-raise none e h = absurd (ground arith)
  user_id_of-raise (some (number n)) e h = inl (ground arith)
  user_id_of-raise (some negative) e h = inl (ground arith)
  user_id_of-raise (some other) e h = inl (ground arith)
  user_id_of-raise (some (text s)) e h = elim (Bool-cases (methods.isdigit (methods.strip s))) [
    | inr no_digits ↦ inl (ground arith)
    | inl digits ↦ elim (positive-raise (methods.int (methods.strip s)) e (rw digits at h)) [
      | inl refused ↦ inl refused
      | inr (same, unread) ↦ inr (same, (s, refl, digits, unread))
    ]
  ]

  username_of-raise :
      (c : Option Claim) (e : Error) → username_of c ≡ raise e → e ≡ http_exception 401
  username_of-raise none e h = ground arith
  username_of-raise (some (number n)) e h = ground arith
  username_of-raise (some negative) e h = ground arith
  username_of-raise (some other) e h = ground arith
  username_of-raise (some (text s)) e h = ground arith

  module _ (t : Tables) (payload : Payload) where
    abbrev uid : Option Claim
    uid = payload_claim payload "uid"

    found-raise :
        (o : Option (User × Role)) (e : Error)
        → found methods t o ≡ raise e
        → e ≡ http_exception 401
    found-raise none e h = ground arith
    found-raise (some row) e h = absurd (ground arith)

    by_username-raise :
        (e : Error)
        → by_username methods t (resolve_token_username payload) ≡ raise e
        → e ≡ http_exception 401
    unfolding resolve_token_username
    by_username-raise e = elim (Result-cases (username_of (payload_claim payload "sub"))) [
      | inl (username, named) ↦
          rw named (found-raise (joined (λ u. u.username == username) t t.users) e)
      | inr (e', refused) ↦
          let status = username_of-raise (payload_claim payload "sub") e' refused in
          rw refused (λ h. ground (arith, status))
    ]

    select_row-raise : (e : Error) → select_row methods t payload ≡ raise e → IsFailure uid e
    unfolding select_row resolve_token_user_id
    select_row-raise e = elim (Result-cases (user_id_of methods uid)) [
      | inr (e', refused) ↦ rw refused (λ h. user_id_of-raise uid e (refused ∙ ground arith))
      | inl (none, absent) ↦ rw absent (λ h. inl (by_username-raise e h))
      | inl (some i, present) ↦
          rw present (λ h. inl (found-raise (joined (λ u. u.id == i) t t.users) e h))
    ]

    kept-raise :
        (r : Result Error (User × Role)) (state : RequestState) (e : Error)
        → (keep_actor methods t r state).0 ≡ raise e
        → r ≡ raise e
    kept-raise (raise e') state e h = ground arith
    kept-raise (ok row) state e h = absurd (ground arith)

    row-raise :
        (cached : Option CurrentActor × RequestState) (e : Error)
        → (actor_or_row methods t payload cached).0 ≡ raise e
        → select_row methods t payload ≡ raise e
    row-raise (some actor, state) e h = absurd (ground arith)
    row-raise (none, state) e h = kept-raise (select_row methods t payload) state e h

    pair-raise :
        (cached : Option CurrentActor) (state : RequestState) (e : Error)
        → (actor_or_pair methods t payload cached state).0 ≡ raise e
        → select_row methods t payload ≡ raise e
    pair-raise (some actor) state e h = absurd (ground arith)
    pair-raise none state e h = row-raise (get_cached_actor_from_user_role_pair state) e h

    -- What fails at a state fails in the query.
    from_row :
        (state : RequestState) (e : Error)
        → (get_current_actor methods t payload state).0 ≡ raise e
        → select_row methods t payload ≡ raise e
    unfolding get_current_actor
    from_row state e = pair-raise state.current_actor state e

    at_start :
        (e : Error)
        → select_row methods t payload ≡ raise e
        → (get_current_actor methods t payload nothing_cached).0 ≡ raise e
    unfolding get_current_actor get_cached_actor_from_user_role_pair
    at_start e failed = rw failed refl

    misread-value_error : IsMisread uid → select_row methods t payload ≡ raise value_error
    unfolding select_row resolve_token_user_id
    misread-value_error (s, claim, digits, unread) = rw (claim, digits, unread) refl

    pub get_current_actor-raise :
        (state : RequestState) (e : Error)
        → (get_current_actor methods t payload state).0 ≡ raise e
        → IsFailure uid e
    get_current_actor-raise state e h = select_row-raise e (from_row state e h)

    IsMisread-of_failure : IsFailure uid value_error → IsMisread uid
    IsMisread-of_failure (inl status) = absurd (cc)
    IsMisread-of_failure (inr (same, misread)) = misread

    -- At the start of a request, `get_current_actor` raises `ValueError` exactly if the claim `uid`
    -- is a text for which `isdigit` holds and that `int` refuses.
    pub get_current_actor-value_error_iff :
        ((get_current_actor methods t payload nothing_cached).0 ≡ raise value_error) ↔ IsMisread uid
    get_current_actor-value_error_iff = (
      λ h. IsMisread-of_failure (get_current_actor-raise nothing_cached value_error h),
      λ m. at_start value_error (misread-value_error m),
    )
