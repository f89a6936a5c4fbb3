-- ===== src/Endpoints/Coherence/ReadingUsers.antt =====
-- Reading users: `get_user` and `list_users` of src/user_role/endpoints/users.py.
use ara_nes_lms_core.Base.{
  value_or, string_eq, nat_eq, ℕ, Option, none, some, List, map, ◌==◌, Result, ok, raise, ◌≡◌, refl,
  sym, ap, Option-cases, Bool-cases, inl, inr,
}
use mathlib.Core.Path.{subst}
use ara_nes_lms_core.Errors.{Error, http_exception, user_not_found}
use ara_nes_lms_core.Database.{User, Tables, with_session, query}
use ara_nes_lms_core.Rbac.Rows.{user_by_id, sort_users}
use ara_nes_lms_core.Rbac.Users as Crud
use ara_nes_lms_core.RbacCache as Caching
use ara_nes_lms_core.RbacCache.{
  build_user_cache_key, build_user_list_cache_key, normalize_item, normalize_list,
  ids_are_strictly_increasing,
}
use ara_nes_lms_core.Endpoints.World.{
  Model, UserView, serialize_user, user_schema, Services, Reply, one_user, many_users, World, Cache,
  finish, translated,
}
use ara_nes_lms_core.Endpoints.Users.{
  user_status, set_user, list_users, get_user, user_from, list_from,
}
use ara_nes_lms_core.Endpoints.Roles.{no_status}
use ara_nes_lms_core.Endpoints.Coherence.Reading.{same_payload}
use ara_nes_lms_core.Endpoints.Coherence.Store.{
  IsReliable, set-IsFilled, get_item-IsFilled, get_items-IsFilled,
}
use ara_nes_lms_core.Endpoints.Coherence.Entries.{
  IsFaithful, IsRight, user_written-IsRight, users_written-IsRight,
}
use ara_nes_lms_core.Endpoints.Coherence.OfRoles.{IsCoherentWith, IsCoherent}

normalized :
    {P : Type 0} (model : Model P UserView)
    → ((v : UserView) → model.validate (model.dump v) ≡ some v)
    → (i : ℕ) (u v : UserView) → normalize_item (user_schema model) (model.dump u) i ≡ some v
    → v ≡ u
unfolding normalize_item
normalized model read i u v = rw (read u) (elim (Bool-cases (u.id == i)) [
  | inl same ↦ rw same (λ h. sym (ap (value_or u) h))
  | inr other ↦ rw other (λ h. absurd (cc))
])

normalized_list :
    {P : Type 0} (model : Model P UserView)
    → ((vs : List UserView) → model.validate_items (model.dump_items vs) ≡ some vs)
    → (us vs : List UserView) → normalize_list (user_schema model) (model.dump_items us) ≡ some vs
    → vs ≡ us
unfolding normalize_list
normalized_list model read us vs =
    rw (read us) (elim (Bool-cases (ids_are_strictly_increasing (user_schema model) us)) [
      | inl rising ↦ rw rising (λ h. sym (ap (value_or us) h))
      | inr other ↦ rw other (λ h. absurd (cc))
    ])

-- What `get_user` and `list_users` answer without a cache.
unfoldable pub user_answer : ℕ → Tables → Result Error Reply
unfolding serialize_user
user_answer i t = elim (user_by_id i t) [
  | none ↦ raise (http_exception 404)
  | some user ↦ ok (one_user (serialize_user user))
]

unfoldable pub users_answer : Tables → Result Error Reply
unfolding serialize_user sort_users
users_answer t = ok (many_users (map serialize_user (sort_users t.users)))

module _ (services : Services) (reliable : IsReliable services.client)
    (faithful : IsFaithful services) where
  open services use {client, json, user_model, str, engine}

  module _ (i : ℕ) (w : World services) (coherent : IsCoherent services reliable faithful w) where
    -- The view of the user that the tables have under the key.
    abbrev IsView : UserView → Type 0
    IsView v = (r : User) × (user_by_id i w.tables ≡ some r) × (v ≡ serialize_user r)

    get_step :
        (r : User)
        → user_by_id i w.tables ≡ some r
        → with_session (Crud.get_user_by_id engine i) w.tables ≡ (ok r, w.tables)
    unfolding Crud.get_user_by_id query
    get_step r found = rw found refl

    get_missing :
        user_by_id i w.tables ≡ none
        → with_session (Crud.get_user_by_id engine i) w.tables ≡ (raise user_not_found, w.tables)
    unfolding Crud.get_user_by_id query
    get_missing missing = rw missing refl

    abbrev IsAnswered : Result Error Reply × World services → Type 0
    IsAnswered out = IsCoherent services reliable faithful out.1 × (out.0 ≡ user_answer i w.tables)

    fill_user-IsCoherent :
        (r : User) (cache : Cache services)
        → user_by_id i w.tables ≡ some r
        → IsCoherentWith services reliable faithful w.tables cache
        → IsCoherentWith services reliable faithful w.tables (set_user services i r cache)
    unfolding Caching.set_user
    fill_user-IsCoherent r cache found h =
        set-IsFilled client reliable json (IsRight services w.tables) (IsRight services w.tables)
          (build_user_cache_key str i) (user_model.dump (serialize_user r)) none
          (user_written-IsRight services faithful i r w.tables found) (λ k x other right. right)
          cache h

    user_from-IsAnswered :
        (q : Option UserView × Cache services)
        → IsCoherentWith services reliable faithful w.tables q.1
        → ((v : UserView) → q.0 ≡ some v → IsView v)
        → IsAnswered (user_from services i w q)
    unfolding user_answer finish translated user_status
    user_from-IsAnswered (some v, cache) h view =
        let (r, found, same) = view v refl in
        (h, rw (found, user_answer) (ap (λ o. ok (one_user o)) same))
    user_from-IsAnswered (none, cache) h view = elim (Option-cases (user_by_id i w.tables)) [
      | inl missing ↦
          subst
            (λ p. IsAnswered (
              finish services user_status (set_user services i) (λ r. one_user (serialize_user r))
                cache p))
            (sym (get_missing missing)) (h, rw (missing, user_answer) refl)
      | inr (r, found) ↦
          subst
            (λ p. IsAnswered (
              finish services user_status (set_user services i) (λ r. one_user (serialize_user r))
                cache p))
            (sym (get_step r found))
            (fill_user-IsCoherent r cache found h, rw (found, user_answer) refl)
    ]

    -- A user that is read from the cache.
    read_user :
        (p : services.Payload)
        → IsRight services w.tables (build_user_cache_key str i) (json.dumps p)
        → (v : UserView) → normalize_item (user_schema user_model) p i ≡ some v
        → IsView v
    unfolding normalize_item
    read_user p right v h =
        let (r, found, text) = right.user i refl in
        let same : p ≡ user_model.dump (serialize_user r) =
          same_payload json faithful.codec p _ text in
        (
          r,
          found,
          subst (λ q. normalize_item (user_schema user_model) q i ≡ some v → v ≡ serialize_user r)
              (sym same) (normalized user_model faithful.user_read i (serialize_user r) v) h,
        )

    -- `get_user` answers what the tables have, and leaves the cache right.
    pub get_user-IsAnswered : IsAnswered (get_user services i w)
    unfolding get_user Caching.get_user
    get_user-IsAnswered =
        let (kept, view) =
          get_item-IsFilled client reliable json faithful.codec (IsRight services w.tables)
            (build_user_cache_key str i)
            (λ x right.
              let (r, found, text) = right.user i refl in
              (user_model.dump (serialize_user r), text))
            (user_schema user_model) i IsView read_user w.cache coherent in
        user_from-IsAnswered _ kept view

  module _ (w : World services) (coherent : IsCoherent services reliable faithful w) where
    list_step :
        with_session (Crud.list_users engine) w.tables ≡ (ok (sort_users w.tables.users), w.tables)
    unfolding Crud.list_users query
    list_step = refl

    abbrev AreListed : Result Error Reply × World services → Type 0
    AreListed out = IsCoherent services reliable faithful out.1 × (out.0 ≡ users_answer w.tables)

    abbrev AreViews : List UserView → Type 0
    AreViews views = views ≡ map serialize_user (sort_users w.tables.users)

    fill_users-IsCoherent :
        (cache : Cache services)
        → IsCoherentWith services reliable faithful w.tables cache
        → IsCoherentWith services reliable faithful w.tables (
            Caching.set_user_list client json
              (user_schema user_model)
              (map serialize_user (sort_users w.tables.users))
              none
              cache)
    unfolding Caching.set_user_list
    fill_users-IsCoherent cache h =
        set-IsFilled client reliable json (IsRight services w.tables) (IsRight services w.tables)
          build_user_list_cache_key
          (user_model.dump_items (map serialize_user (sort_users w.tables.users))) none
          (users_written-IsRight services faithful w.tables) (λ k x other right. right) cache h

    list_from-AreListed :
        (q : Option (List UserView) × Cache services)
        → IsCoherentWith services reliable faithful w.tables q.1
        → ((views : List UserView) → q.0 ≡ some views → AreViews views)
        → AreListed (list_from services w q)
    unfolding users_answer finish
    list_from-AreListed (some views, cache) h listed =
        (h, ap (λ vs. ok (many_users vs)) (listed views refl))
    list_from-AreListed (none, cache) h listed =
        subst
          (λ p. AreListed (
            finish services no_status
              (λ users.
                Caching.set_user_list client json (user_schema user_model)
                  (map serialize_user users) none)
              (λ users. many_users (map serialize_user users)) cache p))
          (sym list_step) (fill_users-IsCoherent cache h, refl)

    read_users :
        (p : services.Payload)
        → IsRight services w.tables build_user_list_cache_key (json.dumps p)
        → (views : List UserView) → normalize_list (user_schema user_model) p ≡ some views
        → AreViews views
    read_users p right views h =
        let same = same_payload json faithful.codec p _ (right.users refl) in
        subst (λ q. normalize_list (user_schema user_model) q ≡ some views → AreViews views)
          (sym same)
          (normalized_list user_model faithful.users_read
            (map serialize_user (sort_users w.tables.users)) views)
          h

    -- `list_users` answers what the tables have, and leaves the cache right.
    pub list_users-AreListed : AreListed (list_users services w)
    unfolding list_users Caching.get_user_list
    list_users-AreListed =
        let (kept, listed) =
          get_items-IsFilled client reliable json faithful.codec (IsRight services w.tables)
            build_user_list_cache_key
            (λ x right. (
              user_model.dump_items (map serialize_user (sort_users w.tables.users)),
              right.users refl,
            ))
            (user_schema user_model) AreViews read_users w.cache coherent in
        list_from-AreListed _ kept listed
