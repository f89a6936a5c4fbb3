-- ===== src/Endpoints/Coherence/Reading.antt =====
-- Reading roles: `get_role` and `list_roles` of src/user_role/endpoints/roles.py.
use ara_nes_lms_core.Base.{
  value_or, string_eq, nat_eq, ℕ, Option, none, some, List, map, ◌==◌, Result, ok, raise, ◌≡◌, refl,
  sym, ap, ◌∙◌, Option-cases, Bool-cases, inl, inr,
}
use mathlib.Core.Path.{subst}
use ara_nes_lms_core.Errors.{Error, role_not_found}
use ara_nes_lms_core.Database.{Role, with_session, query}
use ara_nes_lms_core.Rbac.Rows.{role_by_id, sort_roles}
use ara_nes_lms_core.Rbac.Roles as Crud
use ara_nes_lms_core.RedisCache.{Json, Parsed, dict}
use ara_nes_lms_core.RedisCache.RoundTrip.{IsCodec}
use ara_nes_lms_core.RbacCache as Caching
use ara_nes_lms_core.RbacCache.{
  build_role_cache_key, build_role_list_cache_key, normalize_item, normalize_list,
  ids_are_strictly_increasing,
}
use ara_nes_lms_core.Endpoints.World.{
  Model, RoleView, serialize_role, role_schema, Services, Reply, one_role, many_roles, World, Cache,
  finish, translated,
}
use ara_nes_lms_core.Endpoints.Roles.{
  get_role_status, no_status, set_role, list_roles, get_role, role_from, list_from,
}
use ara_nes_lms_core.Endpoints.Coherence.Store.{
  IsReliable, set-IsFilled, get_item-IsFilled, get_items-IsFilled,
}
use ara_nes_lms_core.Endpoints.Coherence.Entries.{
  IsFaithful, IsRight, role_written-IsRight, roles_written-IsRight,
}
use ara_nes_lms_core.Endpoints.Coherence.OfRoles.{
  IsCoherentWith, IsCoherent, role_answer, roles_answer,
}

abbrev dict_or : {P : Type 0} → P → Parsed P → P
dict_or p (dict q) = q
dict_or p _ = p

pub same_payload :
    {P : Type 0} (json : Json P) → IsCodec json → (p q : P) → json.dumps p ≡ json.dumps q → p ≡ q
same_payload json codec p q e =
    ap (dict_or p) (sym (codec.loads-dumps p) ∙ ap json.loads e ∙ codec.loads-dumps q)

normalized :
    {P : Type 0} (model : Model P RoleView)
    → ((v : RoleView) → model.validate (model.dump v) ≡ some v)
    → (i : ℕ) (u v : RoleView) → normalize_item (role_schema model) (model.dump u) i ≡ some v
    → v ≡ u
unfolding normalize_item
normalized model read i u v = rw (read u) (elim (Bool-cases (u.id == i)) [
  | inl same ↦ rw same (λ h. sym (ap (value_or u) h))
  | inr other ↦ rw other (λ h. absurd (cc))
])

normalized_list :
    {P : Type 0} (model : Model P RoleView)
    → ((vs : List RoleView) → model.validate_items (model.dump_items vs) ≡ some vs)
    → (us vs : List RoleView) → normalize_list (role_schema model) (model.dump_items us) ≡ some vs
    → vs ≡ us
unfolding normalize_list
normalized_list model read us vs =
    rw (read us) (elim (Bool-cases (ids_are_strictly_increasing (role_schema model) us)) [
      | inl rising ↦ rw rising (λ h. sym (ap (value_or us) h))
      | inr other ↦ rw other (λ h. absurd (cc))
    ])

module _ (services : Services) (reliable : IsReliable services.client)
    (faithful : IsFaithful services) where
  open services use {client, json, role_model, str, engine}

  module _ (i : ℕ) (w : World services) (coherent : IsCoherent services reliable faithful w) where
    -- The view of the role that the tables have under the key.
    abbrev IsView : RoleView → Type 0
    IsView v = (r : Role) × (role_by_id i w.tables ≡ some r) × (v ≡ serialize_role r)

    get_step :
        (r : Role)
        → role_by_id i w.tables ≡ some r
        → with_session (Crud.get_role_by_id engine i) w.tables ≡ (ok r, w.tables)
    unfolding Crud.get_role_by_id query
    get_step r found = rw found refl

    get_missing :
        role_by_id i w.tables ≡ none
        → with_session (Crud.get_role_by_id engine i) w.tables ≡ (raise role_not_found, w.tables)
    unfolding Crud.get_role_by_id query
    get_missing missing = rw missing refl

    abbrev IsAnswered : Result Error Reply × World services → Type 0
    IsAnswered out = IsCoherent services reliable faithful out.1 × (out.0 ≡ role_answer i w.tables)

    fill_role-IsCoherent :
        (r : Role) (cache : Cache services)
        → role_by_id i w.tables ≡ some r
        → IsCoherentWith services reliable faithful w.tables cache
        → IsCoherentWith services reliable faithful w.tables (set_role services i r cache)
    unfolding Caching.set_role
    fill_role-IsCoherent r cache found h =
        set-IsFilled client reliable json (IsRight services w.tables) (IsRight services w.tables)
          (build_role_cache_key str i) (role_model.dump (serialize_role r)) none
          (role_written-IsRight services faithful i r w.tables found) (λ k x other right. right)
          cache h

    role_from-IsAnswered :
        (q : Option RoleView × Cache services)
        → IsCoherentWith services reliable faithful w.tables q.1
        → ((v : RoleView) → q.0 ≡ some v → IsView v)
        → IsAnswered (role_from services i w q)
    unfolding role_answer finish translated get_role_status
    role_from-IsAnswered (some v, cache) h view =
        let (r, found, same) = view v refl in
        (h, rw (found, role_answer) (ap (λ o. ok (one_role o)) same))
    role_from-IsAnswered (none, cache) h view = elim (Option-cases (role_by_id i w.tables)) [
      | inl missing ↦
          subst
            (λ p. IsAnswered (
              finish services get_role_status (set_role services i)
                (λ r. one_role (serialize_role r)) cache p))
            (sym (get_missing missing)) (h, rw (missing, role_answer) refl)
      | inr (r, found) ↦
          subst
            (λ p. IsAnswered (
              finish services get_role_status (set_role services i)
                (λ r. one_role (serialize_role r)) cache p))
            (sym (get_step r found))
            (fill_role-IsCoherent r cache found h, rw (found, role_answer) refl)
    ]

    -- A role that is read from the cache.
    read_role :
        (p : services.Payload)
        → IsRight services w.tables (build_role_cache_key str i) (json.dumps p)
        → (v : RoleView) → normalize_item (role_schema role_model) p i ≡ some v
        → IsView v
    unfolding normalize_item
    read_role p right v h =
        let (r, found, text) = right.role i refl in
        let same : p ≡ role_model.dump (serialize_role r) =
          same_payload json faithful.codec p _ text in
        (
          r,
          found,
          subst (λ q. normalize_item (role_schema role_model) q i ≡ some v → v ≡ serialize_role r)
              (sym same) (normalized role_model faithful.role_read i (serialize_role r) v) h,
        )

    -- `get_role` answers what the tables have, and leaves the cache right.
    pub get_role-IsAnswered : IsAnswered (get_role services i w)
    unfolding get_role Caching.get_role
    get_role-IsAnswered =
        let (kept, view) =
          get_item-IsFilled client reliable json faithful.codec (IsRight services w.tables)
            (build_role_cache_key str i)
            (λ x right.
              let (r, found, text) = right.role i refl in
              (role_model.dump (serialize_role r), text))
            (role_schema role_model) i IsView read_role w.cache coherent in
        role_from-IsAnswered _ kept view

  module _ (w : World services) (coherent : IsCoherent services reliable faithful w) where
    list_step :
        with_session (Crud.list_roles engine) w.tables ≡ (ok (sort_roles w.tables.roles), w.tables)
    unfolding Crud.list_roles query
    list_step = refl

    abbrev AreListed : Result Error Reply × World services → Type 0
    AreListed out = IsCoherent services reliable faithful out.1 × (out.0 ≡ roles_answer w.tables)

    abbrev AreViews : List RoleView → Type 0
    AreViews views = views ≡ map serialize_role (sort_roles w.tables.roles)

    fill_roles-IsCoherent :
        (cache : Cache services)
        → IsCoherentWith services reliable faithful w.tables cache
        → IsCoherentWith services reliable faithful w.tables (
            Caching.set_role_list client json
              (role_schema role_model)
              (map serialize_role (sort_roles w.tables.roles))
              none
              cache)
    unfolding Caching.set_role_list
    fill_roles-IsCoherent cache h =
        set-IsFilled client reliable json (IsRight services w.tables) (IsRight services w.tables)
          build_role_list_cache_key
          (role_model.dump_items (map serialize_role (sort_roles w.tables.roles))) none
          (roles_written-IsRight services faithful w.tables) (λ k x other right. right) cache h

    list_from-AreListed :
        (q : Option (List RoleView) × Cache services)
        → IsCoherentWith services reliable faithful w.tables q.1
        → ((views : List RoleView) → q.0 ≡ some views → AreViews views)
        → AreListed (list_from services w q)
    unfolding roles_answer finish
    list_from-AreListed (some views, cache) h listed =
        (h, ap (λ vs. ok (many_roles vs)) (listed views refl))
    list_from-AreListed (none, cache) h listed =
        subst
          (λ p. AreListed (
            finish services no_status
              (λ roles.
                Caching.set_role_list client json (role_schema role_model)
                  (map serialize_role roles) none)
              (λ roles. many_roles (map serialize_role roles)) cache p))
          (sym list_step) (fill_roles-IsCoherent cache h, refl)

    read_roles :
        (p : services.Payload)
        → IsRight services w.tables build_role_list_cache_key (json.dumps p)
        → (views : List RoleView) → normalize_list (role_schema role_model) p ≡ some views
        → AreViews views
    read_roles p right views h =
        let same = same_payload json faithful.codec p _ (right.roles refl) in
        subst (λ q. normalize_list (role_schema role_model) q ≡ some views → AreViews views)
          (sym same)
          (normalized_list role_model faithful.roles_read
            (map serialize_role (sort_roles w.tables.roles)) views)
          h

    -- `list_roles` answers what the tables have, and leaves the cache right.
    pub list_roles-AreListed : AreListed (list_roles services w)
    unfolding list_roles Caching.get_role_list
    list_roles-AreListed =
        let (kept, listed) =
          get_items-IsFilled client reliable json faithful.codec (IsRight services w.tables)
            build_role_list_cache_key
            (λ x right. (
              role_model.dump_items (map serialize_role (sort_roles w.tables.roles)),
              right.roles refl,
            ))
            (role_schema role_model) AreViews read_roles w.cache coherent in
        list_from-AreListed _ kept listed
