-- ===== src/Tests/Start.antt =====
-- The start of the program, and translations.
use ara_nes_lms_core.Base.{
  nat_eq, string_eq, String, true, false, Option, none, some, map, [], ◌∷◌, ◌≡◌, refl, ok, raise,
}
use ara_nes_lms_core.Dict.{Dict, IsDict, contains, get, set, update, or_else}
use ara_nes_lms_core.Errors.{runtime_error}
use ara_nes_lms_core.Permissions.Registry as Registry
use ara_nes_lms_core.Permissions.Registry.{RbacService}
use ara_nes_lms_core.Database.{Role, Tables, Engine, opened, with_session, query, flush, commit}
use ara_nes_lms_core.Rbac.Rows.{or_empty}
use ara_nes_lms_core.Rbac.Seeding.{
  init_role, fill, init_role_permissions_if_missing, resolve_default_role_match, match_defaults,
  default_roles, roles_by_id, roles_by_name, seed_roles_if_missing,
}
use ara_nes_lms_core.Rbac.Seeding.Filling.{get-init_role}
use ara_nes_lms_core.Rbac.Seeding.Repeated.{init_role_permissions_if_missing_again}
use ara_nes_lms_core.Rbac.Seeding.Matching.{IsDecided, resolve_default_role_match-IsDecided}
use ara_nes_lms_core.Rbac.Seeding.Drift.{stored_defaults, seed_roles_if_missing_drift}
use ara_nes_lms_core.I18n.{TranslationMap, register_and_upsert}
use ara_nes_lms_core.I18n.Upsert.{patched, get-register_and_upsert}

abbrev service : RbacService
service = ("Guest", ("a", false) ∷ ("b", true) ∷ []) ∷ []

abbrev guest : Role
guest = record { id = 4; name = "Guest"; title_key = ""; permissions = some (("a", true) ∷ []) }

get-init_role_example :
    ((init_role service guest).0.id ≡ 4)
    × ((init_role service guest).0.name ≡ "Guest")
    × ((init_role service guest).0.title_key ≡ "")
    × (get (or_empty (init_role service guest).0.permissions) "b"
        ≡ or_else
            (get (or_empty guest.permissions) "b")
            (get (Registry.get_default_role_permissions service "Guest") "b"))
get-init_role_example = get-init_role service guest "b"

-- The key of the role "Guest" is held by another role.
abbrev drifted : Role
drifted = record { id = 4; name = "Plumber"; title_key = ""; permissions = none }

-- A role with the name "Guest" under another key.
abbrev renumbered : Role
renumbered = record guest { id = 9 }

distinct_ids : IsDict (map (λ (r : Role). (r.id, r)) (drifted ∷ renumbered ∷ []))
unfolding get
distinct_ids = (refl, (refl, tt))

distinct_names : IsDict (map (λ (r : Role). (r.name, r)) (drifted ∷ renumbered ∷ []))
unfolding get
distinct_names = (refl, (refl, tt))

resolve_default_role_match-IsDecided_example :
    IsDecided (some 4) "Guest" (drifted ∷ renumbered ∷ []) (
      resolve_default_role_match
        (some 4)
        "Guest"
        (roles_by_id (drifted ∷ renumbered ∷ []))
        (roles_by_name (drifted ∷ renumbered ∷ [])))
resolve_default_role_match-IsDecided_example =
    resolve_default_role_match-IsDecided (some 4) "Guest" (drifted ∷ renumbered ∷ []) distinct_ids
      distinct_names

abbrev engine : Engine
engine = record {
  violation = λ t. none;
  next_role_id = λ t. 9;
  next_user_id = λ t. 9;
  lower = λ s. s;
}

abbrev tables : Tables
tables = record { roles = drifted ∷ []; users = [] }

abbrev guest_tables : Tables
guest_tables = record { roles = guest ∷ []; users = [] }

abbrev filled_tables : Tables
filled_tables = record {
  roles = record guest { permissions = some (("a", true) ∷ ("b", true) ∷ []) } ∷ [];
  users = [];
}

first_run :
    with_session (init_role_permissions_if_missing engine service true none) guest_tables
    ≡ (ok 1, filled_tables)
unfolding init_role_permissions_if_missing init_role fill contains set query flush commit
    Registry.get_default_role_permissions get
first_run = refl

init_role_permissions_if_missing_again_example :
    with_session (init_role_permissions_if_missing engine service true none) filled_tables
    ≡ (ok 0, filled_tables)
init_role_permissions_if_missing_again_example =
    init_role_permissions_if_missing_again service engine guest_tables filled_tables 1 first_run

drift :
    (match_defaults default_roles
      (roles_by_id (stored_defaults engine true tables))
      (roles_by_name (stored_defaults engine true tables))
      ([], [])
      (opened tables)).0
    ≡ raise runtime_error
unfolding match_defaults resolve_default_role_match get update set
drift = refl

seed_roles_if_missing_drift_example :
    with_session (seed_roles_if_missing engine true) tables ≡ (raise runtime_error, tables)
seed_roles_if_missing_drift_example =
    seed_roles_if_missing_drift engine true tables runtime_error drift

abbrev accept : Dict String TranslationMap → Option String
accept table = none

abbrev small : Dict String TranslationMap
small = ("hi", ("en", "Hi") ∷ ("ru", "") ∷ []) ∷ []

abbrev privet : TranslationMap
privet = ("ru", "Privet") ∷ []

abbrev after : Dict String TranslationMap × Dict String TranslationMap
after = (register_and_upsert accept "hi" privet (small, [])).1

get-register_and_upsert_example :
    (get after.0 "ho" ≡ get small "ho")
    × (get after.1 "ho" ≡ none)
    × ((language : String)
        → get (patched accept small "hi" privet) language
          ≡ or_else (get privet language) (get (("en", "Hi") ∷ ("ru", "") ∷ []) language))
unfolding get
get-register_and_upsert_example =
    get-register_and_upsert accept "hi" privet small [] (refl, tt) refl "ho"
