-- ===== src/Tests/Actors.antt =====
-- A teacher who may read roles by the permissions of the user's own.
use ara_nes_lms_core.Base.{
  ◌↔◌, nat_eq, string_eq, true, false, none, some, [], ◌∷◌, ◌≡◌, refl, ok, raise, ◌==◌,
  if◌then◌else◌,
}
use ara_nes_lms_core.Dict.{get, or_else}
use ara_nes_lms_core.Errors.{value_error}
use ara_nes_lms_core.Database.{Role, User, Tables}
use ara_nes_lms_core.Rbac.Rows.{or_empty}
use ara_nes_lms_core.Actor.{
  Payload, Text, number, text, resolve_token_user_id, payload_claim, select_row, joined,
  get_current_actor, get_current_user_with_role,
}
use ara_nes_lms_core.Actor.Decision.{authorize, authorize_iff, is_ok, is_true, nothing_cached}
use ara_nes_lms_core.Actor.Failures.{IsMisread, get_current_actor-value_error_iff}
use ara_nes_lms_core.Actor.Caching.{get_current_actor-get_current_user_with_role}

abbrev teacher : Role
teacher = record {
  id = 5;
  name = "Teacher";
  title_key = "";
  permissions = some (("rbac_roles_read", false) ∷ []);
}

abbrev ann : User
ann = record {
  id = 1;
  username = "ann";
  password = "x";
  role_id = 5;
  permissions = some (("rbac_roles_read", true) ∷ []);
}

abbrev tables : Tables
tables = record { roles = teacher ∷ []; users = ann ∷ [] }

abbrev payload : Payload
payload = record {
  attribute = λ key. if key == "uid" then some (number 1) else none;
  items = none;
  model_dump = none;
}

abbrev methods : Text
methods = record { strip = λ s. s; isdigit = λ s. s == "7"; int = λ s. some 7 }

resolved : resolve_token_user_id methods payload ≡ ok (some 1)
unfolding resolve_token_user_id payload_claim
resolved = refl

authorize_iff_example :
    is_ok (authorize methods tables payload "rbac_roles_read")
    ≡ is_true (
        or_else
          (get (or_empty ann.permissions) "rbac_roles_read")
          (get (or_empty teacher.permissions) "rbac_roles_read"))
unfolding get
authorize_iff_example =
    authorize_iff methods tables payload 1 ann teacher "rbac_roles_read" resolved refl refl
      (refl, tt) (refl, tt)

selected : select_row methods tables payload ≡ ok (ann, teacher)
unfolding select_row resolve_token_user_id payload_claim joined
selected = refl

-- A token whose claim `uid` is a superscript two, and the methods of `str` on it.
abbrev superscript : Payload
superscript = record payload { attribute = λ key. if key == "uid" then some (text "²") else none }

abbrev superscript_methods : Text
superscript_methods = record { strip = λ s. s; isdigit = λ s. s == "²"; int = λ s. none }

get_current_actor-value_error_iff_example :
    ((get_current_actor superscript_methods tables superscript nothing_cached).0
      ≡ raise value_error)
    ↔ IsMisread superscript_methods (payload_claim superscript "uid")
get_current_actor-value_error_iff_example =
    get_current_actor-value_error_iff superscript_methods tables superscript

get_current_actor-get_current_user_with_role_example :
    (get_current_actor methods tables payload
      (get_current_user_with_role methods tables payload nothing_cached).1).0
    ≡ (get_current_actor methods tables payload nothing_cached).0
get_current_actor-get_current_user_with_role_example =
    get_current_actor-get_current_user_with_role methods tables payload
