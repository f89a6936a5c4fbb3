-- ===== src/Gateway/Paths.antt =====
-- The paths of plugins in gateway_server/gateway.py: the gateway's own, public ones and those that
-- a plugin knows.
pub mod RoundTrip
use ara_nes_lms_core.Base.{string_eq, String, Bool, ◌||◌, List, [], ◌∷◌, ◌==◌, if◌then◌else◌}
use Prim.Native.String.{◌++◌, len, slice}
use text.Mathlib.Text.{starts_with}
use ara_nes_lms_core.Dict.{set}

abbrev pub public_plugin_root : String
public_plugin_root = "/plg"

unfoldable pub public_plugin_prefix : String → String
public_plugin_prefix service_name = public_plugin_root ++ ("/" ++ service_name)

-- `path if path.startswith("/") else f"/{path}"`
abbrev pub with_slash : String → String
with_slash path = if starts_with path "/" then path else "/" ++ path

-- `s[len(prefix):]`, where `prefix` is a prefix of `s`
abbrev pub after_prefix : String → String → String
after_prefix prefix s = slice s (len prefix) (len s)

abbrev internal_path : String → String → String
internal_path prefix path =
    if path == prefix
    then "/"
    else if starts_with path (prefix ++ "/")
    then after_prefix prefix path
    else path

unfoldable pub to_internal_plugin_path : String → String → String
unfolding public_plugin_prefix
to_internal_plugin_path public_path service_name =
    internal_path (public_plugin_prefix service_name) (with_slash public_path)

abbrev pub public_path : String → String → String
public_path prefix path =
    if path == prefix || starts_with path (prefix ++ "/")
    then path
    else if path == "/"
    then prefix
    else prefix ++ path

-- The name under which `to_public_openapi_paths` puts a path.
unfoldable pub to_public_path : String → String → String
unfolding public_plugin_prefix
to_public_path path_name service_name =
    public_path (public_plugin_prefix service_name) (with_slash path_name)

module _ {A : Type 0} where
  abbrev pub rewritten : List (String × A) → String → List (String × A) → List (String × A)
  rewritten paths service_name [] = paths
  rewritten paths service_name ((path_name, path_item) ∷ rest) =
      rewritten (set paths (to_public_path path_name service_name) path_item) service_name rest

  unfoldable pub to_public_openapi_paths : List (String × A) → String → List (String × A)
  unfolding to_public_path
  to_public_openapi_paths document_paths service_name = rewritten [] service_name document_paths
