-- ===== src/Gateway/Manifest.antt =====
-- Plugin manifests in gateway_server/gateway.py: the normalisers, `_load_manifest` and
-- `discover_services`. Methods of `str`, `float`, and what the file system holds are parameters.
pub mod Normal
use ara_nes_lms_core.Base.{
  string_eq, str_le, ℕ, String, Bool, true, false, ◌||◌, Option, none, some, List, [], ◌∷◌, any,
  ◌==◌, if◌then◌else◌, Result, ok, raise,
}
use Prim.Native.String.{◌++◌}
use ara_nes_lms_core.Gateway.Json.{
  Json, Items, Fields, null, boolean, number, string, array, object, no_items, item, no_fields,
  field,
}
use ara_nes_lms_core.Gateway.Paths.{with_slash}

-- `F` is the type of floats. `to_float` gives `none` where `float` raises `TypeError` or
-- `ValueError`.
pub record Python (N F : Type 0) : Type 0 where
  pub strip : String → String
  pub lower : String → String
  pub str : Json N → String
  pub to_float : Json N → Option F
  pub is_positive : F → Bool
  pub is_nonzero : N → Bool

pub record PluginManifest (F : Type 0) : Type 0 where
  pub plugin_name : String
  pub version : String
  pub runtime : String
  pub start_command : List String
  pub health_path : String
  pub openapi_path : Option String
  pub startup_timeout_seconds : F
  pub auto_start : Bool

-- `manifest.json` of a directory: not there, not readable or no JSON, or a value.
pub data ManifestFile (N : Type 0) : Type 0 where
  no_file unreadable : ManifestFile N
  parsed : Json N → ManifestFile N

-- `data.get` of a value that is no dictionary
pub data LoadError : Type 0 where
  attribute_error : LoadError

-- An entry of the directory of the services, and whether it has a file `run.sh`.
pub record Entry (N : Type 0) : Type 0 where
  pub name : String
  pub is_dir : Bool
  pub manifest_file : ManifestFile N
  pub has_run_script : Bool

pub record DiscoveredService (F : Type 0) : Type 0 where
  pub name : String
  pub directory : String
  pub run_script : String
  pub manifest : Option (PluginManifest F)

abbrev pub text_or : String → String → String
text_or text default = if text == "" then default else text

abbrev pub texts_of : String → List String
texts_of stripped = if stripped == "" then [] else stripped ∷ []

abbrev pub path_of : String → Option String
path_of text = if text == "" then none else some (with_slash text)

abbrev pub path_or : Option String → String → String
path_or none default = default
path_or (some path) default = text_or path default

module _ {N F : Type 0} (python : Python N F) where
  open python use {strip, lower, str, to_float, is_positive, is_nonzero}

  -- `data.get(key)`: `null` stands for `None`, also where the key is missing.
  unfoldable pub get_field : String → Fields N → Json N
  get_field k no_fields = null
  get_field k (field key value fields) = if key == k then value else get_field k fields

  unfoldable pub normalize_manifest_text : Json N → String → String
  normalize_manifest_text null default = text_or "" default
  normalize_manifest_text value default = text_or (strip (str value)) default

  unfoldable pub normalize_manifest_optional_path : Json N → Option String
  normalize_manifest_optional_path null = none
  normalize_manifest_optional_path value = path_of (strip (str value))

  unfoldable pub normalize_manifest_path : Json N → String → String
  unfolding normalize_manifest_optional_path
  normalize_manifest_path value default = path_or (normalize_manifest_optional_path value) default

  -- `[part for item in value if (part := str(item).strip())]`
  unfoldable pub parts_of : Items N → List String
  parts_of no_items = []
  parts_of (item j items) =
      let rest = parts_of items in if strip (str j) == "" then rest else strip (str j) ∷ rest

  unfoldable pub normalize_manifest_start_command : Json N → List String
  unfolding parts_of
  normalize_manifest_start_command null = []
  normalize_manifest_start_command (string value) = texts_of (strip value)
  normalize_manifest_start_command (array items) = parts_of items
  normalize_manifest_start_command value = texts_of (strip (str value))

  abbrev positive_or : Option F → F → F
  positive_or none default = default
  positive_or (some parsed_value) default =
      if is_positive parsed_value then parsed_value else default

  unfoldable pub normalize_manifest_float : Json N → F → F
  normalize_manifest_float null default = default
  normalize_manifest_float (string value) default =
      if strip value == "" then default else positive_or (to_float (string value)) default
  normalize_manifest_float value default = positive_or (to_float value) default

  abbrev bool_of : String → Bool → Bool
  bool_of normalized default =
      if normalized == ""
      then default
      else if any (λ word. word == normalized) ("1" ∷ "true" ∷ "yes" ∷ "on" ∷ [])
      then true
      else if any (λ word. word == normalized) ("0" ∷ "false" ∷ "no" ∷ "off" ∷ [])
      then false
      else default

  unfoldable pub normalize_manifest_bool : Json N → Bool → Bool
  normalize_manifest_bool null default = default
  normalize_manifest_bool (boolean value) default = value
  normalize_manifest_bool (number value) default = is_nonzero value
  normalize_manifest_bool value default = bool_of (lower (strip (str value))) default

  module _ (readiness_timeout_seconds : F) where
    abbrev pub manifest_of : String → Fields N → PluginManifest F
    manifest_of dir_name values = record {
      plugin_name = normalize_manifest_text (get_field "plugin_name" values) dir_name;
      version = normalize_manifest_text (get_field "version" values) "0.0.0";
      runtime = normalize_manifest_text (get_field "runtime" values) "unknown";
      start_command = normalize_manifest_start_command (get_field "start_command" values);
      health_path = normalize_manifest_path (get_field "health_path" values) "/health";
      openapi_path = normalize_manifest_optional_path (get_field "openapi_path" values);
      startup_timeout_seconds =
          normalize_manifest_float (get_field "startup_timeout_seconds" values)
            readiness_timeout_seconds;
      auto_start = normalize_manifest_bool (get_field "auto_start" values) true;
    }

    unfoldable pub load_manifest :
        String → ManifestFile N → Result LoadError (Option (PluginManifest F))
    unfolding get_field normalize_manifest_text normalize_manifest_path
        normalize_manifest_start_command normalize_manifest_optional_path normalize_manifest_float
        normalize_manifest_bool
    load_manifest dir_name no_file = ok none
    load_manifest dir_name unreadable = ok none
    load_manifest dir_name (parsed (object values)) = ok (some (manifest_of dir_name values))
    load_manifest dir_name (parsed value) = raise attribute_error

    -- `sorted(services_root.iterdir(), key=lambda path: path.name)`
    unfoldable pub insert_entry : Entry N → List (Entry N) → List (Entry N)
    insert_entry e [] = e ∷ []
    insert_entry e (f ∷ fs) = if str_le e.name f.name then e ∷ f ∷ fs else f ∷ insert_entry e fs

    unfoldable pub sort_entries : List (Entry N) → List (Entry N)
    unfolding insert_entry
    sort_entries [] = []
    sort_entries (e ∷ es) = insert_entry e (sort_entries es)

    abbrev service_of : Entry N → Option (PluginManifest F) → DiscoveredService F
    service_of entry manifest = record {
      name = (elim manifest [ none ↦ entry.name | some m ↦ m.plugin_name ]);
      directory = entry.name;
      run_script = entry.name ++ "/run.sh";
      manifest = manifest;
    }

    abbrev is_some : {A : Type 0} → Option A → Bool
    is_some none = false
    is_some (some a) = true

    abbrev Discovered : Type 0
    Discovered = Result LoadError (List (DiscoveredService F))

    abbrev with_service : Entry N → Option (PluginManifest F) → Discovered → Discovered
    with_service entry manifest (raise e) = raise e
    with_service entry manifest (ok services) =
        if is_some manifest || entry.has_run_script
        then ok (service_of entry manifest ∷ services)
        else ok services

    abbrev with_entry :
        Entry N → Result LoadError (Option (PluginManifest F)) → Discovered → Discovered
    with_entry entry (raise e) rest = raise e
    with_entry entry (ok manifest) rest = with_service entry manifest rest

    unfoldable pub discover_in : List (Entry N) → Discovered
    unfolding load_manifest
    discover_in [] = ok []
    discover_in (entry ∷ entries) =
        let rest = discover_in entries in
        if entry.is_dir
        then with_entry entry (load_manifest entry.name entry.manifest_file) rest
        else rest

    -- `none` where the directory of the services does not exist
    unfoldable pub discover_services : Option (List (Entry N)) → Discovered
    unfolding sort_entries discover_in
    discover_services none = ok []
    discover_services (some entries) = discover_in (sort_entries entries)
