-- ===== src/Gateway/Manifest/Normal.antt =====
-- What a manifest looks like once `_load_manifest` has normalised it.
use ara_nes_lms_core.Base.{
  value_or, string_eq, String, true, Option, none, some, ◌==◌, Result, ==_iff, ok, ◌≡◌, ◌≢◌, refl,
  ap, arith, Bool-cases, inl, inr, All,
}
use text.Mathlib.Text.{starts_with}
use text.Mathlib.TextPositions.{starts_with-append}
use mathlib.Core.Path.{subst}
use ara_nes_lms_core.Gateway.Json.{
  Json, Items, null, boolean, number, string, array, object, no_items, item,
}
use ara_nes_lms_core.Gateway.Paths.{with_slash}
use ara_nes_lms_core.Gateway.Manifest.{
  Python, PluginManifest, ManifestFile, no_file, unreadable, parsed, get_field,
  normalize_manifest_text, normalize_manifest_optional_path, parts_of,
  normalize_manifest_start_command, normalize_manifest_float, load_manifest, LoadError, manifest_of,
  text_or, texts_of, path_of, path_or,
}

IsRooted : String → Type 0
IsRooted path = starts_with path "/" ≡ true

pub record IsNormal {N F : Type 0} (python : Python N F) (m : PluginManifest F) : Type 0 where
  pub plugin_name : m.plugin_name ≢ ""
  pub health_path : starts_with m.health_path "/" ≡ true
  pub openapi_path : (path : String) → m.openapi_path ≡ some path → starts_with path "/" ≡ true
  pub start_command : All (λ part. part ≢ "") m.start_command
  pub startup_timeout_seconds : python.is_positive m.startup_timeout_seconds ≡ true

text_or-ne : (text default : String) → default ≢ "" → text_or text default ≢ ""
text_or-ne text default h = elim (Bool-cases (text == "")) [
  | inl empty ↦ rw empty h
  | inr full ↦ rw full (λ e. ground (arith, full, (==_iff text "").1 e))
]

with_slash-rooted : (text : String) → starts_with (with_slash text) "/" ≡ true
with_slash-rooted text = elim (Bool-cases (starts_with text "/")) [
  | inl rooted ↦ rw rooted rooted
  | inr bare ↦ rw bare (starts_with-append "/" text)
]

path_of-rooted : (text path : String) → path_of text ≡ some path → starts_with path "/" ≡ true
path_of-rooted text path = elim (Bool-cases (text == "")) [
  | inl empty ↦ rw empty (λ h. absurd (cc))
  | inr full ↦ rw full (λ h.
      let same : with_slash text ≡ path = ap (λ o. value_or "" o) h in
      subst (λ p. starts_with p "/" ≡ true) same (with_slash-rooted text))
]

path_or-rooted :
    (o : Option String) (default : String)
    → ((path : String) → o ≡ some path → starts_with path "/" ≡ true)
    → starts_with default "/" ≡ true
    → starts_with (path_or o default) "/" ≡ true
path_or-rooted none default h d = d
path_or-rooted (some path) default h d = elim (Bool-cases (path == "")) [
  | inl empty ↦ rw empty d
  | inr full ↦ rw full (h path refl)
]

texts_of-ne : (text : String) → All (λ part. part ≢ "") (texts_of text)
texts_of-ne text = elim (Bool-cases (text == "")) [
  | inl empty ↦ rw empty tt
  | inr full ↦ rw full ((λ e. ground (arith, full, (==_iff text "").1 e)), tt)
]

abbrev loaded_or :
    {F : Type 0}
    → PluginManifest F
    → Result LoadError (Option (PluginManifest F))
    → PluginManifest F
loaded_or default (ok (some m)) = m
loaded_or default _ = default

module _ {N F : Type 0} (python : Python N F) where
  open python use {strip, lower, str, to_float, is_positive, is_nonzero}

  text-ne :
      (value : Json N) (default : String)
      → default ≢ ""
      → normalize_manifest_text python value default ≢ ""
  unfolding normalize_manifest_text
  text-ne null default h = text_or-ne "" default h
  text-ne (string s) default h = text_or-ne (strip (str (string s))) default h
  text-ne (boolean b) default h = text_or-ne (strip (str (boolean b))) default h
  text-ne (number n) default h = text_or-ne (strip (str (number n))) default h
  text-ne (array items) default h = text_or-ne (strip (str (array items))) default h
  text-ne (object fields) default h = text_or-ne (strip (str (object fields))) default h

  optional_path-rooted :
      (value : Json N) (path : String)
      → normalize_manifest_optional_path python value ≡ some path
      → starts_with path "/" ≡ true
  unfolding normalize_manifest_optional_path
  optional_path-rooted null path h = absurd (cc)
  optional_path-rooted (string s) path h = path_of-rooted (strip (str (string s))) path h
  optional_path-rooted (boolean b) path h = path_of-rooted (strip (str (boolean b))) path h
  optional_path-rooted (number n) path h = path_of-rooted (strip (str (number n))) path h
  optional_path-rooted (array items) path h = path_of-rooted (strip (str (array items))) path h
  optional_path-rooted (object fields) path h = path_of-rooted (strip (str (object fields))) path h

  parts-ne : (items : Items N) → All (λ part. part ≢ "") (parts_of python items)
  unfolding parts_of
  parts-ne no_items = tt
  parts-ne (item j items) = elim (Bool-cases (strip (str j) == "")) [
    | inl empty ↦ rw empty (parts-ne items)
    | inr full ↦
        rw full ((λ e. ground (arith, full, (==_iff (strip (str j)) "").1 e)), parts-ne items)
  ]

  start_command-ne :
      (value : Json N) → All (λ part. part ≢ "") (normalize_manifest_start_command python value)
  unfolding normalize_manifest_start_command
  start_command-ne null = tt
  start_command-ne (string s) = texts_of-ne (strip s)
  start_command-ne (array items) = parts-ne items
  start_command-ne (boolean b) = texts_of-ne (strip (str (boolean b)))
  start_command-ne (number n) = texts_of-ne (strip (str (number n)))
  start_command-ne (object fields) = texts_of-ne (strip (str (object fields)))

  float-positive :
      (value : Json N) (default : F)
      → is_positive default ≡ true
      → is_positive (normalize_manifest_float python value default) ≡ true
  unfolding normalize_manifest_float
  float-positive null default h = h
  float-positive (string s) default h = ground arith
  float-positive value default h = ground arith

  -- A manifest that is loaded, from a directory with a name and with a positive default timeout,
  -- has a name, paths with a leading slash, no empty part of its command, and a positive timeout.
  pub load_manifest-IsNormal :
      (readiness_timeout_seconds : F) (dir_name : String) (file : ManifestFile N)
      (m : PluginManifest F)
      → dir_name ≢ ""
      → is_positive readiness_timeout_seconds ≡ true
      → load_manifest python readiness_timeout_seconds dir_name file ≡ ok (some m)
      → IsNormal python m
  unfolding load_manifest
  load_manifest-IsNormal timeout dir_name no_file m named positive h = absurd (cc)
  load_manifest-IsNormal timeout dir_name unreadable m named positive h = absurd (cc)
  load_manifest-IsNormal timeout dir_name (parsed (object values)) m named positive h =
      subst (IsNormal python) (ap (loaded_or (manifest_of python timeout dir_name values)) h)
        (record {
          plugin_name = text-ne (get_field python "plugin_name" values) dir_name named;
          health_path =
              path_or-rooted _ "/health"
                (optional_path-rooted (get_field python "health_path" values)) refl;
          openapi_path = optional_path-rooted (get_field python "openapi_path" values);
          start_command = start_command-ne (get_field python "start_command" values);
          startup_timeout_seconds =
              float-positive (get_field python "startup_timeout_seconds" values) timeout positive;
        })
  load_manifest-IsNormal timeout dir_name (parsed null) m named positive h = absurd (cc)
  load_manifest-IsNormal timeout dir_name (parsed (boolean b)) m named positive h = absurd (cc)
  load_manifest-IsNormal timeout dir_name (parsed (number n)) m named positive h = absurd (cc)
  load_manifest-IsNormal timeout dir_name (parsed (string s)) m named positive h = absurd (cc)
  load_manifest-IsNormal timeout dir_name (parsed (array items)) m named positive h = absurd (cc)
