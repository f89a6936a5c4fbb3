-- ===== src/Gateway/Openapi.antt =====
-- `rewrite_schema_refs` and `merge_openapi_documents` of gateway_server/gateway.py, on documents
-- whose paths, schemas and tags are dictionaries and a list, as OpenAPI has them. Numbers, and how
-- a path becomes the stem of an operation's id, are parameters.
pub mod Closed
pub mod Values
pub mod Merging
use ara_nes_lms_core.Base.{
  string_eq, str_le, String, Bool, true, false, ◌&&◌, Option, none, some, List, [], ◌∷◌,
  ◌++◌ as ◌++ᴸ◌, any, is_empty, ◌==◌, if◌then◌else◌,
}
use Prim.Native.String.{◌++◌}
use text.Mathlib.Text.{starts_with}
use ara_nes_lms_core.Dict.{Dict, set}
use ara_nes_lms_core.Gateway.Json.{
  Json, Items, Fields, null, boolean, number, string, array, object, no_items, item, no_fields,
  field,
}
use ara_nes_lms_core.Gateway.Paths.{after_prefix, to_public_openapi_paths}

abbrev pub schema_prefix : String
schema_prefix = "#/components/schemas/"

-- `f"{service_name}_{schema_name}"`
abbrev pub qualified : String → String → String
qualified service_name schema_name = service_name ++ ("_" ++ schema_name)

unfoldable pub build_openapi_ref : String → String → String
build_openapi_ref service_name schema_name = schema_prefix ++ qualified service_name schema_name

-- `key == "$ref" and value.startswith(schema_prefix)`
abbrev pub is_schema_ref : String → String → Bool
is_schema_ref key value = key == "$ref" && starts_with value schema_prefix

abbrev pub methods : List String
methods = "get" ∷ "post" ∷ "put" ∷ "patch" ∷ "delete" ∷ "head" ∷ "options" ∷ []

abbrev pub unless_empty : {A : Type 0} → List A → Option (List A)
unless_empty xs = if is_empty xs then none else some xs

-- What `merge_openapi_documents` reads of a document; a part that is missing is empty.
pub record Document (N : Type 0) : Type 0 where
  pub paths : Dict String (Fields N)
  pub schemas : Dict String (Json N)
  pub tags : List (Fields N)

-- The dictionary `merged`, and `seen_tags`.
pub record Merged (N : Type 0) : Type 0 where
  pub paths : Dict String (Fields N)
  pub schemas : Dict String (Json N)
  pub tags : List (Fields N)
  pub seen_tags : List String

-- The keys "components" and "tags" are dropped when they would be empty; the constant ones are
-- left out.
pub record OpenapiDocument (N : Type 0) : Type 0 where
  pub paths : Dict String (Fields N)
  pub schemas : Option (Dict String (Json N))
  pub tags : Option (List (Fields N))

module _ {N : Type 0} where
  unfoldable mutual
    unfolding build_openapi_ref

    pub rewrite_schema_refs : String → Json N → Json N
    rewrite_schema_refs service_name (array items) = array (rewrite_items service_name items)
    rewrite_schema_refs service_name (object fields) = object (rewrite_fields service_name fields)
    rewrite_schema_refs service_name payload = payload

    pub rewrite_items : String → Items N → Items N
    rewrite_items service_name no_items = no_items
    rewrite_items service_name (item j items) =
        item (rewrite_schema_refs service_name j) (rewrite_items service_name items)

    pub rewrite_fields : String → Fields N → Fields N
    rewrite_fields service_name no_fields = no_fields
    rewrite_fields service_name (field key (string value) fields) =
        field key
          (string (
            if is_schema_ref key value
            then build_openapi_ref service_name (after_prefix schema_prefix value)
            else value))
          (rewrite_fields service_name fields)
    rewrite_fields service_name (field key value fields) =
        field key (rewrite_schema_refs service_name value) (rewrite_fields service_name fields)

  -- `operation["operationId"] = value`
  unfoldable pub set_field : String → Json N → Fields N → Fields N
  set_field k j no_fields = field k j no_fields
  set_field k j (field key value fields) =
      if key == k then field key j fields else field key value (set_field k j fields)

  -- The loop over `path_item.items()`.
  unfoldable pub with_operation_ids : String → Fields N → Fields N
  unfolding set_field
  with_operation_ids stem no_fields = no_fields
  with_operation_ids stem (field method (object operation) fields) =
      field method
        (object (
          if any (λ m. m == method) methods
          then set_field "operationId" (string (stem ++ ("_" ++ method))) operation
          else operation))
        (with_operation_ids stem fields)
  with_operation_ids stem (field method operation fields) =
      field method operation (with_operation_ids stem fields)

  -- `tag.get("name")`, if it is a `str`
  unfoldable pub tag_name : Fields N → Option String
  tag_name no_fields = none
  tag_name (field key (string value) fields) = if key == "name" then some value else tag_name fields
  tag_name (field key value fields) = if key == "name" then none else tag_name fields

  -- `rewrite_schema_refs` of the dictionary of the paths
  unfoldable pub rewrite_paths : String → Dict String (Fields N) → Dict String (Fields N)
  unfolding rewrite_schema_refs
  rewrite_paths service_name [] = []
  rewrite_paths service_name ((path, path_item) ∷ paths) =
      (path, rewrite_fields service_name path_item) ∷ rewrite_paths service_name paths

  -- `sorted(service_documents.items())`: the names are distinct
  unfoldable pub insert_document :
      String × Document N → Dict String (Document N) → Dict String (Document N)
  insert_document d [] = d ∷ []
  insert_document d (e ∷ es) = if str_le d.0 e.0 then d ∷ e ∷ es else e ∷ insert_document d es

  unfoldable pub sort_documents : Dict String (Document N) → Dict String (Document N)
  unfolding insert_document
  sort_documents [] = []
  sort_documents (d ∷ ds) = insert_document d (sort_documents ds)

  abbrev pub nothing_merged : Merged N
  nothing_merged = record { paths = []; schemas = []; tags = []; seen_tags = [] }

  -- `path_stem` is `path_name.strip("/").replace("/", "_").replace("-", "_") or "path"`.
  module _ (path_stem : String → String) where
    unfoldable pub merge_paths : Dict String (Fields N) → Merged N → Merged N
    unfolding set with_operation_ids
    merge_paths [] merged = merged
    merge_paths ((path_name, path_item) ∷ rest) merged =
        let operations = with_operation_ids (path_stem path_name) path_item in
        merge_paths rest (record merged { paths = set merged.paths path_name operations })

    unfoldable pub merge_schemas : String → Dict String (Json N) → Merged N → Merged N
    unfolding set rewrite_schema_refs
    merge_schemas service_name [] merged = merged
    merge_schemas service_name ((schema_name, schema) ∷ rest) merged =
        let schema' = rewrite_schema_refs service_name schema in
        merge_schemas service_name rest (record merged {
          schemas = set merged.schemas (qualified service_name schema_name) schema';
        })

    abbrev add_tag : Option String → Fields N → Merged N → Merged N
    add_tag none tag merged = merged
    add_tag (some name) tag merged =
        if any (λ seen. seen == name) merged.seen_tags
        then merged
        else record merged { tags = merged.tags ++ᴸ tag ∷ []; seen_tags = name ∷ merged.seen_tags }

    unfoldable pub merge_tags : List (Fields N) → Merged N → Merged N
    unfolding tag_name
    merge_tags [] merged = merged
    merge_tags (tag ∷ tags) merged = merge_tags tags (add_tag (tag_name tag) tag merged)

    -- One round of the loop over the documents.
    unfoldable pub merge_document : String → Document N → Merged N → Merged N
    unfolding merge_paths merge_schemas merge_tags to_public_openapi_paths rewrite_paths
    merge_document service_name document merged =
        let paths = rewrite_paths service_name document.paths in
        let merged_paths = merge_paths (to_public_openapi_paths paths service_name) merged in
        let merged_schemas = merge_schemas service_name document.schemas merged_paths in
        merge_tags document.tags merged_schemas

    unfoldable pub merge_all : Dict String (Document N) → Merged N → Merged N
    unfolding merge_document
    merge_all [] merged = merged
    merge_all ((service_name, document) ∷ rest) merged =
        merge_all rest (merge_document service_name document merged)

    unfoldable pub merge_openapi_documents : Dict String (Document N) → OpenapiDocument N
    unfolding merge_all sort_documents
    merge_openapi_documents service_documents =
        let merged = merge_all (sort_documents service_documents) nothing_merged in
        record {
          paths = merged.paths;
          schemas = unless_empty merged.schemas;
          tags = unless_empty merged.tags;
        }
