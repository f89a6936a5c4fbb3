-- ===== src/Gateway/Openapi/Merging.antt =====
-- `merge_openapi_documents` keeps documents closed: the steps of the loop.
use ara_nes_lms_core.Base.{string_eq, String, none, some, [], All}
use ara_nes_lms_core.Dict.{Dict}
use ara_nes_lms_core.Gateway.Json.{Json}
use ara_nes_lms_core.Gateway.Paths.{to_public_openapi_paths}
use ara_nes_lms_core.Gateway.Openapi.{
  Document, Merged, qualified, rewrite_paths, merge_paths, merge_schemas, OpenapiDocument,
}
use ara_nes_lms_core.Gateway.Openapi.Closed.{HasRefs, FieldRefs}
use ara_nes_lms_core.Gateway.Openapi.Values.{Values, Among}

module _ {N : Type 0} where
  -- Each reference of the document is to one of its own schemas.
  abbrev pub IsClosed : Document N → Type 0
  IsClosed document =
      Values (FieldRefs (Among document.schemas)) document.paths
      × Values (HasRefs (Among document.schemas)) document.schemas

  -- The schemas of the merged document; without the key "components" there are none.
  abbrev pub schemas_of : OpenapiDocument N → Dict String (Json N)
  schemas_of document = elim document.schemas [ none ↦ [] | some schemas ↦ schemas ]

  module _ (path_stem : String → String) where
    abbrev with_paths : String → Document N → Merged N → Merged N
    with_paths s d m = merge_paths path_stem (to_public_openapi_paths (rewrite_paths s d.paths) s) m

    abbrev with_schemas : String → Document N → Merged N → Merged N
    with_schemas s d m = merge_schemas path_stem s d.schemas (with_paths s d m)

    -- Every schema of every document is in the merged one, under its qualified name.
    abbrev Provides : Dict String (Json N) → Dict String (Document N) → Type 0
    Provides schemas =
        All (λ e. (name : String) → Among e.1.schemas name → Among schemas (qualified e.0 name))

    module _ (Ok : String → Type 0) where
      -- References in the merged document are to names with `Ok`.
      abbrev Refers : Merged N → Type 0
      Refers m = Values (FieldRefs Ok) m.paths × Values (HasRefs Ok) m.schemas
