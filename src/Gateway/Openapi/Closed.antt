-- ===== src/Gateway/Openapi/Closed.antt =====
-- References to schemas in the merged document of the gateway.
use mathlib.Core.Path.{subst}
use ara_nes_lms_core.Base.{
  string_eq, String, true, ◌==◌, ◌≡◌, sym, arith, Bool-cases, inl, inr, any, if◌then◌else◌,
}
use text.Mathlib.TextEquality.{eq_iff}
use ara_nes_lms_core.Gateway.Json.{
  Json, Items, Fields, null, boolean, number, string, array, object, no_items, item, no_fields,
  field,
}
use ara_nes_lms_core.Gateway.Paths.{after_prefix}
use ara_nes_lms_core.Gateway.Paths.RoundTrip.{after_prefix-append}
use ara_nes_lms_core.Gateway.Openapi.{
  schema_prefix, qualified, is_schema_ref, build_openapi_ref, rewrite_schema_refs, rewrite_items,
  rewrite_fields, set_field, methods, with_operation_ids,
}

rewritten_ref :
    (Ok Ok' : String → Type 0) (service_name : String)
    → ((n : String) → Ok n → Ok' (qualified service_name n))
    → (key value : String)
    → (is_schema_ref key value ≡ true → Ok (after_prefix schema_prefix value))
    → let value' =
        if is_schema_ref key value
        then build_openapi_ref service_name (after_prefix schema_prefix value)
        else value in
      is_schema_ref key value' ≡ true → Ok' (after_prefix schema_prefix value')
unfolding build_openapi_ref
rewritten_ref Ok Ok' service_name carry key value ok = elim (Bool-cases (is_schema_ref key value)) [
  | inl ref ↦ rw ref (λ _.
      subst Ok'
        (sym (
          after_prefix-append schema_prefix
            (qualified service_name (after_prefix schema_prefix value))))
        (carry _ (ok ref)))
  | inr other ↦ rw other (λ ref. absurd (ground (arith, other, ref)))
]

no_operation_ref :
    (key value : String) → (key == "operationId") ≡ true → is_schema_ref key value ≡ true → ⊥
no_operation_ref key value same ref =
    ground
      (arith, same, ref, eq_iff key "operationId", eq_iff key "$ref", eq_iff "operationId" "$ref")

module _ {N : Type 0} where
  -- Every reference to a schema, in a value, is to a name with `Ok`.
  unfoldable mutual
    pub HasRefs : (String → Type 0) → Json N → Type 0
    HasRefs Ok (array items) = ItemRefs Ok items
    HasRefs Ok (object fields) = FieldRefs Ok fields
    HasRefs Ok _ = Unit

    pub ItemRefs : (String → Type 0) → Items N → Type 0
    ItemRefs Ok no_items = Unit
    ItemRefs Ok (item j items) = HasRefs Ok j × ItemRefs Ok items

    pub FieldRefs : (String → Type 0) → Fields N → Type 0
    FieldRefs Ok no_fields = Unit
    FieldRefs Ok (field key value fields) = RefsAt Ok key value × FieldRefs Ok fields

    pub RefsAt : (String → Type 0) → String → Json N → Type 0
    RefsAt Ok key (string value) =
        is_schema_ref key value ≡ true → Ok (after_prefix schema_prefix value)
    RefsAt Ok key (array items) = ItemRefs Ok items
    RefsAt Ok key (object fields) = FieldRefs Ok fields
    RefsAt Ok key _ = Unit

  module _ (Ok Ok' : String → Type 0) (service_name : String)
      (carry : (n : String) → Ok n → Ok' (qualified service_name n)) where
    mutual
      unfolding HasRefs rewrite_schema_refs

      pub rewrite-HasRefs :
          (j : Json N) → HasRefs Ok j → HasRefs Ok' (rewrite_schema_refs service_name j)
      rewrite-HasRefs (array items) h = rewrite-ItemRefs items h
      rewrite-HasRefs (object fields) h = rewrite-FieldRefs fields h
      rewrite-HasRefs null h = tt
      rewrite-HasRefs (boolean b) h = tt
      rewrite-HasRefs (number n) h = tt
      rewrite-HasRefs (string s) h = tt

      rewrite-ItemRefs :
          (items : Items N) → ItemRefs Ok items → ItemRefs Ok' (rewrite_items service_name items)
      rewrite-ItemRefs no_items h = tt
      rewrite-ItemRefs (item j items) h = (rewrite-HasRefs j h.0, rewrite-ItemRefs items h.1)

      pub rewrite-FieldRefs :
          (fields : Fields N)
          → FieldRefs Ok fields
          → FieldRefs Ok' (rewrite_fields service_name fields)
      rewrite-FieldRefs no_fields h = tt
      rewrite-FieldRefs (field key (string value) fields) h =
          (rewritten_ref Ok Ok' service_name carry key value h.0, rewrite-FieldRefs fields h.1)
      rewrite-FieldRefs (field key (array items) fields) h =
          (rewrite-ItemRefs items h.0, rewrite-FieldRefs fields h.1)
      rewrite-FieldRefs (field key (object fields') fields) h =
          (rewrite-FieldRefs fields' h.0, rewrite-FieldRefs fields h.1)
      rewrite-FieldRefs (field key null fields) h = (tt, rewrite-FieldRefs fields h.1)
      rewrite-FieldRefs (field key (boolean b) fields) h = (tt, rewrite-FieldRefs fields h.1)
      rewrite-FieldRefs (field key (number n) fields) h = (tt, rewrite-FieldRefs fields h.1)

  module _ (Ok : String → Type 0) where
    set_field-FieldRefs :
        (s : String) (fields : Fields N)
        → FieldRefs Ok fields
        → FieldRefs Ok (set_field "operationId" (string s) fields)
    unfolding HasRefs set_field
    set_field-FieldRefs s no_fields h = ((λ ref. absurd (cc)), tt)
    set_field-FieldRefs s (field key value fields) h = elim (Bool-cases (key == "operationId")) [
      | inl same ↦ rw same ((λ ref. absurd (no_operation_ref key s same ref)), h.1)
      | inr other ↦ rw other (h.0, set_field-FieldRefs s fields h.1)
    ]

    pub with_operation_ids-FieldRefs :
        (stem : String) (fields : Fields N)
        → FieldRefs Ok fields
        → FieldRefs Ok (with_operation_ids stem fields)
    unfolding HasRefs with_operation_ids
    with_operation_ids-FieldRefs stem no_fields h = tt
    with_operation_ids-FieldRefs stem (field key (object fields') fields) h = (
      elim (Bool-cases (any (λ m. m == key) methods)) [
        | inl method ↦ rw method (set_field-FieldRefs _ fields' h.0)
        | inr other ↦ rw other h.0
      ],
      with_operation_ids-FieldRefs stem fields h.1,
    )
    with_operation_ids-FieldRefs stem (field key (string v) fields) h =
        (h.0, with_operation_ids-FieldRefs stem fields h.1)
    with_operation_ids-FieldRefs stem (field key (array items) fields) h =
        (h.0, with_operation_ids-FieldRefs stem fields h.1)
    with_operation_ids-FieldRefs stem (field key null fields) h =
        (tt, with_operation_ids-FieldRefs stem fields h.1)
    with_operation_ids-FieldRefs stem (field key (boolean b) fields) h =
        (tt, with_operation_ids-FieldRefs stem fields h.1)
    with_operation_ids-FieldRefs stem (field key (number n) fields) h =
        (tt, with_operation_ids-FieldRefs stem fields h.1)
