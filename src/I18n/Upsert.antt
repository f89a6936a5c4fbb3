-- ===== src/I18n/Upsert.antt =====
-- What is stored, and registered, after a translation is written.
use ara_nes_lms_core.Base.{
  Eq, string_eq, pair_eq, String, Option, none, some, [], raise, ◌==◌, if◌then◌else◌, ◌≡◌, arith,
  inl, inr, Option-cases,
}
use ara_nes_lms_core.Dict.{Dict, get, set, or_else, IsDict}
use ara_nes_lms_core.Dict.Laws.{get-set, get-update}
use ara_nes_lms_core.Errors.{integrity_error}
use ara_nes_lms_core.I18n.{TranslationMap, merge_translation_patch, upsert, register_and_upsert}

module _ {K : Type 0} ⦃e : Eq K⦄ (refusal : Dict K TranslationMap → Option String) where
  -- What the table holds under the key, with the patch over it.
  abbrev pub patched : Dict K TranslationMap → K → TranslationMap → TranslationMap
  patched table key patch = merge_translation_patch (get table key) patch

  -- A language of the patch gets the patch's text, and every other keeps the old one.
  get-patched :
      (table : Dict K TranslationMap) (key : K) (patch : TranslationMap) (language : String)
      → IsDict patch
      → get (patched table key patch) language
        ≡ or_else
            (get patch language)
            (elim (get table key) [ none ↦ none | some title ↦ get title language ])
  unfolding merge_translation_patch get
  get-patched table key patch language h = elim (Option-cases (get table key)) [
    | inl absent ↦ rw absent (get-update [] patch h language)
    | inr (title, held) ↦ rw held (get-update title patch h language)
  ]

  -- A patch with distinct languages is written under a key, and the database accepts the new
  -- table: then every key but that
  -- one has in the table and in the registry what it had, and that one has in both the old
  -- translation with the texts of the patch laid over it.
  pub get-register_and_upsert :
      (key : K) (patch : TranslationMap) (table registry : Dict K TranslationMap)
      → IsDict patch
      → refusal (set table key (patched table key patch)) ≡ none
      → (k : K)
      → let (r, (table', registry')) = register_and_upsert refusal key patch (table, registry) in
        (get table' k ≡ (if key == k then some (patched table key patch) else get table k))
        × (get registry' k ≡ (if key == k then some (patched table key patch) else get registry k))
        × ((language : String)
            → get (patched table key patch) language
              ≡ or_else
                  (get patch language)
                  (elim (get table key) [ none ↦ none | some title ↦ get title language ]))
  unfolding register_and_upsert upsert merge_translation_patch
  get-register_and_upsert key patch table registry h accepted k = (
    elim (Option-cases (get table key)) [
      | inl absent ↦ ground (arith, get-set table key (patched table key patch) k)
      | inr (title, held) ↦ ground (arith, get-set table key (patched table key patch) k)
    ],
    elim (Option-cases (get table key)) [
      | inl absent ↦ ground (arith, get-set registry key (patched table key patch) k)
      | inr (title, held) ↦ ground (arith, get-set registry key (patched table key patch) k)
    ],
    λ language. get-patched table key patch language h,
  )

  -- A translation that the database refuses is neither stored nor registered.
  pub register_and_upsert_refused :
      (key : K) (patch : TranslationMap) (table registry : Dict K TranslationMap) (message : String)
      → refusal (set table key (patched table key patch)) ≡ some message
      → register_and_upsert refusal key patch (table, registry)
        ≡ (raise (integrity_error message), (table, registry))
  unfolding register_and_upsert upsert merge_translation_patch
  register_and_upsert_refused key patch table registry message refused = ground arith
