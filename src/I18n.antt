-- ===== src/I18n.antt =====
-- src/i18n/crud.py and src/i18n/translates.py: translations under one key ("small") or under a
-- pair of keys ("large"), in the tables of src/i18n/models.py and in the registry of the process.
-- A table is a dictionary by primary key; what the database refuses is a parameter.
pub mod Upsert
pub mod CacheKeys
pub mod Cache
use ara_nes_lms_core.Base.{
  Eq, string_eq, pair_eq, ℕ, String, Bool, true, false, Option, none, some, List, [], ◌∷◌, Result,
  ok, raise, str_le, str_lt, ◌==◌, ◌||◌, ◌&&◌, if◌then◌else◌, ◌++◌ as ◌++ᴸ◌,
}
use Prim.Native.String.{◌++◌}
use ara_nes_lms_core.Dict.{Dict, get, set, update}
use ara_nes_lms_core.Errors.{Error, integrity_error, i18n_small_not_found, i18n_large_not_found}

abbrev pub TranslationMap : Type 0
TranslationMap = Dict String String

-- `_merge_translation_patch`
unfoldable pub merge_translation_patch : Option TranslationMap → TranslationMap → TranslationMap
unfolding set update
merge_translation_patch none patch = update [] patch
merge_translation_patch (some current) patch = update current patch

-- `.order_by(...)`, by a given order of the keys
unfoldable pub insert_row : {K V : Type 0} → (K → K → Bool) → K × V → List (K × V) → List (K × V)
insert_row le r [] = r ∷ []
insert_row le r (q ∷ rows) = if le r.0 q.0 then r ∷ q ∷ rows else q ∷ insert_row le r rows

unfoldable pub order_by : {K V : Type 0} → (K → K → Bool) → List (K × V) → List (K × V)
unfolding insert_row
order_by le [] = []
order_by le (r ∷ rows) = insert_row le r (order_by le rows)

abbrev pub pair_le : String × String → String × String → Bool
pair_le (a, b) (c, d) = str_lt a c || (a == c && str_le b d)

-- What both upserts have in common. `refusal` is the message of the `IntegrityError` with which
-- the table is refused; `loaded` is the `existing_item` of a caller that has loaded it.
module _ {K : Type 0} ⦃e : Eq K⦄ (refusal : Dict K TranslationMap → Option String) where
  abbrev pub Table : Type 0
  Table = Dict K TranslationMap

  abbrev existing : K → Option (Option (K × TranslationMap)) → Table → Option (K × TranslationMap)
  existing key (some item) table = item
  existing key none table = elim (get table key) [ none ↦ none | some title ↦ some (key, title) ]

  abbrev pub merged : K → TranslationMap → Option (K × TranslationMap) → K × TranslationMap
  merged key patch none = (key, update [] patch)
  merged key patch (some (k, title)) = (k, merge_translation_patch (some title) patch)

  abbrev committed :
      K × TranslationMap → Table → Option String → Result Error (K × TranslationMap) × Table
  committed row table (some message) = (raise (integrity_error message), table)
  committed row table none = (ok row, set table row.0 row.1)

  unfoldable pub upsert :
      K
      → TranslationMap
      → Option (Option (K × TranslationMap))
      → Table
      → Result Error (K × TranslationMap) × Table
  unfolding merge_translation_patch get set
  upsert key patch loaded table =
      let row = merged key patch (existing key loaded table) in
      committed row table (refusal (set table row.0 row.1))

  -- A table, and the registry of the process.
  abbrev pub Registered : Type 0
  Registered = Table × Dict K TranslationMap

  abbrev registered :
      Dict K TranslationMap
      → Result Error (K × TranslationMap) × Table
      → Result Error (K × TranslationMap) × Registered
  registered registry (raise x, table) = (raise x, (table, registry))
  registered registry (ok (key, title), table) =
      (ok (key, title), (table, update registry ((key, title) ∷ [])))

  unfoldable pub register_and_upsert :
      K → TranslationMap → Registered → Result Error (K × TranslationMap) × Registered
  unfolding upsert
  register_and_upsert key patch (table, registry) =
      registered registry (upsert key patch none table)

abbrev pub or_raise : {A : Type 0} → Error → Option A → Result Error A
or_raise x none = raise x
or_raise x (some a) = ok a

abbrev pub Small : Type 0
Small = Dict String TranslationMap

abbrev pub Large : Type 0
Large = Dict (String × String) TranslationMap

unfoldable pub list_small : Small → List (String × TranslationMap)
unfolding order_by
list_small table = order_by str_le table

unfoldable pub get_small_by_key : String → Small → Result Error TranslationMap
unfolding get
get_small_by_key key table = or_raise i18n_small_not_found (get table key)

unfoldable pub list_large : Large → List ((String × String) × TranslationMap)
unfolding order_by
list_large table = order_by pair_le table

unfoldable pub get_large : String → String → Large → Result Error TranslationMap
unfolding get
get_large key1 key2 table = or_raise i18n_large_not_found (get table (key1, key2))

module _ (refusal : Small → Option String) where
  unfoldable pub upsert_small :
      String
      → TranslationMap
      → Option (Option (String × TranslationMap))
      → Small
      → Result Error (String × TranslationMap) × Small
  unfolding upsert
  upsert_small key patch loaded table = upsert refusal key patch loaded table

  -- With `register_small_translate`.
  unfoldable pub register_and_upsert_small :
      String
      → TranslationMap
      → Small × Small
      → Result Error (String × TranslationMap) × (Small × Small)
  unfolding register_and_upsert
  register_and_upsert_small key patch state = register_and_upsert refusal key patch state

module _ (refusal : Large → Option String) where
  unfoldable pub upsert_large :
      String
      → String
      → TranslationMap
      → Option (Option ((String × String) × TranslationMap))
      → Large
      → Result Error ((String × String) × TranslationMap) × Large
  unfolding upsert
  upsert_large key1 key2 patch loaded table = upsert refusal (key1, key2) patch loaded table

  -- With `register_large_translate`.
  unfoldable pub register_and_upsert_large :
      String
      → String
      → TranslationMap
      → Large × Large
      → Result Error ((String × String) × TranslationMap) × (Large × Large)
  unfolding register_and_upsert
  register_and_upsert_large key1 key2 patch state =
      register_and_upsert refusal (key1, key2) patch state

-- Two of the keys of src/i18n/cache.py.
unfoldable pub build_small_cache_key : String → String
build_small_cache_key key = "i18n:small:" ++ key

unfoldable pub build_small_list_cache_key : String
build_small_list_cache_key = "i18n:small:list"
