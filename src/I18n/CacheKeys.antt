-- ===== src/I18n/CacheKeys.antt =====
-- The keys of the shared cache for small translations.
use ara_nes_lms_core.Base.{String, ◌≡◌, ◌↔◌, ap}
use text.Mathlib.TextLemmas.{append_cancel_left}
use ara_nes_lms_core.I18n.{build_small_cache_key, build_small_list_cache_key}

-- The entry of a translation stands under the key of the list of all translations exactly if the
-- translation's key is "list".
pub build_small_cache_key_list :
    (key : String) → (build_small_cache_key key ≡ build_small_list_cache_key) ↔ (key ≡ "list")
unfolding build_small_cache_key build_small_list_cache_key
build_small_cache_key_list key =
    ((λ h. append_cancel_left "i18n:small:" key "list" h), λ h. ap build_small_cache_key h)
