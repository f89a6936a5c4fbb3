-- ===== src/Gateway/Paths/RoundTrip.antt =====
-- Public and internal paths of a plugin.
use Prim.Native.String.{◌++◌}
use text.Mathlib.Text.{starts_with}
use text.Mathlib.TextEquality.{starts_with_iff}
use text.Mathlib.TextPositions.{starts_with-append, slice-append_right, len-append}
use text.Mathlib.TextLemmas.{
  append_assoc, append_cancel_left, append-nil, cons-ne-nil, append-eq-nil_iff,
}
use mathlib.Core.Path.{subst}
use ara_nes_lms_core.Base.{
  string_eq, String, true, false, ◌==◌, ==_iff, ==_refl, ◌≡◌, refl, sym, ap, ◌∙◌, Bool-cases, inl,
  inr,
}
use ara_nes_lms_core.Gateway.Paths.{
  public_plugin_prefix, with_slash, after_prefix, to_internal_plugin_path, to_public_path,
}

pub after_prefix-append : (s t : String) → after_prefix s (s ++ t) ≡ t
after_prefix-append s t = rw (len-append s t) (slice-append_right s t)

with_slash-slashed : (s : String) → with_slash ("/" ++ s) ≡ "/" ++ s
with_slash-slashed s = rw (starts_with-append "/" s) refl

prefix-slashed :
    (name rest : String)
    → public_plugin_prefix name ++ rest ≡ "/" ++ (("plg" ++ ("/" ++ name)) ++ rest)
unfolding public_plugin_prefix
prefix-slashed name rest =
    ap (λ s. s ++ rest) (append_assoc "/" "plg" ("/" ++ name))
    ∙ append_assoc "/" ("plg" ++ ("/" ++ name)) rest

-- The prefix with anything behind it has its slash.
with_slash-prefix :
    (name rest : String)
    → with_slash (public_plugin_prefix name ++ rest) ≡ public_plugin_prefix name ++ rest
with_slash-prefix name rest =
    subst (λ s. with_slash s ≡ s) (sym (prefix-slashed name rest)) (with_slash-slashed _)

append-ne : (s rest : String) → (s ++ ("/" ++ rest) == s) ≡ false
append-ne s rest = elim (Bool-cases (s ++ ("/" ++ rest) == s)) [
  | inl same ↦
      let empty : "/" ++ rest ≡ "" =
        append_cancel_left s ("/" ++ rest) ""
          ((==_iff (s ++ ("/" ++ rest)) s).0 same ∙ sym (append-nil s)) in
      absurd (cons-ne-nil "/" "" (append-eq-nil_iff.0 empty).0)
  | inr other ↦ other
]

under_prefix : (s rest : String) → starts_with (s ++ ("/" ++ rest)) (s ++ "/") ≡ true
under_prefix s rest =
    subst (λ t. starts_with t (s ++ "/") ≡ true) (append_assoc s "/" rest)
      (starts_with-append (s ++ "/") rest)

-- The public path of a plugin's root, and of any other path of its own.
to_internal-root : (name : String) → to_internal_plugin_path (public_plugin_prefix name) name ≡ "/"
unfolding to_internal_plugin_path
to_internal-root name =
    let prefix = public_plugin_prefix name in
    let slashed : with_slash prefix ≡ prefix =
      subst (λ s. with_slash s ≡ s) (append-nil prefix) (with_slash-prefix name "") in
    rw (slashed, ==_refl prefix) refl

to_internal-under :
    (name rest : String)
    → to_internal_plugin_path (public_plugin_prefix name ++ ("/" ++ rest)) name ≡ "/" ++ rest
unfolding to_internal_plugin_path
to_internal-under name rest =
    let prefix = public_plugin_prefix name in
    rw (with_slash-prefix name ("/" ++ rest), append-ne prefix rest, under_prefix prefix rest)
      (after_prefix-append prefix ("/" ++ rest))

-- For a path that a plugin knows, one with a slash that does not itself begin with the plugin's
-- public prefix, the gateway takes the public path that it documents back to that path.
pub to_internal-to_public :
    (name path : String)
    → starts_with path "/" ≡ true
    → (path == public_plugin_prefix name) ≡ false
    → starts_with path (public_plugin_prefix name ++ "/") ≡ false
    → to_internal_plugin_path (to_public_path path name) name ≡ path
unfolding to_public_path
to_internal-to_public name path slashed outside apart = elim (Bool-cases (path == "/")) [
  | inl root ↦
      rw (slashed, outside, apart, root) (to_internal-root name ∙ sym ((==_iff path "/").0 root))
  | inr deeper ↦
      let (rest, e) = (starts_with_iff path "/").0 slashed in
      rw (slashed, outside, apart, deeper)
        (subst (λ p. to_internal_plugin_path (public_plugin_prefix name ++ p) name ≡ p) e
          (to_internal-under name rest))
]
