-- ===== src/Config/References.antt =====
-- packages/config/src/index.ts: buildPreviewServiceReference and parsePreviewServiceReference are each
-- other's inverse.
use code_host.Prelude.{
  ℕ, zero, suc, String, true, false, Option, none, some, ◌≡◌, ◌↔◌, refl, arith, Option-cases, inl,
  inr, ap, sym,
}
use Prim.Native.Char.{Char, code}
use Prim.Native.String
use text.Mathlib.TextEquality.{Char-path}
use code_host.Prelude.Text.{◌++◌}
use code_host.Prelude.Result.{ok}
use code_host.Config.Preview.{
  PreviewServiceReference, is_name_end, is_kubernetes_name, build_preview_service_reference, strip,
  cut_at_slash, has_delimiter, named_service, named_in, parse_preview_service_reference,
}

name_end-delimiter : (n : ℕ) (s : String) → is_name_end n s ≡ true → has_delimiter s ≡ false
unfolding is_name_end has_delimiter
name_end-delimiter n String.[] h = refl
name_end-delimiter n (String.◌∷◌ c String.[]) h = ground arith
name_end-delimiter zero (String.◌∷◌ c (String.◌∷◌ d s)) h = ground arith
name_end-delimiter (suc n) (String.◌∷◌ c (String.◌∷◌ d s)) h =
    ground (arith, name_end-delimiter n (String.◌∷◌ d s))

name-delimiter : (s : String) → is_kubernetes_name s ≡ true → has_delimiter s ≡ false
unfolding is_kubernetes_name has_delimiter
name-delimiter String.[] h = refl
name-delimiter (String.◌∷◌ c String.[]) h = ground arith
name-delimiter (String.◌∷◌ c (String.◌∷◌ d s)) h =
    ground (arith, name_end-delimiter 61 (String.◌∷◌ d s))

cut-append :
    (before after : String)
    → has_delimiter before ≡ false
    → cut_at_slash (before ++ ("/" ++ after)) ≡ some (before, after)
unfolding cut_at_slash has_delimiter ◌++◌
cut-append String.[] after h =
    rw
      (
        String.append.nil (String.◌++◌ "/" after),
        String.append.cons "/" "" after,
        String.append.nil after,
      )
      refl
cut-append (String.◌∷◌ c s) after h =
    rw (String.append.cons c s (String.◌++◌ "/" after)) (ground (arith, cut-append s after))

strip-append : (prefix s : String) → strip prefix (prefix ++ s) ≡ some s
unfolding strip ◌++◌
strip-append String.[] s = rw (String.append.nil s) refl
strip-append (String.◌∷◌ p prefix) s =
    rw (String.append.cons p prefix s) (ground (arith, strip-append prefix s))

strip-found :
    (prefix value : String) {rest : String}
    → strip prefix value ≡ some rest
    → value ≡ prefix ++ rest
unfolding strip ◌++◌
strip-found String.[] s {rest} h = rw (String.append.nil rest) (ground arith)
strip-found (String.◌∷◌ p prefix) String.[] h = ground arith
strip-found (String.◌∷◌ p prefix) (String.◌∷◌ c s) {rest} h =
    rw (String.append.cons p prefix rest)
      (ground (arith, Char-path c p, strip-found prefix s {rest = rest}))

-- The text that is cut into the two parts.
glued : String → String → String
glued before after = before ++ ("/" ++ after)

glued-nil : (c : Char) (s : String) → code c ≡ 47 → glued "" s ≡ String.◌∷◌ c s
unfolding glued ◌++◌
glued-nil c s h =
    rw (String.append.nil (String.◌++◌ "/" s), String.append.cons "/" "" s, String.append.nil s)
      (ap (λ d. String.◌∷◌ d s) (Char-path _ c (sym h)))

glued-cons : (c : Char) (s t : String) → glued (String.◌∷◌ c s) t ≡ String.◌∷◌ c (glued s t)
unfolding glued ◌++◌
glued-cons c s t = rw (String.append.cons c s (String.◌++◌ "/" t)) refl

cut-glued :
    (value : String) {before after : String}
    → cut_at_slash value ≡ some (before, after)
    → value ≡ glued before after
unfolding cut_at_slash
cut-glued String.[] h = ground arith
cut-glued (String.◌∷◌ c s) {before} {after} h = elim (Option-cases (cut_at_slash s)) [
  | inl no_cut ↦ ground (arith, glued-nil c s)
  | inr ((x, y), cut) ↦
      ground (arith, glued-nil c s, glued-cons c x y, cut-glued s {before = x} {after = y})
]

named_service-found :
    (parts : Option (String × String)) {named : PreviewServiceReference}
    → named_service parts ≡ some named
    → (parts ≡ some (named.namespace, named.service_name))
      × (is_kubernetes_name named.namespace ≡ true)
      × (is_kubernetes_name named.service_name ≡ true)
unfolding named_service
named_service-found none h = (ground arith, ground arith, ground arith)
named_service-found (some (x, y)) {named} h = (ground arith, ground arith, ground arith)

named_in-found :
    (value : Option String) {named : PreviewServiceReference}
    → named_in value ≡ some named
    → (value ≡ some (glued named.namespace named.service_name))
      × (is_kubernetes_name named.namespace ≡ true)
      × (is_kubernetes_name named.service_name ≡ true)
unfolding named_in
named_in-found none h = (ground arith, ground arith, ground arith)
named_in-found (some rest) {named} h =
    let found = named_service-found (cut_at_slash rest) h in
    (ap some (cut-glued rest found.0), found.1, found.2)

named_in-text :
    (namespace service_name : String)
    → is_kubernetes_name namespace ≡ true
    → is_kubernetes_name service_name ≡ true
    → named_in (strip "service://" ("service://" ++ glued namespace service_name))
      ≡ some (record { namespace = namespace; service_name = service_name })
unfolding named_in named_service glued
named_in-text namespace service_name n s =
    rw
      (
        strip-append "service://" (glued namespace service_name),
        named_in,
        cut-append namespace service_name (name-delimiter namespace n),
      )
      (ground (arith, name-delimiter service_name s))

-- A text is the reference that is built of a namespace and a service exactly when they are what is
-- parsed from it.
pub build_iff :
    (namespace service_name value : String)
    → (build_preview_service_reference namespace service_name ≡ ok value) ↔ (
        parse_preview_service_reference value
        ≡ some (record { namespace = namespace; service_name = service_name }))
unfolding glued build_preview_service_reference parse_preview_service_reference
build_iff namespace service_name value = (
  λ h.
      let text : "service://" ++ glued namespace service_name ≡ value = ground arith in
      rw (sym text) (named_in-text namespace service_name (ground arith) (ground arith)),
  λ h.
      let found = named_in-found (strip "service://" value) h in
      ground (arith, found.1, found.2, strip-found "service://" value found.0),
)
