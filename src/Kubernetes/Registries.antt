-- ===== src/Kubernetes/Registries.antt =====
-- packages/k8s/src/validation.ts: assertRegistryHost, immutableImageReference and assertImageReference,
-- and the registries that only one of the last two knows.
use code_host.Prelude.{
  ℕ, String, Bool, true, false, List, [], ◌∷◌, Option, none, some, ◌+◌, ◌*◌, ◌-◌, ◌≡◌, refl, sym,
  leb, any, str_eq, ◌==◌, ◌&&◌, ◌||◌, not, if◌then◌else◌, arith,
}
use Prim.Native.Char.{Char, code}
use Prim.Native.String
use code_host.Prelude.Text.{◌++◌}
use code_host.Prelude.Result.{Result, ok, err}
use code_host.Config.Preview.{is_alphanumeric}
use code_host.Kubernetes.Validation.{is_alphanumeric_or_capital}
use code_host.Kubernetes.Images.{
  is_bounded, is_host_char, onto_first, split_on, is_host_and_path, is_image_path,
  is_reference_repository, is_sha256_digest, split_port, is_loopback_host,
}

unfoldable pub has_char : ℕ → String → Bool
has_char wanted String.[] = false
has_char wanted (String.◌∷◌ c s) = let rest = has_char wanted s in code c == wanted || rest

-- `value.startsWith('[')`
abbrev pub is_bracketed : String → Bool
is_bracketed String.[] = false
is_bracketed (String.◌∷◌ c s) = code c == 91

-- `[0-9A-Fa-f:]+\]`, the end of a text.
unfoldable pub is_address_end : Bool → String → Bool
is_address_end some_before String.[] = false
is_address_end some_before (String.◌∷◌ c String.[]) = some_before && code c == 93
is_address_end some_before (String.◌∷◌ c (String.◌∷◌ d s)) =
    let rest = is_address_end true (String.◌∷◌ d s) in
    ((leb 48 (code c) && leb (code c) 58)
      || ((leb 65 (code c) && leb (code c) 70) || (leb 97 (code c) && leb (code c) 102)))
    && rest

-- `[A-Za-z0-9.-]+`
unfoldable pub all_host_chars : String → Bool
all_host_chars String.[] = true
all_host_chars (String.◌∷◌ c s) =
    let rest = all_host_chars s in
    (is_alphanumeric_or_capital c || (code c == 46 || code c == 45)) && rest

-- The two patterns of a host, without its port.
unfoldable pub is_host : String → Bool
is_host String.[] = false
is_host (String.◌∷◌ c s) =
    if code c == 91 then is_address_end false s else all_host_chars (String.◌∷◌ c s)

-- `HOST_LABEL`
abbrev is_host_label : String → Bool
is_host_label part =
    is_bounded is_alphanumeric_or_capital (λ c. is_alphanumeric_or_capital c || code c == 45) part

-- `Number(port)`
unfoldable pub number_from : ℕ → String → ℕ
number_from value String.[] = value
number_from value (String.◌∷◌ c s) = number_from (value * 10 + (code c - 48)) s

abbrev pub is_valid_port : Option String → Bool
is_valid_port none = true
is_valid_port (some port) = leb 1 (number_from 0 port) && leb (number_from 0 port) 65535

unfoldable pub assert_registry_host : String → Result String String
assert_registry_host value =
    let parts = split_port value in
    if str_eq value "" || (has_char 47 value || (has_char 64 value || is_loopback_host value))
    then err "registry host must be a cluster-reachable host and must not be localhost"
    else if not (is_host parts.0)
    then err "registry host must be a DNS host or IPv6 host with an optional port"
    else if not (is_bracketed value) && any (λ part. not (is_host_label part)) (split_on 46 parts.0)
    then err "registry host must contain only valid DNS labels"
    else if not (is_valid_port parts.1)
    then err "registry port must be between 1 and 65535"
    else ok value

-- `IMAGE_PATH` leaves no repository that starts with a slash, which the code tests again.
unfoldable pub immutable_image_reference : String → String → String → Result String String
immutable_image_reference registry_host repository digest =
    elim (assert_registry_host registry_host) [
      | err problem ↦ err problem
      | ok host ↦
          if not (is_image_path repository)
          then err "repository must be a lowercase OCI repository path"
          else if not (is_sha256_digest digest)
          then err "digest must be a sha256 digest"
          else ok (registry_host ++ ("/" ++ (repository ++ ("@" ++ digest))))
    ]

abbrev pub cut_from : Char → String → Option (String × String) → Option (String × String)
cut_from c s (some (before, after)) = some (String.◌∷◌ c before, after)
cut_from c s none = if code c == 64 then some ("", s) else none

-- The two sides of `value.lastIndexOf('@')`.
unfoldable pub cut_at_last : String → Option (String × String)
cut_at_last String.[] = none
cut_at_last (String.◌∷◌ c s) = cut_from c s (cut_at_last s)

abbrev first_part : List String → String
first_part [] = ""
first_part (part ∷ rest) = part

unfoldable pub assert_parts : String → Option (String × String) → Result String String
assert_parts value none =
    err "image must be a lowercase immutable OCI reference with a sha256 digest"
assert_parts value (some (repository, digest)) =
    if not (is_reference_repository repository) || not (is_sha256_digest digest)
    then err "image must be a lowercase immutable OCI reference with a sha256 digest"
    else if is_loopback_host (first_part (split_on 47 repository))
    then err "image registry must not use localhost or a loopback address"
    else elim (assert_registry_host (first_part (split_on 47 repository))) [
      | err problem ↦ err problem
      | ok host ↦ ok value
    ]

unfoldable pub assert_image_reference : String → Result String String
assert_image_reference value = assert_parts value (cut_at_last value)

bracket-unbounded :
    (c : Char) (s : String)
    → code c ≡ 91
    → is_bounded is_alphanumeric is_host_char (String.◌∷◌ c s) ≡ false
unfolding is_bounded
bracket-unbounded c String.[] h = ground arith
bracket-unbounded c (String.◌∷◌ d s) h = ground arith

bracket-first :
    (c : Char) (parts : List String) → code c ≡ 91 → is_host_and_path (onto_first c parts) ≡ false
bracket-first c [] h = refl
bracket-first c (part ∷ []) h = refl
bracket-first c (part ∷ other ∷ rest) h = ground (arith, bracket-unbounded c part h)

bracket-parts :
    (c : Char) (s : String) → code c ≡ 91 → is_reference_repository (String.◌∷◌ c s) ≡ false
unfolding is_reference_repository split_on
bracket-parts c s h = ground (arith, bracket-first c (split_on 47 s) h)

bracket-rejected :
    (c : Char) (s value : String) (rest : Option (String × String))
    → code c ≡ 91
    → assert_parts value (cut_from c s rest)
      ≡ err "image must be a lowercase immutable OCI reference with a sha256 digest"
unfolding assert_parts
bracket-rejected c s value none h = ground arith
bracket-rejected c s value (some (before, after)) h = ground (arith, bracket-parts c before)

assert_image_reference-bracketed :
    (value : String)
    → is_bracketed value ≡ true
    → assert_image_reference value
      ≡ err "image must be a lowercase immutable OCI reference with a sha256 digest"
unfolding assert_image_reference cut_at_last
assert_image_reference-bracketed String.[] h = ground arith
assert_image_reference-bracketed (String.◌∷◌ c s) h =
    bracket-rejected c s (String.◌∷◌ c s) (cut_at_last s) (ground arith)

bracketed-append :
    (host rest : String) → is_bracketed host ≡ true → is_bracketed (host ++ rest) ≡ true
unfolding ◌++◌
bracketed-append String.[] rest h = ground arith
bracketed-append (String.◌∷◌ c s) rest h = rw (String.append.cons c s rest) h

built-text :
    (registry_host repository digest : String) (tested : Result String String) {value : String}
    → assert_registry_host registry_host ≡ tested
    → immutable_image_reference registry_host repository digest ≡ ok value
    → registry_host ++ ("/" ++ (repository ++ ("@" ++ digest))) ≡ value
unfolding immutable_image_reference
built-text registry_host repository digest (err problem) e h = ground arith
built-text registry_host repository digest (ok host) e h = ground arith

-- Whatever reference is built for a registry whose host is an address in brackets, the test of image
-- references rejects it.
pub immutable_image_reference_rejected :
    (registry_host repository digest : String) {value : String}
    → is_bracketed registry_host ≡ true
    → immutable_image_reference registry_host repository digest ≡ ok value
    → assert_image_reference value
      ≡ err "image must be a lowercase immutable OCI reference with a sha256 digest"
immutable_image_reference_rejected registry_host repository digest {value} bracketed built =
    let text =
      built-text registry_host repository digest (assert_registry_host registry_host) refl built in
    assert_image_reference-bracketed value (
      rw (sym text)
        (bracketed-append registry_host ("/" ++ (repository ++ ("@" ++ digest))) bracketed))
