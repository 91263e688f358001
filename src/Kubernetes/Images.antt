-- ===== src/Kubernetes/Images.antt =====
-- packages/k8s/src/validation.ts: the references of images, and the hosts of their registries.
use code_host.Prelude.{
  ℕ, String, Bool, true, false, List, [], ◌∷◌, Option, none, some, ◌+◌, leb, any, str_eq, ◌==◌,
  ◌&&◌, ◌||◌, not, if◌then◌else◌,
}
use Prim.Native.Char.{Char, code}
use code_host.Prelude.Text.{size}
use code_host.Config.Preview.{is_alphanumeric}

-- `[edge](?:[inner]*[edge])?`, from the character after the first one on.
unfoldable pub is_bounded_end : (Char → Bool) → (Char → Bool) → String → Bool
is_bounded_end edge inner String.[] = false
is_bounded_end edge inner (String.◌∷◌ c String.[]) = edge c
is_bounded_end edge inner (String.◌∷◌ c (String.◌∷◌ d s)) =
    let rest = is_bounded_end edge inner (String.◌∷◌ d s) in inner c && rest

unfoldable pub is_bounded : (Char → Bool) → (Char → Bool) → String → Bool
is_bounded edge inner String.[] = false
is_bounded edge inner (String.◌∷◌ c String.[]) = edge c
is_bounded edge inner (String.◌∷◌ c (String.◌∷◌ d s)) =
    edge c && is_bounded_end edge inner (String.◌∷◌ d s)

-- `[a-z0-9._-]`
abbrev pub is_path_char : Char → Bool
is_path_char c = is_alphanumeric c || (code c == 46 || (code c == 95 || code c == 45))

-- `[a-z0-9._:-]`
abbrev pub is_host_char : Char → Bool
is_host_char c = is_path_char c || code c == 58

abbrev pub onto_first : Char → List String → List String
onto_first c [] = String.◌∷◌ c "" ∷ []
onto_first c (part ∷ rest) = String.◌∷◌ c part ∷ rest

-- `value.split(separator)`, by the separator's code.
unfoldable pub split_on : ℕ → String → List String
split_on separator String.[] = "" ∷ []
split_on separator (String.◌∷◌ c s) =
    let rest = split_on separator s in if code c == separator then "" ∷ rest else onto_first c rest

abbrev is_path_part : String → Bool
is_path_part part = is_bounded is_alphanumeric is_path_char part

-- `IMAGE_PATH`
unfoldable pub is_image_path : String → Bool
is_image_path value = not (any (λ part. not (is_path_part part)) (split_on 47 value))

abbrev pub is_host_and_path : List String → Bool
is_host_and_path [] = false
is_host_and_path (host ∷ []) = false
is_host_and_path (host ∷ part ∷ rest) =
    is_bounded is_alphanumeric is_host_char host
    && not (any (λ other. not (is_path_part other)) (part ∷ rest))

-- `IMAGE_REFERENCE_REPOSITORY`
unfoldable pub is_reference_repository : String → Bool
is_reference_repository value = is_host_and_path (split_on 47 value)

unfoldable pub all_hex : String → Bool
all_hex String.[] = true
all_hex (String.◌∷◌ c s) =
    let rest = all_hex s in
    ((leb 97 (code c) && leb (code c) 102) || (leb 48 (code c) && leb (code c) 57)) && rest

abbrev pub after_colon : String → List String → Bool
after_colon algorithm [] = false
after_colon algorithm (digest ∷ []) =
    str_eq algorithm "sha256" && (size digest == 64 && all_hex digest)
after_colon algorithm (digest ∷ more ∷ rest) = false

abbrev pub is_digest_parts : List String → Bool
is_digest_parts [] = false
is_digest_parts (algorithm ∷ rest) = after_colon algorithm rest

-- `SHA256_DIGEST`
unfoldable pub is_sha256_digest : String → Bool
is_sha256_digest value = is_digest_parts (split_on 58 value)

unfoldable pub all_digits : String → Bool
all_digits String.[] = true
all_digits (String.◌∷◌ c s) =
    let rest = all_digits s in (leb 48 (code c) && leb (code c) 57) && rest

-- `\d{1,5}`
unfoldable pub is_port : String → Bool
is_port value = (leb 1 (size value) && leb (size value) 5) && all_digits value

abbrev onto_host : Char → String × Option String → String × Option String
onto_host c (host, port) = (String.◌∷◌ c host, port)

-- A host, and the port that `/:(\d{1,5})$/` finds.
unfoldable pub split_port : String → String × Option String
split_port String.[] = ("", none)
split_port (String.◌∷◌ c s) =
    let rest = split_port s in if code c == 58 && is_port s then ("", some s) else onto_host c rest

-- `value.toLowerCase() === word`, for a word of small letters, digits and signs.
unfoldable pub same_in_lower_case : String → String → Bool
same_in_lower_case String.[] String.[] = true
same_in_lower_case String.[] (String.◌∷◌ d t) = false
same_in_lower_case (String.◌∷◌ c s) String.[] = false
same_in_lower_case (String.◌∷◌ c s) (String.◌∷◌ d t) =
    let rest = same_in_lower_case s t in
    (if leb 65 (code c) && leb (code c) 90 then code c + 32 else code c) == code d && rest

unfoldable pub is_loopback_host : String → Bool
is_loopback_host value =
    let host = (split_port value).0 in
    any (same_in_lower_case host) ("localhost" ∷ "127.0.0.1" ∷ "0.0.0.0" ∷ "[::1]" ∷ [])
