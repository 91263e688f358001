-- ===== src/Config/Preview.antt =====
-- packages/config/src/index.ts: the reference of a preview's Service, which the worker stores and the
-- API reads back, and the commands that reach it.
use code_host.Prelude.{
  ℕ, zero, suc, String, Bool, false, Option, none, some, leb, ◌==◌, ◌&&◌, ◌||◌, not, if◌then◌else◌,
}
use Prim.Native.Char.{Char, code}
use code_host.Prelude.Text.{◌++◌}
use code_host.Prelude.Result.{Result, ok, err}

pub record PreviewServiceReference : Type 0 where
  pub namespace : String
  pub service_name : String

-- `[a-z0-9]`
abbrev pub is_alphanumeric : Char → Bool
is_alphanumeric c = (leb 97 (code c) && leb (code c) 122) || (leb 48 (code c) && leb (code c) 57)

-- `[a-z0-9-]{0,n}[a-z0-9]`
unfoldable pub is_name_end : ℕ → String → Bool
is_name_end n String.[] = false
is_name_end n (String.◌∷◌ c String.[]) = is_alphanumeric c
is_name_end zero (String.◌∷◌ c (String.◌∷◌ d s)) = false
is_name_end (suc n) (String.◌∷◌ c (String.◌∷◌ d s)) =
    let rest = is_name_end n (String.◌∷◌ d s) in (is_alphanumeric c || code c == 45) && rest

-- `/^[a-z0-9](?:[a-z0-9-]{0,61}[a-z0-9])?$/`
unfoldable pub is_kubernetes_name : String → Bool
is_kubernetes_name String.[] = false
is_kubernetes_name (String.◌∷◌ c String.[]) = is_alphanumeric c
is_kubernetes_name (String.◌∷◌ c (String.◌∷◌ d s)) =
    is_alphanumeric c && is_name_end 61 (String.◌∷◌ d s)

unfoldable pub build_preview_service_reference : String → String → Result String String
build_preview_service_reference namespace service_name =
    if not (is_kubernetes_name namespace) || not (is_kubernetes_name service_name)
    then err "Preview Service reference contains an invalid Kubernetes name"
    else ok ("service://" ++ (namespace ++ ("/" ++ service_name)))

-- What is left of a text behind a prefix.
unfoldable pub strip : String → String → Option String
strip String.[] s = some s
strip (String.◌∷◌ p prefix) String.[] = none
strip (String.◌∷◌ p prefix) (String.◌∷◌ c s) = if code p == code c then strip prefix s else none

abbrev onto : Char → Option (String × String) → Option (String × String)
onto c none = none
onto c (some (before, after)) = some (String.◌∷◌ c before, after)

-- A text up to its first slash, and what follows it.
unfoldable pub cut_at_slash : String → Option (String × String)
cut_at_slash String.[] = none
cut_at_slash (String.◌∷◌ c s) =
    let rest = cut_at_slash s in if code c == 47 then some ("", s) else onto c rest

-- `[/?#]`
unfoldable pub has_delimiter : String → Bool
has_delimiter String.[] = false
has_delimiter (String.◌∷◌ c s) =
    let rest = has_delimiter s in code c == 47 || (code c == 63 || (code c == 35 || rest))

unfoldable pub named_service : Option (String × String) → Option PreviewServiceReference
named_service none = none
named_service (some (namespace, service_name)) =
    if not (has_delimiter service_name)
      && (is_kubernetes_name namespace && is_kubernetes_name service_name)
    then some (record { namespace = namespace; service_name = service_name })
    else none

unfoldable pub named_in : Option String → Option PreviewServiceReference
named_in none = none
named_in (some rest) = named_service (cut_at_slash rest)

-- `/^service:\/\/([^/]+)\/([^/?#]+)$/`, with the tests of both names, which are not empty.
unfoldable pub parse_preview_service_reference : String → Option PreviewServiceReference
parse_preview_service_reference value = named_in (strip "service://" value)
