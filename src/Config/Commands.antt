-- ===== src/Config/Commands.antt =====
-- packages/config/src/index.ts: the commands by which a user reaches a preview.
use code_host.Prelude.{
  ℕ, String, Bool, true, false, List, [], ◌∷◌, Option, none, some, leb, ◌==◌, ◌&&◌, ◌||◌, not,
  if◌then◌else◌,
}
use Prim.Native.Char.{Char, code}
use code_host.Prelude.Text.{◌++◌, decimal}
use code_host.Prelude.Result.{Result, ok, err}
use code_host.Config.Preview.{
  PreviewServiceReference, is_alphanumeric, build_preview_service_reference,
  parse_preview_service_reference,
}

abbrev pub preview_service_port : ℕ
preview_service_port = 80

abbrev pub preview_port_forward_port : ℕ
preview_port_forward_port = 8080

-- `[A-Za-z0-9_.:@[\]/-]`
abbrev pub is_shell_char : Char → Bool
is_shell_char c =
    is_alphanumeric c
    || ((leb 65 (code c) && (leb (code c) 93 && not (code c == 92)))
        || (code c == 95
            || ((leb 45 (code c) && leb (code c) 47) || (code c == 58 || code c == 64))))

unfoldable pub all_shell_chars : String → Bool
all_shell_chars String.[] = true
all_shell_chars (String.◌∷◌ c s) = let rest = all_shell_chars s in is_shell_char c && rest

-- `value.includes('..')`
unfoldable pub has_two_dots : String → Bool
has_two_dots String.[] = false
has_two_dots (String.◌∷◌ c String.[]) = false
has_two_dots (String.◌∷◌ c (String.◌∷◌ d s)) =
    let rest = has_two_dots (String.◌∷◌ d s) in (code c == 46 && code d == 46) || rest

abbrev pub is_empty : String → Bool
is_empty String.[] = true
is_empty (String.◌∷◌ c s) = false

unfoldable pub shell_quote : String → String → Result String String
shell_quote value label =
    if (is_empty value || not (all_shell_chars value)) || has_two_dots value
    then err (label ++ " contains unsupported shell characters")
    else ok ("'" ++ (value ++ "'"))

-- `words.join(' ')`
unfoldable pub join_words : List String → String
join_words [] = ""
join_words (word ∷ []) = word
join_words (word ∷ next ∷ rest) = word ++ (" " ++ join_words (next ∷ rest))

abbrev and_then : Result String String → (String → Result String String) → Result String String
and_then (err problem) next = err problem
and_then (ok value) next = next value

abbrev pub parsed_or_throw :
    Option PreviewServiceReference
    → (PreviewServiceReference → Result String String)
    → Result String String
parsed_or_throw none next = err "Preview Service reference is invalid"
parsed_or_throw (some reference) next = next reference

-- The reference, built and parsed again.
unfoldable pub checked_reference :
    PreviewServiceReference
    → (PreviewServiceReference → Result String String)
    → Result String String
checked_reference reference next =
    and_then (build_preview_service_reference reference.namespace reference.service_name)
      (λ value. parsed_or_throw (parse_preview_service_reference value) next)

unfoldable pub port_forward_words : String → String → List String
port_forward_words namespace service =
    "kubectl"
    ∷ "-n"
    ∷ namespace
    ∷ "port-forward"
    ∷ "--address=127.0.0.1"
    ∷ service
    ∷ (decimal preview_port_forward_port ++ (":" ++ decimal preview_service_port))
    ∷ []

unfoldable pub build_preview_port_forward_command : PreviewServiceReference → Result String String
build_preview_port_forward_command reference = checked_reference reference (λ parsed.
    and_then (shell_quote parsed.namespace "Preview namespace") (λ namespace.
      and_then (shell_quote ("service/" ++ parsed.service_name) "Preview Service")
        (λ service. ok (join_words (port_forward_words namespace service)))))

abbrev pub port_or_default : Option ℕ → ℕ
port_or_default none = 22
port_or_default (some port) = port

unfoldable pub ssh_words : ℕ → String → String → String → List String
ssh_words port destination namespace service =
    "ssh"
    ∷ "-p"
    ∷ decimal port
    ∷ "-o"
    ∷ "ExitOnForwardFailure=yes"
    ∷ "-L"
    ∷ ("127.0.0.1:"
        ++ (decimal preview_port_forward_port
            ++ (":127.0.0.1:" ++ decimal preview_port_forward_port)))
    ∷ destination
    ∷ port_forward_words namespace service

unfoldable pub build_preview_ssh_tunnel_command :
    PreviewServiceReference → String → String → Option ℕ → Result String String
build_preview_ssh_tunnel_command reference host user port = checked_reference reference (λ parsed.
    if not (leb 1 (port_or_default port) && leb (port_or_default port) 65535)
    then err "SSH port must be between 1 and 65535"
    else and_then (shell_quote (user ++ ("@" ++ host)) "SSH destination") (λ destination.
      and_then (shell_quote parsed.namespace "Preview namespace") (λ namespace.
        and_then (shell_quote ("service/" ++ parsed.service_name) "Preview Service") (λ service.
          ok (join_words (ssh_words (port_or_default port) destination namespace service))))))
