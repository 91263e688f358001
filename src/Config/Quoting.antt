-- ===== src/Config/Quoting.antt =====
-- packages/config/src/index.ts: the names that Kubernetes accepts pass the tests of the shell's words, so
-- that the commands to reach a preview are always made.
use code_host.Prelude.{
  ℕ, zero, suc, String, Bool, true, false, Option, some, leb, ◌==◌, ◌&&◌, ◌||◌, ◌≡◌, refl, arith,
}
use Prim.Native.Char.{Char, code}
use Prim.Native.String
use code_host.Prelude.Text.{◌++◌}
use code_host.Prelude.Result.{Result, ok}
use code_host.Config.Preview.{
  PreviewServiceReference, is_name_end, is_kubernetes_name, build_preview_service_reference,
  parse_preview_service_reference,
}
use code_host.Config.Commands.{
  all_shell_chars, has_two_dots, is_empty, shell_quote, join_words, checked_reference,
  port_forward_words, build_preview_port_forward_command, port_or_default, ssh_words,
  build_preview_ssh_tunnel_command,
}
use code_host.Config.References.{build_iff}

name_end-shell : (n : ℕ) (s : String) → is_name_end n s ≡ true → all_shell_chars s ≡ true
unfolding is_name_end all_shell_chars
name_end-shell n String.[] h = refl
name_end-shell n (String.◌∷◌ c String.[]) h = ground arith
name_end-shell zero (String.◌∷◌ c (String.◌∷◌ d s)) h = ground arith
name_end-shell (suc n) (String.◌∷◌ c (String.◌∷◌ d s)) h =
    ground (arith, name_end-shell n (String.◌∷◌ d s))

name_end-dots : (n : ℕ) (s : String) → is_name_end n s ≡ true → has_two_dots s ≡ false
unfolding is_name_end has_two_dots
name_end-dots n String.[] h = refl
name_end-dots n (String.◌∷◌ c String.[]) h = ground arith
name_end-dots zero (String.◌∷◌ c (String.◌∷◌ d s)) h = ground arith
name_end-dots (suc n) (String.◌∷◌ c (String.◌∷◌ d s)) h =
    ground (arith, name_end-dots n (String.◌∷◌ d s))

name-shell : (s : String) → is_kubernetes_name s ≡ true → all_shell_chars s ≡ true
unfolding is_kubernetes_name all_shell_chars
name-shell String.[] h = refl
name-shell (String.◌∷◌ c String.[]) h = ground arith
name-shell (String.◌∷◌ c (String.◌∷◌ d s)) h = ground (arith, name_end-shell 61 (String.◌∷◌ d s))

name-dots : (s : String) → is_kubernetes_name s ≡ true → has_two_dots s ≡ false
unfolding is_kubernetes_name has_two_dots
name-dots String.[] h = refl
name-dots (String.◌∷◌ c String.[]) h = ground arith
name-dots (String.◌∷◌ c (String.◌∷◌ d s)) h = ground (arith, name_end-dots 61 (String.◌∷◌ d s))

quote-safe :
    (s label : String)
    → is_empty s ≡ false
    → all_shell_chars s ≡ true
    → has_two_dots s ≡ false
    → shell_quote s label ≡ ok ("'" ++ (s ++ "'"))
unfolding shell_quote
quote-safe s label e h d = ground arith

name-filled : (s : String) → is_kubernetes_name s ≡ true → is_empty s ≡ false
unfolding is_kubernetes_name
name-filled String.[] h = ground arith
name-filled (String.◌∷◌ c s) h = refl

quote-name :
    (s label : String) → is_kubernetes_name s ≡ true → shell_quote s label ≡ ok ("'" ++ (s ++ "'"))
quote-name s label h = quote-safe s label (name-filled s h) (name-shell s h) (name-dots s h)

two_dots-cons :
    (c : Char) (s : String)
    → (code c == 46) ≡ false
    → has_two_dots s ≡ false
    → has_two_dots (String.◌∷◌ c s) ≡ false
unfolding has_two_dots
two_dots-cons c String.[] n h = refl
two_dots-cons c (String.◌∷◌ d s) n h = ground arith

has_dot : String → Bool
has_dot String.[] = false
has_dot (String.◌∷◌ c s) = code c == 46 || has_dot s

two_dots-append :
    (prefix s : String)
    → has_dot prefix ≡ false
    → has_two_dots s ≡ false
    → has_two_dots (prefix ++ s) ≡ false
unfolding has_dot ◌++◌
two_dots-append String.[] s n h = rw (String.append.nil s) h
two_dots-append (String.◌∷◌ c prefix) s n h = rw (String.append.cons c prefix s) (
    two_dots-cons c (String.◌++◌ prefix s) (ground arith)
      (two_dots-append prefix s (ground arith) h))

shell-append :
    (prefix s : String)
    → all_shell_chars prefix ≡ true
    → all_shell_chars s ≡ true
    → all_shell_chars (prefix ++ s) ≡ true
unfolding all_shell_chars ◌++◌
shell-append String.[] s n h = rw (String.append.nil s) h
shell-append (String.◌∷◌ c prefix) s n h =
    rw (String.append.cons c prefix s) (ground (arith, shell-append prefix s))

filled-append : (c : Char) (s t : String) → is_empty (String.◌∷◌ c s ++ t) ≡ false
unfolding ◌++◌
filled-append c s t = rw (String.append.cons c s t) refl

quote-service :
    (s label : String)
    → is_kubernetes_name s ≡ true
    → shell_quote ("service/" ++ s) label ≡ ok ("'" ++ (("service/" ++ s) ++ "'"))
unfolding all_shell_chars has_dot
quote-service s label h =
    quote-safe ("service/" ++ s) label (filled-append _ "ervice/" s)
      (shell-append "service/" s refl (name-shell s h))
      (two_dots-append "service/" s refl (name-dots s h))

reference_of : PreviewServiceReference → String
reference_of reference = "service://" ++ (reference.namespace ++ ("/" ++ reference.service_name))

module _ (reference : PreviewServiceReference)
    (namespace_named : is_kubernetes_name reference.namespace ≡ true)
    (service_named : is_kubernetes_name reference.service_name ≡ true) where
  reference-built :
      build_preview_service_reference reference.namespace reference.service_name
      ≡ ok (reference_of reference)
  unfolding build_preview_service_reference reference_of
  reference-built = ground arith

  reference-parsed : parse_preview_service_reference (reference_of reference) ≡ some reference
  reference-parsed =
      (build_iff reference.namespace reference.service_name (reference_of reference)).0
        reference-built

  checked-named :
      (next : PreviewServiceReference → Result String String)
      → checked_reference reference next ≡ next reference
  unfolding checked_reference
  checked-named next = rw (reference-built, reference-parsed) refl

  -- A reference whose names Kubernetes accepts always has a command that forwards a port to it: no
  -- test of the command's words fails, and it names the namespace and the service in quotes.
  pub build_preview_port_forward_command-named :
      build_preview_port_forward_command reference
      ≡ ok (
          join_words (
            port_forward_words
              ("'" ++ (reference.namespace ++ "'"))
              ("'" ++ (("service/" ++ reference.service_name) ++ "'"))))
  unfolding build_preview_port_forward_command
  build_preview_port_forward_command-named =
      rw
        (
          checked-named,
          quote-name reference.namespace "Preview namespace" namespace_named,
          quote-service reference.service_name "Preview Service" service_named,
        )
        refl

  -- The tunnel's command is made as well where the port is one of a host and the destination is one
  -- that the shell takes literally.
  pub build_preview_ssh_tunnel_command-named :
      (host user destination : String) (port : Option ℕ)
      → (leb 1 (port_or_default port) && leb (port_or_default port) 65535) ≡ true
      → shell_quote (user ++ ("@" ++ host)) "SSH destination" ≡ ok destination
      → build_preview_ssh_tunnel_command reference host user port
        ≡ ok (
            join_words (
              ssh_words
                (port_or_default port)
                destination
                ("'" ++ (reference.namespace ++ "'"))
                ("'" ++ (("service/" ++ reference.service_name) ++ "'"))))
  unfolding build_preview_ssh_tunnel_command
  build_preview_ssh_tunnel_command-named host user destination port in_range quoted =
      rw
        (
          checked-named,
          in_range,
          quoted,
          quote-name reference.namespace "Preview namespace" namespace_named,
          quote-service reference.service_name "Preview Service" service_named,
        )
        refl
