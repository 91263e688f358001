-- ===== src/Config/Aliases.antt =====
-- packages/config/src/index.ts, normalizeEnvironmentAliases: the variables before the schema reads them.
use code_host.Prelude.{
  String, Bool, false, List, [], ◌∷◌, Option, none, some, str_eq, if◌then◌else◌,
}
use code_host.Config.{Variables}

abbrev pub optional_keys : List String
optional_keys =
    "GITEA_PUBLIC_URL" ∷ "GITEA_OAUTH_CLIENT_ID" ∷ "GITEA_OAUTH_CLIENT_SECRET"
    ∷ "PLATFORM_PUBLIC_URL" ∷ "KUBECONFIG" ∷ "PREVIEW_BASE_URL" ∷ "PREVIEW_SSH_HOST"
    ∷ "PREVIEW_SSH_USER" ∷ "PREVIEW_SSH_PORT" ∷ "AGENT_API_URL" ∷ "AGENT_API_KEY" ∷ []

-- `environment[key] = value`
abbrev pub assign : String → Option String → Variables → Variables
assign key value variables = λ name. if str_eq name key then value else variables name

abbrev is_blank : Option String → Bool
is_blank none = false
is_blank (some value) = str_eq value ""

-- The loop over the optional keys.
unfoldable pub delete_blank : List String → Variables → Variables
delete_blank [] variables = variables
delete_blank (key ∷ keys) variables =
    delete_blank keys (if is_blank (variables key) then assign key none variables else variables)

abbrev pub alias_secret : Variables → Variables
alias_secret variables = elim (variables "GITEA_WEBHOOK_SECRET") [
  | none ↦ assign "GITEA_WEBHOOK_SECRET" (variables "WEBHOOK_SECRET") variables
  | some secret ↦ variables
]

abbrev pub mode_for : String → String
mode_for preview = if str_eq preview "local" then "local" else "server"

abbrev alias_missing_mode : Option String → Variables → Variables
alias_missing_mode none variables = variables
alias_missing_mode (some preview) variables = assign "K8S_MODE" (some (mode_for preview)) variables

abbrev pub alias_mode : Variables → Variables
alias_mode variables = elim (variables "K8S_MODE") [
  | none ↦ alias_missing_mode (variables "PREVIEW_MODE") variables
  | some mode ↦ variables
]

unfoldable pub normalize_environment_aliases : Variables → Variables
unfolding delete_blank
normalize_environment_aliases variables =
    alias_mode (alias_secret (delete_blank optional_keys variables))
