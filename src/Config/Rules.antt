-- ===== src/Config/Rules.antt =====
-- packages/config/src/index.ts: the rules between the settings, and loadConfig.
use code_host.Prelude.{
  String, Bool, true, false, List, [], ◌∷◌, ◌++◌, Option, none, some, is_some, str_eq, not, ◌&&◌,
  ◌||◌, if◌then◌else◌,
}
use code_host.Prelude.Result.{Result, ok, err}
use code_host.Config.{
  K8sMode, local, server, PreviewMode, local_preview, ingress, ssh, AgentProvider, mock,
  openai_compatible, Variables, Environment, AppConfig, Issue,
}
use code_host.Config.Aliases.{normalize_environment_aliases}

-- `Boolean(value)` of an optional text.
unfoldable pub given : Option String → Bool
given none = false
given (some value) = not (str_eq value "")

-- A call of `context.addIssue` under its test.
unfoldable pub issue_if : Bool → String → String → List Issue
issue_if true path message = record { path = path; message = message } ∷ []
issue_if false path message = []

abbrev pub is_local : K8sMode → Bool
is_local local = true
is_local server = false

abbrev pub is_preview : PreviewMode → Option PreviewMode → Bool
is_preview local_preview (some local_preview) = true
is_preview ingress (some ingress) = true
is_preview ssh (some ssh) = true
is_preview _ _ = false

abbrev is_mock : AgentProvider → Bool
is_mock mock = true
is_mock openai_compatible = false

-- `value !== undefined && value !== other`
abbrev pub differs : Option String → String → Bool
differs none other = false
differs (some value) other = not (str_eq value other)

module _ (env : Environment) where
  abbrev pub secret_issues : List Issue
  secret_issues =
      issue_if (differs env.webhook_secret env.gitea_webhook_secret) "WEBHOOK_SECRET"
        "WEBHOOK_SECRET conflicts with GITEA_WEBHOOK_SECRET"

  abbrev preview_conflicts : Bool
  preview_conflicts =
      is_some env.preview_mode
      && ((is_preview local_preview env.preview_mode && not (is_local env.k8s_mode))
          || (not (is_preview local_preview env.preview_mode) && is_local env.k8s_mode))

  abbrev pub preview_issues : List Issue
  preview_issues =
      issue_if preview_conflicts "PREVIEW_MODE" "PREVIEW_MODE conflicts with K8S_MODE"
      ++ issue_if (is_local env.k8s_mode && not (given env.kubeconfig)) "KUBECONFIG"
          "KUBECONFIG is required when K8S_MODE=local"
      ++ issue_if
          (is_local env.k8s_mode
            && (is_some env.preview_mode && not (is_preview local_preview env.preview_mode)))
          "PREVIEW_MODE" "PREVIEW_MODE must be local when K8S_MODE=local"
      ++ issue_if (not (is_local env.k8s_mode) && is_preview local_preview env.preview_mode)
          "PREVIEW_MODE" "PREVIEW_MODE cannot be local when K8S_MODE=server"
      ++ issue_if
          (not (is_local env.k8s_mode)
            && (is_preview ingress env.preview_mode && not (given env.preview_base_url)))
          "PREVIEW_BASE_URL" "PREVIEW_BASE_URL is required when K8S_MODE=server"

  abbrev has_ssh_host : Bool
  has_ssh_host = given env.preview_ssh_host

  abbrev has_ssh_user : Bool
  has_ssh_user = given env.preview_ssh_user

  abbrev has_ssh_port : Bool
  has_ssh_port = is_some env.preview_ssh_port

  abbrev pub ssh_issues : List Issue
  ssh_issues =
      issue_if ((has_ssh_host && not has_ssh_user) || (has_ssh_user && not has_ssh_host))
        (if has_ssh_host then "PREVIEW_SSH_USER" else "PREVIEW_SSH_HOST")
        "PREVIEW_SSH_HOST and PREVIEW_SSH_USER must be provided together"
      ++ issue_if (is_preview ssh env.preview_mode && (not has_ssh_host || not has_ssh_user))
          (if not has_ssh_host then "PREVIEW_SSH_HOST" else "PREVIEW_SSH_USER")
          "PREVIEW_SSH_HOST and PREVIEW_SSH_USER are required when PREVIEW_MODE=ssh"
      ++ issue_if
          (not (is_preview ssh env.preview_mode)
            && (has_ssh_host || (has_ssh_user || has_ssh_port)))
          (if has_ssh_host
            then "PREVIEW_SSH_HOST"
            else if has_ssh_user
            then "PREVIEW_SSH_USER"
            else "PREVIEW_SSH_PORT")
          "SSH Preview settings are only valid when PREVIEW_MODE=ssh"

  abbrev has_oauth_client_id : Bool
  has_oauth_client_id = given env.gitea_oauth_client_id

  abbrev has_oauth_client_secret : Bool
  has_oauth_client_secret = given env.gitea_oauth_client_secret

  abbrev pub oauth_issues : List Issue
  oauth_issues =
      issue_if
        ((has_oauth_client_id && not has_oauth_client_secret)
          || (has_oauth_client_secret && not has_oauth_client_id))
        (if has_oauth_client_id then "GITEA_OAUTH_CLIENT_SECRET" else "GITEA_OAUTH_CLIENT_ID")
        "Gitea OAuth client ID and secret must be provided together"

  abbrev has_agent_api_url : Bool
  has_agent_api_url = given env.agent_api_url

  abbrev has_agent_api_key : Bool
  has_agent_api_key = given env.agent_api_key

  abbrev pub agent_issues : List Issue
  agent_issues =
      issue_if
        (not (is_mock env.agent_provider) && (not has_agent_api_url || not has_agent_api_key))
        (if not has_agent_api_url then "AGENT_API_URL" else "AGENT_API_KEY")
        "OpenAI-compatible Agent provider requires AGENT_API_URL and AGENT_API_KEY"
      ++ issue_if (is_mock env.agent_provider && (has_agent_api_url || has_agent_api_key))
          (if has_agent_api_url then "AGENT_API_URL" else "AGENT_API_KEY")
          "Agent API credentials must be omitted when AGENT_PROVIDER=mock"

  -- `superRefine`: every rule that is broken, in the order of the code.
  unfoldable pub issues : List Issue
  unfolding given issue_if
  issues = secret_issues ++ preview_issues ++ ssh_issues ++ oauth_issues ++ agent_issues

  -- `parsed.PREVIEW_MODE ?? (parsed.K8S_MODE === 'local' ? 'local' : 'ssh')`
  abbrev pub preview_mode_or_default : PreviewMode
  preview_mode_or_default = elim env.preview_mode [
    | none ↦ if is_local env.k8s_mode then local_preview else ssh
    | some mode ↦ mode
  ]

  unfoldable pub config_of : AppConfig
  config_of = record {
    node_env = env.node_env;
    port = env.port;
    log_level = env.log_level;
    database_url = env.database_url;
    gitea_base_url = env.gitea_base_url;
    gitea_public_url = env.gitea_public_url;
    gitea_webhook_secret = env.gitea_webhook_secret;
    gitea_allowed_repositories = env.gitea_allowed_repositories;
    session_encryption_key = env.session_encryption_key;
    gitea_oauth_client_id = env.gitea_oauth_client_id;
    gitea_oauth_client_secret = env.gitea_oauth_client_secret;
    platform_public_url = env.platform_public_url;
    log_root = env.log_root;
    k8s_mode = env.k8s_mode;
    kubeconfig = env.kubeconfig;
    preview_mode = preview_mode_or_default;
    registry_push_host = env.registry_push_host;
    registry_pull_host = env.registry_pull_host;
    preview_base_url = env.preview_base_url;
    preview_ssh_host = env.preview_ssh_host;
    preview_ssh_user = env.preview_ssh_user;
    preview_ssh_port = env.preview_ssh_port;
    max_active_runs = env.max_active_runs;
    max_queued_runs = env.max_queued_runs;
    webhook_max_age_minutes = env.webhook_max_age_minutes;
    report_max_bytes = env.report_max_bytes;
    review_input_max_bytes = env.review_input_max_bytes;
    retention_days = env.retention_days;
    agent_provider = env.agent_provider;
    agent_api_url = env.agent_api_url;
    agent_api_key = env.agent_api_key;
    agent_model = env.agent_model;
  }

abbrev pub accepted_or : Environment → List Issue → Result (List Issue) Environment
accepted_or env [] = ok env
accepted_or env (issue ∷ rest) = err (issue ∷ rest)

abbrev pub refined : Result (List Issue) Environment → Result (List Issue) Environment
unfolding issues
refined (err problems) = err problems
refined (ok env) = accepted_or env (issues env)

abbrev pub configured : Result (List Issue) Environment → Result (List Issue) AppConfig
configured (err problems) = err problems
configured (ok env) = ok (config_of env)

-- What the schema of the single variables makes of them, which the library zod computes; the rules
-- between them are only asked where it finds no issue.
module _ (base_schema : Variables → Result (List Issue) Environment) where
  unfoldable pub parse_environment : Variables → Result (List Issue) Environment
  unfolding issues normalize_environment_aliases
  parse_environment variables = refined (base_schema (normalize_environment_aliases variables))

  unfoldable pub load_config : Variables → Result (List Issue) AppConfig
  unfolding parse_environment config_of
  load_config variables = configured (parse_environment variables)
