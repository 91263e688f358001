-- ===== src/Config.antt =====
-- packages/config/src/index.ts: the settings of the platform, read from its environment. The schema of
-- the single variables is the library zod's, a parameter; the rules between them are below.
pub mod Aliases
pub mod Rules
pub mod Loading
pub mod Consistency
pub mod Preview
pub mod References
pub mod Commands
pub mod Quoting
use code_host.Prelude.{ℕ, String, List, Option}

pub data K8sMode : Type 0 where
  local server : K8sMode

pub data PreviewMode : Type 0 where
  local_preview ingress ssh : PreviewMode

pub data AgentProvider : Type 0 where
  mock openai_compatible : AgentProvider

-- The environment's variables by name, and those that are undefined.
abbrev pub Variables : Type 0
Variables = String → Option String

-- What the schema makes of the variables.
pub record Environment : Type 0 where
  pub node_env : String
  pub port : ℕ
  pub log_level : String
  pub database_url : String
  pub gitea_base_url : String
  pub gitea_public_url : Option String
  pub gitea_webhook_secret : String
  pub webhook_secret : Option String
  pub gitea_allowed_repositories : List String
  pub session_encryption_key : String
  pub gitea_oauth_client_id : Option String
  pub gitea_oauth_client_secret : Option String
  pub platform_public_url : Option String
  pub log_root : String
  pub k8s_mode : K8sMode
  pub preview_mode : Option PreviewMode
  pub kubeconfig : Option String
  pub registry_push_host : String
  pub registry_pull_host : String
  pub preview_base_url : Option String
  pub preview_ssh_host : Option String
  pub preview_ssh_user : Option String
  pub preview_ssh_port : Option ℕ
  pub max_active_runs : ℕ
  pub max_queued_runs : ℕ
  pub webhook_max_age_minutes : ℕ
  pub report_max_bytes : ℕ
  pub review_input_max_bytes : ℕ
  pub retention_days : ℕ
  pub agent_provider : AgentProvider
  pub agent_api_url : Option String
  pub agent_api_key : Option String
  pub agent_model : String

pub record AppConfig : Type 0 where
  pub node_env : String
  pub port : ℕ
  pub log_level : String
  pub database_url : String
  pub gitea_base_url : String
  pub gitea_public_url : Option String
  pub gitea_webhook_secret : String
  pub gitea_allowed_repositories : List String
  pub session_encryption_key : String
  pub gitea_oauth_client_id : Option String
  pub gitea_oauth_client_secret : Option String
  pub platform_public_url : Option String
  pub log_root : String
  pub k8s_mode : K8sMode
  pub kubeconfig : Option String
  pub preview_mode : PreviewMode
  pub registry_push_host : String
  pub registry_pull_host : String
  pub preview_base_url : Option String
  pub preview_ssh_host : Option String
  pub preview_ssh_user : Option String
  pub preview_ssh_port : Option ℕ
  pub max_active_runs : ℕ
  pub max_queued_runs : ℕ
  pub webhook_max_age_minutes : ℕ
  pub report_max_bytes : ℕ
  pub review_input_max_bytes : ℕ
  pub retention_days : ℕ
  pub agent_provider : AgentProvider
  pub agent_api_url : Option String
  pub agent_api_key : Option String
  pub agent_model : String

pub record Issue : Type 0 where
  pub path : String
  pub message : String
