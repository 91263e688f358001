-- ===== src/Scenarios/Settings.antt =====
-- packages/config/src/index.ts on the settings of a local platform and on the reference of a preview.
use code_host.Prelude.{
  true, false, arith, String, List, [], ◌∷◌, Option, none, some, ◌≡◌, ◌↔◌, refl, str_eq,
  if◌then◌else◌, arith,
}
use code_host.Prelude.Text.{◌++◌}
use code_host.Prelude.Result.{Result, ok, err}
use code_host.RunStatus.{passed}
use code_host.Database.Tables.{RunRow}
use code_host.Api.Previews.{
  PreviewAnswer, expired, UrlParser, service_answer, stored_answer, answer_for, preview,
}
use code_host.Api.Previews.Answers.{IsClosed, preview-IsClosed, forwarded, preview-forwarded}
use code_host.Scenarios.Data.{run_row}
use code_host.Config.{
  local_preview, K8sMode, local, server, mock, Variables, Environment, AppConfig, Issue,
}
use code_host.Config.Aliases.{delete_blank, normalize_environment_aliases}
use code_host.Config.Rules.{given, issue_if, issues, config_of, parse_environment, load_config}
use code_host.Config.Consistency.{IsConsistent, issues_iff}
use code_host.Config.Loading.{IsSound, load_config-IsSound}
use code_host.Kubernetes.Validation.{
  assert_namespace, assert_namespace_iff, is_dns_label, is_dns_label_end,
}
use code_host.Kubernetes.Registries.{
  immutable_image_reference, assert_registry_host, assert_image_reference,
  immutable_image_reference_rejected,
}
use code_host.Config.Preview.{
  is_name_end, is_kubernetes_name, build_preview_service_reference, parse_preview_service_reference,
  named_in, strip, named_service, cut_at_slash, has_delimiter,
}
use code_host.Config.References.{build_iff}

abbrev mode_of : Option String → K8sMode
mode_of none = local
mode_of (some mode) = if str_eq mode "server" then server else local

-- A schema that asks for the secret and takes the modes and the kubeconfig as they are given.
abbrev settings : Variables → Environment
settings variables = record {
  node_env = "production";
  port = 3000;
  log_level = "info";
  database_url = "postgres://db/platform";
  gitea_base_url = "http://gitea:3000";
  gitea_public_url = variables "GITEA_PUBLIC_URL";
  gitea_webhook_secret = "secret";
  webhook_secret = variables "WEBHOOK_SECRET";
  gitea_allowed_repositories = [];
  session_encryption_key = "0123456789abcdef0123456789abcdef";
  gitea_oauth_client_id = variables "GITEA_OAUTH_CLIENT_ID";
  gitea_oauth_client_secret = variables "GITEA_OAUTH_CLIENT_SECRET";
  platform_public_url = variables "PLATFORM_PUBLIC_URL";
  log_root = "/var/log/platform";
  k8s_mode = mode_of (variables "K8S_MODE");
  preview_mode = none;
  kubeconfig = variables "KUBECONFIG";
  registry_push_host = "registry:5000";
  registry_pull_host = "registry:5000";
  preview_base_url = variables "PREVIEW_BASE_URL";
  preview_ssh_host = variables "PREVIEW_SSH_HOST";
  preview_ssh_user = variables "PREVIEW_SSH_USER";
  preview_ssh_port = none;
  max_active_runs = 1;
  max_queued_runs = 3;
  webhook_max_age_minutes = 15;
  report_max_bytes = 262144;
  review_input_max_bytes = 65536;
  retention_days = 7;
  agent_provider = mock;
  agent_api_url = variables "AGENT_API_URL";
  agent_api_key = variables "AGENT_API_KEY";
  agent_model = "mock";
}

abbrev schema : Variables → Result (List Issue) Environment
schema variables = elim (variables "GITEA_WEBHOOK_SECRET") [
  | none ↦ err (record { path = "GITEA_WEBHOOK_SECRET"; message = "Required" } ∷ [])
  | some secret ↦ ok (settings variables)
]

-- The old name of the secret, a blank address and a local cluster.
abbrev given_variables : Variables
given_variables name =
    if str_eq name "WEBHOOK_SECRET"
    then some "secret"
    else if str_eq name "PREVIEW_BASE_URL"
    then some ""
    else if str_eq name "PREVIEW_MODE"
    then some "local"
    else if str_eq name "KUBECONFIG"
    then some "/etc/kubeconfig"
    else none

aliased_secret :
    normalize_environment_aliases given_variables "GITEA_WEBHOOK_SECRET" ≡ some "secret"
unfolding normalize_environment_aliases delete_blank
aliased_secret = refl

aliased_mode : normalize_environment_aliases given_variables "K8S_MODE" ≡ some "local"
unfolding normalize_environment_aliases delete_blank
aliased_mode = refl

blank_deleted : normalize_environment_aliases given_variables "PREVIEW_BASE_URL" ≡ none
unfolding normalize_environment_aliases delete_blank
blank_deleted = refl

abbrev loaded : AppConfig
unfolding config_of
loaded = config_of (settings (normalize_environment_aliases given_variables))

loads : load_config schema given_variables ≡ ok loaded
unfolding load_config parse_environment issues given issue_if normalize_environment_aliases
loads = refl

load_config-IsSound_example : IsSound loaded
load_config-IsSound_example = load_config-IsSound schema given_variables loads

issues_iff_example :
    (issues (settings given_variables) ≡ []) ↔ IsConsistent (settings given_variables)
issues_iff_example = issues_iff (settings given_variables)

build_iff_example :
    (build_preview_service_reference "pr-run-1" "preview-a1" ≡ ok "service://pr-run-1/preview-a1")
    ↔ (parse_preview_service_reference "service://pr-run-1/preview-a1"
        ≡ some (record { namespace = "pr-run-1"; service_name = "preview-a1" }))
build_iff_example = build_iff "pr-run-1" "preview-a1" "service://pr-run-1/preview-a1"

built_reference :
    build_preview_service_reference "pr-run-1" "preview-a1" ≡ ok "service://pr-run-1/preview-a1"
unfolding build_preview_service_reference is_kubernetes_name is_name_end ◌++◌
built_reference = refl

abbrev preview_row : RunRow
preview_row = record (run_row "r1" passed) {
  preview_host = some "service://pr-run-1/preview-a1";
  preview_expires_at = some 2000;
}

-- A stand-in for the platform's parser, which finds no address.
abbrev no_url : UrlParser
no_url value = none

preview-forwarded_example :
    preview no_url loaded 1000 preview_row ≡ ok (some (forwarded "pr-run-1" "preview-a1" 2000))
unfolding loaded normalize_environment_aliases
preview-forwarded_example =
    preview-forwarded no_url loaded 1000 "pr-run-1" "preview-a1" refl built_reference preview_row
      refl refl (omega arith)

abbrev expired_preview : PreviewAnswer
expired_preview = record {
  access_mode = local_preview;
  status = expired;
  url = none;
  port_forward_command = none;
  ssh_tunnel_command = none;
  expires_at = 2000;
}

answers_expired : preview no_url loaded 3000 preview_row ≡ ok (some expired_preview)
unfolding preview answer_for stored_answer service_answer parse_preview_service_reference loaded
    normalize_environment_aliases named_in strip named_service cut_at_slash has_delimiter
    is_kubernetes_name is_name_end
answers_expired = refl

preview-IsClosed_example : IsClosed expired_preview
preview-IsClosed_example =
    preview-IsClosed no_url loaded 3000 preview_row refl (omega arith) answers_expired

assert_namespace_iff_example :
    (assert_namespace "pr-run-1" ≡ ok "pr-run-1") ↔ (is_kubernetes_name "pr-run-1" ≡ true)
assert_namespace_iff_example = assert_namespace_iff "pr-run-1"

trailing_dash_rejected : is_dns_label "pr-run-" ≡ false
unfolding is_dns_label is_dns_label_end
trailing_dash_rejected = refl

abbrev digest : String
digest = "sha256:0123456789abcdef0123456789abcdef0123456789abcdef0123456789abcdef"

-- The reference that is built for such a registry.
built_image :
    immutable_image_reference "[fd00::5]:5000" "runs/app" digest
    ≡ ok
        "[fd00::5]:5000/runs/app@sha256:0123456789abcdef0123456789abcdef0123456789abcdef0123456789abcdef"
unfolding immutable_image_reference assert_registry_host code_host.Kubernetes.Registries.has_char
    code_host.Kubernetes.Images.is_loopback_host code_host.Kubernetes.Images.same_in_lower_case
    code_host.Kubernetes.Images.split_port code_host.Kubernetes.Registries.is_host
    code_host.Kubernetes.Registries.is_address_end code_host.Kubernetes.Images.is_port
    code_host.Kubernetes.Images.all_digits code_host.Kubernetes.Registries.number_from
    code_host.Kubernetes.Images.is_image_path code_host.Kubernetes.Images.split_on
    code_host.Kubernetes.Images.is_bounded code_host.Kubernetes.Images.is_bounded_end
    code_host.Kubernetes.Images.is_sha256_digest code_host.Kubernetes.Images.all_hex ◌++◌
built_image = refl

immutable_image_reference_rejected_example :
    assert_image_reference
      "[fd00::5]:5000/runs/app@sha256:0123456789abcdef0123456789abcdef0123456789abcdef0123456789abcdef"
    ≡ err "image must be a lowercase immutable OCI reference with a sha256 digest"
immutable_image_reference_rejected_example =
    immutable_image_reference_rejected "[fd00::5]:5000" "runs/app" digest refl built_image
