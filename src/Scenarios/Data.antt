-- ===== src/Scenarios/Data.antt =====
-- A repository with one pull request and one run, at the moments that the scenarios start from.
use code_host.Prelude.{ℕ, String, true, List, [], ◌∷◌, Option, none}
use code_host.Prelude.Result.{ok}
use code_host.Json.{end}
use code_host.RunStatus.{RunStatus, not_scheduled}
use code_host.Workflow.{StepKey, StepStatus, FailureKind, StepRecord, step_passed, WorkflowJob}
use code_host.Database.Tables.{RepositoryRow, PullRequestRow, RunRow, StepRow, World}
use code_host.Store.{RunIdentity}
use code_host.Guard.{StepGuardKey}
use code_host.Consumer.Database.{Environment}

abbrev pub demo_repository : RepositoryRow
demo_repository = record {
  id = "repo";
  provider_repo_id = 7;
  owner = "team";
  name = "app";
  full_name = "team/app";
  default_branch = "main";
  enabled = true;
}

abbrev pub demo_pull_request : PullRequestRow
demo_pull_request = record {
  id = "pr";
  repository_id = "repo";
  external_number = 12;
  head_sha = "abc";
  base_sha = "def";
  source_branch = "feature";
  title = "A feature";
  author = "dev";
  state = "open";
  updated_at = 1;
}

abbrev pub run_row : String → RunStatus → RunRow
run_row id status = record {
  id = id;
  repository_id = "repo";
  pull_request_id = "pr";
  head_sha = "abc";
  trigger = "webhook";
  status = status;
  verdict = none;
  created_at = 1;
  updated_at = 1;
  namespace = none;
  preview_host = none;
  execution_plan = end;
  workflow_version = "1";
  current_attempt = 1;
  started_at = none;
  finished_at = none;
  cleanup_at = none;
  cleanup_status = not_scheduled;
  cleanup_error = none;
  preview_expires_at = none;
  error_code = none;
}

abbrev pub step_row : StepKey → StepStatus → Option String → Option ℕ → StepRow
step_row key status token until = record {
  run_id = "r1";
  attempt = 1;
  step_key = key;
  status = status;
  log_path = none;
  started_at = none;
  finished_at = none;
  lease_token = token;
  lease_until = until;
  failure_kind = none;
  error_code = none;
  expires_at = none;
}

abbrev pub world_with : List RunRow → List StepRow → World
world_with runs steps = record {
  repositories = demo_repository ∷ [];
  pull_requests = demo_pull_request ∷ [];
  webhook_events = [];
  runs = runs;
  outbox = [];
  run_steps = steps;
  reports = [];
  gitea_syncs = [];
  k8s_resources = [];
  audit_events = [];
  queue = [];
  now = 100;
  draws = 0;
}

abbrev pub demo_identity : RunIdentity
demo_identity = record { run_id = "r1"; attempt = 1; head_sha = "abc" }

abbrev pub demo_key : StepKey → StepGuardKey
demo_key key = record { run_id = "r1"; attempt = 1; step_key = key }

abbrev pub demo_job : StepKey → WorkflowJob
demo_job key = record { run_id = "r1"; attempt = 1; head_sha = "abc"; step_key = key }

abbrev pub record_for : StepKey → StepStatus → Option FailureKind → StepRecord
record_for key status kind = record {
  step_key = key;
  status = status;
  failure_kind = kind;
  error_code = none;
}

abbrev pub demo_token : ℕ → String
demo_token n = "token"

abbrev pub demo_environment : Environment
demo_environment = record {
  random = demo_token;
  during = [];
  execute = λ context w. (ok (step_passed none), w);
  save_report = λ k input w. (ok tt, w);
  accepts = λ job w. true;
  parse_date = λ s. none;
  sha256 = λ s. s;
}
