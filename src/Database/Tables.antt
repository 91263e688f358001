-- ===== src/Database/Tables.antt =====
-- packages/db/src/schema.ts: the rows that the workflow reads and writes, and the whole state.
-- Times are milliseconds; a nullable column is an `Option`.
use code_host.Prelude.{ℕ, String, Bool, List, Option}
use code_host.Json.{Value, Fields}
use code_host.RunStatus.{RunStatus, CleanupStatus}
use code_host.Workflow.{StepKey, StepStatus, FailureKind, WorkflowJob}

pub record RepositoryRow : Type 0 where
  pub id : String
  pub provider_repo_id : ℕ
  pub owner : String
  pub name : String
  pub full_name : String
  pub default_branch : String
  pub enabled : Bool

pub record PullRequestRow : Type 0 where
  pub id : String
  pub repository_id : String
  pub external_number : ℕ
  pub head_sha : String
  pub base_sha : String
  pub source_branch : String
  pub title : String
  pub author : String
  pub state : String
  pub updated_at : ℕ

pub record RunRow : Type 0 where
  pub id : String
  pub repository_id : String
  pub pull_request_id : String
  pub head_sha : String
  pub trigger : String
  pub status : RunStatus
  pub verdict : Option RunStatus
  pub created_at : ℕ
  pub updated_at : ℕ
  pub namespace : Option String
  pub preview_host : Option String
  pub execution_plan : Fields
  pub workflow_version : String
  pub current_attempt : ℕ
  pub started_at : Option ℕ
  pub finished_at : Option ℕ
  pub cleanup_at : Option ℕ
  pub cleanup_status : CleanupStatus
  pub cleanup_error : Option String
  pub preview_expires_at : Option ℕ
  pub error_code : Option String

pub data OutboxStatus : Type 0 where
  waiting published undelivered : OutboxStatus

-- `dedupe_key` is unique, and the table checks that it is made of run, step and attempt.
pub record OutboxRow : Type 0 where
  pub run_id : String
  pub attempt : ℕ
  pub step_key : StepKey
  pub queue_name : String
  pub payload : Value
  pub status : OutboxStatus
  pub available_at : ℕ
  pub published_at : Option ℕ
  pub attempts : ℕ
  pub lease_until : Option ℕ
  pub dedupe_key : String
  pub last_error : Option String

-- `run_id`, `attempt` and `step_key` are unique together, so they stand for the row's id.
pub record StepRow : Type 0 where
  pub run_id : String
  pub attempt : ℕ
  pub step_key : StepKey
  pub status : StepStatus
  pub log_path : Option String
  pub started_at : Option ℕ
  pub finished_at : Option ℕ
  pub lease_token : Option String
  pub lease_until : Option ℕ
  pub failure_kind : Option FailureKind
  pub error_code : Option String
  pub expires_at : Option ℕ

-- `run_id` and `attempt` are unique together.
pub record ReportRow : Type 0 where
  pub run_id : String
  pub attempt : ℕ
  pub head_sha : String
  pub provider : String
  pub model : String
  pub input_hash : String
  pub verdict : RunStatus
  pub summary : String
  pub report : Fields
  pub expires_at : ℕ

pub data SyncStatus : Type 0 where
  to_sync synced sync_failed : SyncStatus

-- `run_id`, `attempt`, `context` and `head_sha` are unique together.
pub record SyncRow : Type 0 where
  pub run_id : String
  pub attempt : ℕ
  pub head_sha : String
  pub context : String
  pub artifact_type : String
  pub desired_hash : String
  pub desired_state : String
  pub desired_description : String
  pub desired_target_url : Option String
  pub desired_body : String
  pub sync_status : SyncStatus
  pub attempts : ℕ
  pub next_attempt_at : ℕ
  pub lease_until : Option ℕ
  pub external_status_id : Option ℕ
  pub comment_id : Option ℕ
  pub last_sync_error : Option String
  pub synced_at : Option ℕ

pub data ResourcePhase : Type 0 where
  awaited running succeeded broken deleting deleted unknown : ResourcePhase

-- `run_id`, `attempt`, `step_key`, `kind` and `name` are unique together.
pub record ResourceRow : Type 0 where
  pub run_id : String
  pub attempt : ℕ
  pub step_key : String
  pub namespace : String
  pub kind : String
  pub name : String
  pub uid : Option String
  pub phase : ResourcePhase
  pub deleted_at : Option ℕ

pub record AuditRow : Type 0 where
  pub gitea_user_id : Option ℕ
  pub action : String
  pub entity_type : String
  pub entity_id : String
  pub metadata : Fields

pub data EventStatus : Type 0 where
  event_received event_processed : EventStatus

-- `provider_delivery_id` is unique, so it stands for the row's id.
pub record WebhookEventRow : Type 0 where
  pub provider_delivery_id : String
  pub event_type : String
  pub external_number : ℕ
  pub head_sha : String
  pub payload_hash : String
  pub repository_id : Option String
  pub status : EventStatus
  pub processed_at : Option ℕ

-- The database, the jobs that pg-boss holds in the order of their arrival, the clock, and how many
-- random values have been drawn.
pub record World : Type 0 where
  pub repositories : List RepositoryRow
  pub pull_requests : List PullRequestRow
  pub webhook_events : List WebhookEventRow
  pub runs : List RunRow
  pub outbox : List OutboxRow
  pub run_steps : List StepRow
  pub reports : List ReportRow
  pub gitea_syncs : List SyncRow
  pub k8s_resources : List ResourceRow
  pub audit_events : List AuditRow
  pub queue : List WorkflowJob
  pub now : ℕ
  pub draws : ℕ
