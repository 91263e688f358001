-- ===== src/Consumer/Interface.antt =====
-- What WorkflowConsumer of apps/worker/src/workflow/consumer.ts is given: the store, the step guard,
-- the executor and the dispatcher, as the interfaces of store.ts, step-guard.ts and executor.ts
-- state them. The store's optional operations are taken to be there, as in the database's store.
use code_host.Prelude.{ℕ, ◌*◌, String, List, Option, Bool, true, false}
use code_host.Json.{Fields}
use code_host.RunStatus.{RunStatus, CleanupStatus}
use code_host.Workflow.{RunSnapshot, StepRecord, WorkflowJob, StepResult}
use code_host.Database.Effects.{Effect, pure}
use code_host.Store.{RunIdentity}
use code_host.Store.Syncs.{SyncInput}
use code_host.Guard.{StepGuardKey, GuardResult}

pub record CapacityLimits : Type 0 where
  pub max_active_runs : ℕ
  pub max_queued_runs : ℕ
  pub max_step_log_bytes : ℕ
  pub max_review_input_bytes : ℕ

abbrev pub capacity_limits : CapacityLimits
capacity_limits = record {
  max_active_runs = 1;
  max_queued_runs = 3;
  max_step_log_bytes = 20 * (1024 * 1024);
  max_review_input_bytes = 64 * 1024;
}

pub record ExecutionContext : Type 0 where
  pub run : RunSnapshot
  pub job : WorkflowJob
  pub capacity : CapacityLimits

pub record ReportInput : Type 0 where
  pub provider : String
  pub model : String
  pub input_hash : String
  pub verdict : RunStatus
  pub summary : String
  pub report : Fields

-- `parse_date` stands for `new Date(text).getTime()`, `none` where that is no number, and `sha256`
-- for the digest of node:crypto in hexadecimal.
pub record Dependencies : Type 0 where
  pub get_run : String → Effect (Option RunSnapshot)
  pub transition_run : RunIdentity → RunStatus → Option String → Effect (Unit {0})
  pub set_cleanup_status : RunIdentity → CleanupStatus → Option String → Effect (Unit {0})
  pub set_preview : RunIdentity → String → ℕ → Effect (Unit {0})
  pub set_execution_plan : RunIdentity → Fields → Effect (Unit {0})
  pub save_report : RunIdentity → ReportInput → Effect (Unit {0})
  pub enqueue_gitea_sync : SyncInput → Effect (Unit {0})
  pub run_once : StepGuardKey → Effect StepResult → Effect GuardResult
  pub mark_skipped : StepGuardKey → String → Effect (Unit {0})
  pub list : String → ℕ → Effect (List StepRecord)
  pub execute : ExecutionContext → Effect StepResult
  pub dispatch : WorkflowJob → Effect (Unit {0})
  pub parse_date : String → Option ℕ
  pub sha256 : String → String

abbrev pub identity_of : WorkflowJob → RunIdentity
identity_of job = record { run_id = job.run_id; attempt = job.attempt; head_sha = job.head_sha }

-- A run's snapshot names the run, its attempt and its head.
abbrev pub identity_of_run : RunSnapshot → RunIdentity
identity_of_run run = record { run_id = run.id; attempt = run.attempt; head_sha = run.head_sha }

abbrev pub key_of : WorkflowJob → StepGuardKey
key_of job = record { run_id = job.run_id; attempt = job.attempt; step_key = job.step_key }

-- `if (test) { await m; }`
abbrev pub when : Bool → Effect (Unit {0}) → Effect (Unit {0})
when true m = m
when false m = pure tt
