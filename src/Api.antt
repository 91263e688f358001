-- ===== src/Api.antt =====
-- The operations on a run in apps/api/src/run-operations.ts and apps/api/src/run.controller.ts: `cancel`
-- and `retry`, after `requireMaintainer` has let the user in and has read the run, and `preview`.
pub mod Cancel
pub mod Retry
pub mod Previews
use code_host.Prelude.{
  ℕ, suc, ◌+◌, ◌^◌, String, Bool, true, false, List, [], ◌∷◌, ◌++◌, Option, none, some, find?, any,
  count, update, str_eq, ◌==◌, ltb, ◌&&◌, ◌||◌, not, if◌then◌else◌,
}
use code_host.Prelude.Text.{◌++◌ as append, decimal}
use code_host.Json.{Value, text, natural, object, Fields, end, field}
use code_host.RunStatus.{
  RunStatus, queued, planning, executing, analyzing, reporting, cancel_requested, cancelled,
  CleanupStatus, not_scheduled, pending, same_status, same_cleanup, status_text, includes,
  can_retry_run,
}
use code_host.Workflow.{StepKey, detect, cleanup, step_text, WorkflowJob, job_payload}
use code_host.Database.Tables.{RunRow, OutboxRow, waiting, AuditRow, World}
use code_host.Database.Effects.{
  Fault, conflict, not_found, Effect, pure, throw, gets, modify, transaction, ◌>>=◌, ◌>>◌,
}
use code_host.Database.Capacity.{is_active, is_queued, update_status}
use code_host.Store.{find_run}
use code_host.Outbox.{has_key}

abbrev pub cancellable_run_statuses : List RunStatus
cancellable_run_statuses = queued ∷ planning ∷ executing ∷ analyzing ∷ reporting ∷ []

unfoldable pub is_cancellable_run_status : RunStatus → Bool
is_cancellable_run_status status = includes cancellable_run_statuses status

-- `Number.isSafeInteger(n) && n >= 0`
abbrev pub is_safe_integer : ℕ → Bool
is_safe_integer n = ltb n (2 ^ 53)

unfoldable pub has_retry_capacity : ℕ → ℕ → ℕ → Bool
has_retry_capacity active_runs queued_runs max_queued_runs =
    is_safe_integer active_runs
    && (is_safe_integer queued_runs
        && (is_safe_integer max_queued_runs
            && (ltb active_runs 1 && ltb queued_runs max_queued_runs)))

-- What the two operations answer.
pub record RunAnswer : Type 0 where
  pub id : String
  pub status : RunStatus
  pub current_attempt : ℕ
  pub cleanup_status : CleanupStatus

abbrev pub workflow_queue : String
workflow_queue = "platform.workflow"

-- `createWorkflowOutboxDedupeKey`; the attempts of runs are positive.
unfoldable pub create_workflow_outbox_dedupe_key : String → StepKey → ℕ → String
create_workflow_outbox_dedupe_key run_id step_key attempt =
    append run_id (append ":" (append (step_text step_key) (append ":" (decimal attempt))))

abbrev pub job_of : RunRow → ℕ → StepKey → WorkflowJob
job_of row attempt step_key = record {
  run_id = row.id;
  attempt = attempt;
  head_sha = row.head_sha;
  step_key = step_key;
}

-- The inserted row of the outbox, with the columns' defaults.
unfoldable pub new_outbox : RunRow → ℕ → StepKey → ℕ → OutboxRow
new_outbox row attempt step_key now = record {
  run_id = row.id;
  attempt = attempt;
  step_key = step_key;
  queue_name = workflow_queue;
  payload = job_payload (job_of row attempt step_key);
  status = waiting;
  available_at = now;
  published_at = none;
  attempts = 0;
  lease_until = none;
  dedupe_key = create_workflow_outbox_dedupe_key row.id step_key attempt;
  last_error = none;
}

abbrev pub audit : ℕ → String → RunRow → Fields → World → World
audit user action row details w = record w {
  audit_events =
      w.audit_events
      ++ record {
        gitea_user_id = some user;
        action = action;
        entity_type = "run";
        entity_id = row.id;
        metadata = details;
      }
        ∷ [];
}

-- `where id, status, current_attempt, head_sha` of both updates.
abbrev pub is_unchanged : RunRow → RunRow → Bool
is_unchanged current r =
    str_eq r.id current.id
    && (same_status r.status current.status
        && (r.current_attempt == current.current_attempt && str_eq r.head_sha current.head_sha))

abbrev pub answer_of : RunRow → RunAnswer
answer_of r = record {
  id = r.id;
  status = r.status;
  current_attempt = r.current_attempt;
  cleanup_status = r.cleanup_status;
}
