-- ===== src/Api/Retry.antt =====
-- `retry` of apps/api/src/run.controller.ts.
pub mod Outcomes
pub mod Accepted
use code_host.Prelude.{
  ℕ, suc, ◌+◌, ◌^◌, String, Bool, true, false, List, [], ◌∷◌, ◌++◌, Option, none, some, find?, any,
  count, update, str_eq, ◌==◌, ltb, ◌&&◌, ◌||◌, not, if◌then◌else◌,
}
use code_host.Prelude.Text.{◌++◌ as append, decimal}
use code_host.Json.{Value, text, natural, object, Fields, end, field}
use code_host.RunStatus.{
  RunStatus, queued, planning, executing, analyzing, reporting, cancel_requested, cancelled,
  CleanupStatus, not_scheduled, pending, same_status, same_cleanup, status_text, includes,
  can_retry_run,
}
use code_host.Workflow.{StepKey, detect, cleanup, step_text, WorkflowJob, job_payload}
use code_host.Database.Tables.{RunRow, OutboxRow, waiting, AuditRow, World}
use code_host.Database.Effects.{
  Fault, conflict, not_found, Effect, pure, throw, gets, modify, transaction, ◌>>=◌, ◌>>◌,
}
use code_host.Database.Capacity.{is_active, is_queued, update_status}
use code_host.Store.{find_run}
use code_host.Outbox.{has_key}
use code_host.Api.{
  is_cancellable_run_status, has_retry_capacity, RunAnswer, create_workflow_outbox_dedupe_key,
  job_of, new_outbox, audit, is_unchanged, answer_of,
}

-- The columns that a retry resets.
unfoldable pub retried : ℕ → ℕ → RunRow → RunRow
retried attempt now r = record r {
  verdict = none;
  current_attempt = attempt;
  started_at = none;
  finished_at = none;
  cleanup_at = none;
  cleanup_status = not_scheduled;
  cleanup_error = none;
  preview_host = none;
  preview_expires_at = none;
  updated_at = now;
  error_code = none;
}

abbrev pub retry_details : RunRow → Fields
retry_details current = field "previousAttempt" (natural current.current_attempt) (
    field "attempt" (natural (current.current_attempt + 1))
      (field "headSha" (text current.head_sha) end))

-- `isRetryEligible`
abbrev pub is_retry_eligible : RunRow → Bool → Bool
is_retry_eligible row confirmed = can_retry_run row.status row.cleanup_status confirmed

-- An insert into the outbox, which the unique key refuses if the row is there.
unfoldable pub insert_outbox : OutboxRow → Effect (Unit {0})
insert_outbox row w =
    if any (has_key row.dedupe_key) w.outbox
    then throw (conflict "duplicate key value violates unique constraint") w
    else pure tt (record w { outbox = w.outbox ++ row ∷ [] })

abbrev pub retry_changed : Fault
retry_changed = conflict "run changed while retry was being requested"

abbrev pub retry_ineligible : Fault
retry_ineligible = conflict "run is not eligible for retry; cleanup must be confirmed"

-- The writes of the retry, once the run is read again and may be retried.
unfoldable pub start_attempt : ℕ → RunRow → Effect RunAnswer
unfolding insert_outbox retried new_outbox
start_attempt user current w =
    let attempt = current.current_attempt + 1 in
    if not (count (is_unchanged current) w.runs == 1)
    then throw retry_changed w
    else (insert_outbox (new_outbox current attempt detect w.now)
          >> (modify (audit user "RUN_RETRIED" current (retry_details current))
              >> pure (record {
                id = current.id;
                status = queued;
                current_attempt = attempt;
                cleanup_status = not_scheduled;
              })))
        (record w {
          runs = update_status (is_unchanged current) queued (retried attempt w.now) w.runs;
        })

-- `row` is what `requireMaintainer` read, `current` what the transaction reads.
unfoldable pub retry_current : ℕ → ℕ → RunRow → Bool → RunRow → Effect RunAnswer
unfolding start_attempt
retry_current max_queued_runs user row confirmed current w =
    if not (same_status current.status row.status)
      || (not (same_cleanup current.cleanup_status row.cleanup_status)
          || not (current.current_attempt == row.current_attempt))
    then throw retry_changed w
    else if not (is_retry_eligible current confirmed)
    then throw retry_ineligible w
    else if not
        (has_retry_capacity (count is_active w.runs) (count is_queued w.runs) max_queued_runs)
    then throw (conflict "run queue is full") w
    else start_attempt user current w

unfoldable pub read_retry : ℕ → ℕ → RunRow → Bool → Effect RunAnswer
unfolding retry_current
read_retry max_queued_runs user row confirmed w = elim (find_run row.id w) [
  | none ↦ throw retry_changed w
  | some current ↦ retry_current max_queued_runs user row confirmed current w
]

-- `max_queued_runs` is the configuration's.
unfoldable pub retry : ℕ → ℕ → RunRow → Bool → Effect RunAnswer
unfolding read_retry
retry max_queued_runs user row confirmed =
    if not (is_retry_eligible row confirmed)
    then throw retry_ineligible
    else transaction (read_retry max_queued_runs user row confirmed)
