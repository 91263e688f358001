-- ===== src/Api/Cancel.antt =====
-- `cancel` of apps/api/src/run.controller.ts.
pub mod Bounds
pub mod Outcomes
use code_host.Prelude.{
  ℕ, suc, ◌+◌, ◌^◌, String, Bool, true, false, List, [], ◌∷◌, ◌++◌, Option, none, some, find?, any,
  count, update, str_eq, ◌==◌, ltb, ◌&&◌, ◌||◌, not, if◌then◌else◌,
}
use code_host.Prelude.Text.{◌++◌ as append, decimal}
use code_host.Json.{Value, text, natural, object, Fields, end, field}
use code_host.RunStatus.{
  RunStatus, queued, planning, executing, analyzing, reporting, cancel_requested, cancelled,
  CleanupStatus, not_scheduled, pending, same_status, same_cleanup, status_text, includes,
  can_retry_run,
}
use code_host.Workflow.{StepKey, detect, cleanup, step_text, WorkflowJob, job_payload}
use code_host.Database.Tables.{RunRow, OutboxRow, waiting, AuditRow, World}
use code_host.Database.Effects.{
  Fault, conflict, not_found, Effect, pure, throw, gets, modify, transaction, ◌>>=◌, ◌>>◌,
}
use code_host.Database.Capacity.{is_active, is_queued, update_status}
use code_host.Store.{find_run}
use code_host.Outbox.{has_key}
use code_host.Api.{
  is_cancellable_run_status, has_retry_capacity, RunAnswer, create_workflow_outbox_dedupe_key,
  job_of, new_outbox, audit, is_unchanged, answer_of,
}

unfoldable pub cancelling : ℕ → RunRow → RunRow
cancelling now r = record r {
  cleanup_status = pending;
  cleanup_at = none;
  cleanup_error = none;
  updated_at = now;
}

unfoldable pub renewed : ℕ → OutboxRow → OutboxRow
renewed now r = record r {
  status = waiting;
  available_at = now;
  published_at = none;
  lease_until = none;
  last_error = none;
}

-- `enqueueCleanup`: an insert, or an update of the row that has the key already.
unfoldable pub enqueue_cleanup : RunRow → Effect (Unit {0})
unfolding new_outbox renewed
enqueue_cleanup current w =
    let key = create_workflow_outbox_dedupe_key current.id cleanup current.current_attempt in
    if any (has_key key) w.outbox
    then pure tt (record w { outbox = update (has_key key) (renewed w.now) w.outbox })
    else pure tt (record w {
      outbox = w.outbox ++ new_outbox current current.current_attempt cleanup w.now ∷ [];
    })

-- The update of the run; nothing is asked of the number of rows that it touches.
unfoldable pub request_cancel : RunRow → Effect (Unit {0})
unfolding cancelling
request_cancel current = modify λ w. record w {
  runs = update_status (is_unchanged current) cancel_requested (cancelling w.now) w.runs;
}

abbrev pub cancel_details : RunRow → Fields
cancel_details current = field "attempt" (natural current.current_attempt) (
    field "headSha" (text current.head_sha)
      (field "previousStatus" (text (status_text current.status)) end))

unfoldable pub cancel_current : ℕ → RunRow → Effect RunAnswer
unfolding enqueue_cleanup request_cancel
cancel_current user current =
    if same_status current.status cancelled
    then pure (answer_of current)
    else if same_status current.status cancel_requested
    then (enqueue_cleanup current >> pure (answer_of current))
    else if not (is_cancellable_run_status current.status)
    then throw (conflict "run cannot be cancelled in its current state")
    else do
      request_cancel current
      enqueue_cleanup current
      modify (audit user "RUN_CANCEL_REQUESTED" current (cancel_details current))
      pure (record (answer_of current) { status = cancel_requested; cleanup_status = pending })

-- The body of the transaction of `cancel`; `run_id` is that of the row that `requireMaintainer` read.
unfoldable pub read_cancel : ℕ → String → Effect RunAnswer
unfolding cancel_current
read_cancel user run_id w = elim (find_run run_id w) [
  | none ↦ throw (not_found "run not found") w
  | some current ↦ cancel_current user current w
]

unfoldable pub cancel : ℕ → String → Effect RunAnswer
unfolding read_cancel
cancel user run_id = transaction (read_cancel user run_id)
