-- ===== src/Consumer/Advance.antt =====
-- `handle`, `advance` and `advanceCancellation` of apps/worker/src/workflow/consumer.ts. The loop of
-- `advance` goes round once for each step that it skips, so it has fuel for twelve rounds, one more
-- than there are steps.
use code_host.Prelude.{
  ℕ, zero, suc, Bool, true, false, List, Option, none, some, any, str_eq, ◌==◌, ◌&&◌, ◌||◌, not,
  if◌then◌else◌,
}
use code_host.Json.{Value}
use code_host.RunStatus.{cancel_requested, pending, same_status}
use code_host.Workflow.{
  StepKey, report, cleanup, same_step, StepStatus, same_step_status, RunSnapshot, StepRecord,
  WorkflowJob, parse_workflow_job,
}
use code_host.Workflow.Plan.{
  StepAction, run, skip, skipped_upstream, record_of, is_ended, next_step_action,
}
use code_host.Database.Effects.{
  step_out_of_order, step_lease_busy, cleanup_running, loop_limit, Effect, pure, throw, ◌>>=◌, ◌>>◌,
}
use code_host.Guard.{GuardResult, executed, busy}
use code_host.Consumer.Interface.{
  Dependencies, ExecutionContext, capacity_limits, identity_of, key_of, when,
}
use code_host.Consumer.Syncs.{enqueue_gitea_status, enqueue_quality_sync}
use code_host.Consumer.Details.{persist_step_details}
use code_host.Consumer.Finish.{
  guard_passed, run_is, move_to_step_phase, finalize_report, finalize_cleanup, dispatch_next,
}

abbrev pub to_cleanup : WorkflowJob → WorkflowJob
to_cleanup job = record job { step_key = cleanup }

abbrev pub context_of : RunSnapshot → WorkflowJob → ExecutionContext
context_of run' job = record { run = run'; job = job; capacity = capacity_limits }

abbrev pub is_busy : GuardResult → Bool
is_busy busy = true
is_busy _ = false

module _ (d : Dependencies) where
  unfoldable pub persist_executed : WorkflowJob → GuardResult → Effect (Unit {0})
  persist_executed job (executed result) = persist_step_details d job result
  persist_executed job _ = pure tt

  -- The end of a round: a run that is to be cancelled goes to its cleanup next.
  unfoldable pub continue_or_cancel : RunSnapshot → WorkflowJob → Effect (Unit {0})
  continue_or_cancel run' job = d.get_run job.run_id >>= λ refreshed.
      if run_is cancel_requested refreshed
      then d.dispatch (to_cleanup job)
      else dispatch_next d run' job

  -- After a report the run gets its verdict, and the pull request its comment.
  unfoldable pub finish_report : WorkflowJob → Effect (Unit {0})
  finish_report job = finalize_report d job >> enqueue_quality_sync d job

  unfoldable pub finish_step : RunSnapshot → WorkflowJob → GuardResult → Effect (Unit {0})
  unfolding continue_or_cancel
  finish_step run' job result =
      if same_step job.step_key cleanup
      then (finalize_cleanup d run' job result
          >> (if guard_passed result then continue_or_cancel run' job else pure tt))
      else continue_or_cancel run' job

  unfoldable pub after_step : RunSnapshot → WorkflowJob → GuardResult → Effect (Unit {0})
  unfolding persist_executed finish_report finish_step
  after_step run' job result = if is_busy result then throw (step_lease_busy job.step_key) else do
    persist_executed job result
    enqueue_gitea_status d run' job.step_key
    when (same_step job.step_key report) (finish_report job)
    finish_step run' job result

  -- The requested step is the next one.
  unfoldable pub run_step : RunSnapshot → WorkflowJob → Effect (Unit {0})
  unfolding after_step
  run_step run' job = do
    current ← move_to_step_phase d run' job.step_key
    when (same_step job.step_key cleanup) (d.set_cleanup_status (identity_of job) pending none)
    result ← d.run_once (key_of job) (d.execute (context_of current job))
    after_step current job result

  unfoldable pub run_requested :
      RunSnapshot → WorkflowJob → List StepRecord → StepKey → Effect (Unit {0})
  unfolding run_step
  run_requested run' job records next =
      if same_step next job.step_key
      then run_step run' job
      else if is_ended (record_of records job.step_key)
      then dispatch_next d run' job
      else throw (step_out_of_order job.step_key next)

  -- One round of the loop; `again` is the next.
  unfoldable pub round :
      RunSnapshot
      → WorkflowJob
      → Effect (Unit {0})
      → List StepRecord
      → Option StepAction
      → Effect (Unit {0})
  unfolding run_requested
  round run' job again records none = pure tt
  round run' job again records (some (skip key)) = do
    d.mark_skipped (record { run_id = job.run_id; attempt = job.attempt; step_key = key })
        skipped_upstream
    enqueue_gitea_status d run' key
    again
  round run' job again records (some (run key)) = run_requested run' job records key

  -- `spent` is what happens when the rounds are used up.
  unfoldable pub advance_within :
      Effect (Unit {0}) → ℕ → RunSnapshot → WorkflowJob → Effect (Unit {0})
  unfolding round
  advance_within spent zero run' job = spent
  advance_within spent (suc rounds) run' job = d.list job.run_id job.attempt >>= λ records.
      round run' job (advance_within spent rounds run' job) records (next_step_action records)

  unfoldable pub advance : RunSnapshot → WorkflowJob → Effect (Unit {0})
  advance run' job = advance_within (throw loop_limit) 12 run' job

  unfoldable pub cancel_with : RunSnapshot → WorkflowJob → List StepRecord → Effect (Unit {0})
  cancel_with run' job records =
      if any
        (λ r. same_step_status r.status StepStatus.running && not (same_step r.step_key cleanup))
        records
      then pure tt
      else do
        d.set_cleanup_status (identity_of job) pending none
        result ←
            d.run_once (record { run_id = job.run_id; attempt = job.attempt; step_key = cleanup })
              (d.execute (context_of run' job))
        if is_busy result
            then throw (cleanup_running job.run_id)
            else finalize_cleanup d run' job result

  unfoldable pub advance_cancellation : RunSnapshot → WorkflowJob → Effect (Unit {0})
  unfolding cancel_with
  advance_cancellation run' job =
      if not (same_step job.step_key cleanup)
      then pure tt
      else (d.list run'.id run'.attempt >>= λ records. cancel_with run' job records)

  unfoldable pub handle_found : WorkflowJob → Option RunSnapshot → Effect (Unit {0})
  handle_found job none = pure tt
  handle_found job (some run') =
      if not (run'.attempt == job.attempt) || not (str_eq run'.head_sha job.head_sha)
      then pure tt
      else if same_status run'.status cancel_requested && not (same_step job.step_key cleanup)
      then d.dispatch (to_cleanup job)
      else if same_status run'.status cancel_requested
      then advance_cancellation run' job
      else advance run' job

  unfoldable pub handle_job : Option WorkflowJob → Effect (Unit {0})
  unfolding handle_found
  handle_job none = pure tt
  handle_job (some job) = d.get_run job.run_id >>= handle_found job

  unfoldable pub handle : Value → Effect (Unit {0})
  unfolding handle_job
  handle payload = handle_job (parse_workflow_job payload)
