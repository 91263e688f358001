-- ===== src/Consumer/Finish.antt =====
-- How apps/worker/src/workflow/consumer.ts moves a run between phases, finishes its report and its
-- cleanup, and sends the next job.
use code_host.Prelude.{String, Bool, true, false, List, Option, none, some, if◌then◌else◌}
use code_host.Prelude.Text.{◌++◌ as append}
use code_host.RunStatus.{
  RunStatus, received, planning, executing, analyzing, reporting, cancel_requested, cancelled,
  cleaned, cleanup_failed, same_status, is_terminal_run_status,
}
use code_host.Workflow.{
  StepKey, detect, fetch, analyze, test, build, preview, health, assemble_review_input,
  agent_review, report, cleanup, step_text, StepStatus, same_step_status, RunSnapshot, StepRecord,
  WorkflowJob, StepResult, step_passed, step_failed,
}
use code_host.Workflow.Plan.{StepAction, run, skip, next_step_action}
use code_host.Workflow.StateMachine.{derive_final_run_status}
use code_host.Database.Effects.{run_not_admitted, Effect, pure, throw, ◌>>=◌, ◌>>◌}
use code_host.Guard.{GuardResult, executed, already_terminal, busy}
use code_host.Consumer.Interface.{Dependencies, identity_of, identity_of_run, when}

unfoldable pub phase_for_step : StepKey → Option RunStatus
phase_for_step detect = some planning
phase_for_step fetch = some planning
phase_for_step analyze = some executing
phase_for_step test = some executing
phase_for_step build = some executing
phase_for_step preview = some executing
phase_for_step health = some executing
phase_for_step assemble_review_input = some analyzing
phase_for_step agent_review = some reporting
phase_for_step report = some reporting
phase_for_step cleanup = none

abbrev pub result_passed : StepResult → Bool
result_passed (step_passed details) = true
result_passed _ = false

-- `succeeded` of `finalizeCleanup`, false on 'busy'
abbrev pub guard_passed : GuardResult → Bool
guard_passed (executed result) = result_passed result
guard_passed (already_terminal status) = same_step_status status StepStatus.passed
guard_passed busy = false

abbrev pub cleanup_error_code : GuardResult → String
cleanup_error_code (executed (step_failed kind code details)) = code
cleanup_error_code _ = "CLEANUP_STEP_FAILED"

-- The status of a run that may be missing.
abbrev pub run_is : RunStatus → Option RunSnapshot → Bool
run_is status none = false
run_is status (some run') = same_status run'.status status

module _ (d : Dependencies) where
  unfoldable pub enter_phase : RunSnapshot → StepKey → RunStatus → Effect RunSnapshot
  enter_phase run' step_key target =
      if same_status run'.status target
      then pure run'
      else if same_status run'.status received
      then throw run_not_admitted
      else (d.transition_run (identity_of_run run') target
            (some (append "workflow step " (step_text step_key)))
          >> pure (record run' { status = target }))

  unfoldable pub move_to_step_phase : RunSnapshot → StepKey → Effect RunSnapshot
  unfolding enter_phase
  move_to_step_phase run' step_key = elim (phase_for_step step_key) [
    | none ↦ pure run'
    | some target ↦ enter_phase run' step_key target
  ]

  unfoldable pub finish_run : WorkflowJob → List StepRecord → Option RunSnapshot → Effect (Unit {0})
  finish_run job records none = pure tt
  finish_run job records (some run') =
      if is_terminal_run_status run'.status
      then pure tt
      else d.transition_run (identity_of job) (derive_final_run_status records)
          (some "workflow report finalized")

  unfoldable pub finalize_report : WorkflowJob → Effect (Unit {0})
  unfolding finish_run
  finalize_report job = do
    records ← d.list job.run_id job.attempt
    found ← d.get_run job.run_id
    finish_run job records found

  unfoldable pub cleanup_done : RunSnapshot → WorkflowJob → Effect (Unit {0})
  cleanup_done run' job = do
    d.set_cleanup_status (identity_of job) cleaned none
    refreshed ← d.get_run job.run_id
    when (run_is cancel_requested refreshed) (
        d.transition_run
          (record { run_id = run'.id; attempt = job.attempt; head_sha = job.head_sha }) cancelled
          (some "cleanup confirmed after cancellation request"))

  unfoldable pub finalize_cleanup : RunSnapshot → WorkflowJob → GuardResult → Effect (Unit {0})
  unfolding cleanup_done
  finalize_cleanup run' job busy = pure tt
  finalize_cleanup run' job (executed result) =
      if result_passed result
      then cleanup_done run' job
      else d.set_cleanup_status (identity_of job) cleanup_failed
          (some (cleanup_error_code (executed result)))
  finalize_cleanup run' job (already_terminal status) =
      if same_step_status status StepStatus.passed
      then cleanup_done run' job
      else d.set_cleanup_status (identity_of job) cleanup_failed
          (some (cleanup_error_code (already_terminal status)))

  abbrev pub action_key : StepAction → StepKey
  action_key (run key) = key
  action_key (skip key) = key

  unfoldable pub dispatch_action : RunSnapshot → WorkflowJob → Option StepAction → Effect (Unit {0})
  dispatch_action run' job none = pure tt
  dispatch_action run' job (some next) = d.dispatch (record {
    run_id = run'.id;
    attempt = job.attempt;
    head_sha = job.head_sha;
    step_key = action_key next;
  })

  unfoldable pub dispatch_next : RunSnapshot → WorkflowJob → Effect (Unit {0})
  unfolding dispatch_action
  dispatch_next run' job = d.list job.run_id job.attempt >>= λ records.
      dispatch_action run' job (next_step_action records)
