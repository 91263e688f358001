-- ===== src/Workflow/StateMachine.antt =====
-- apps/worker/src/workflow/state-machine.ts: transitions of a run snapshot, its final status, and
-- retries.
pub mod Outcomes
use code_host.Prelude.{
  ℕ, ◌+◌, String, Bool, true, false, List, [], ◌∷◌, Option, none, some, ◌&&◌, ◌||◌, not, find?, any,
  if◌then◌else◌,
}
use code_host.Prelude.Result.{Result, ok, err}
use code_host.RunStatus.{
  RunStatus, cancelled, incomplete, failed, passed, CleanupStatus, cleaned, same_status,
  same_cleanup, status_text, run_status_transitions, includes, is_valid_run_status_transition,
  can_retry_run,
}
use code_host.Workflow.{
  report, same_step, StepStatus, same_step_status, FailureKind, application, same_kind,
  is_application, RunSnapshot, StepRecord,
}

pub record InvalidRunTransition : Type 0 where
  pub from : RunStatus
  pub to : RunStatus
  pub reason : Option String

unfoldable pub can_transition_run : RunStatus → RunStatus → Bool
can_transition_run from to = same_status from to || includes (run_status_transitions from) to

unfoldable pub transition_run : RunSnapshot → RunStatus → Result InvalidRunTransition RunSnapshot
transition_run run to =
    if same_status run.status to
    then ok run
    else if not (
        is_valid_run_status_transition (status_text run.status) (status_text to)
          (same_cleanup run.cleanup_status cleaned))
    then err (record { from = run.status; to = to; reason = none })
    else if same_status to cancelled && not (same_cleanup run.cleanup_status cleaned)
    then err (record {
      from = run.status;
      to = to;
      reason = some "cleanup must be confirmed before cancellation";
    })
    else ok (record run { status = to })

unfoldable pub classify_failure : FailureKind → RunStatus
classify_failure kind = if same_kind kind application then failed else incomplete

-- `report?.status !== 'PASSED'` is the negation of this.
abbrev pub report_passed : Option StepRecord → Bool
report_passed none = false
report_passed (some r) = same_step_status r.status StepStatus.passed

unfoldable pub derive_final_run_status : List StepRecord → RunStatus
derive_final_run_status steps =
    if not (report_passed (find? (λ r. same_step r.step_key report) steps))
    then incomplete
    else if any
        (λ r.
          same_step_status r.status StepStatus.incomplete
          || (same_step_status r.status StepStatus.failed && not (is_application r.failure_kind)))
        steps
    then incomplete
    else if any (λ r. same_step_status r.status StepStatus.failed && is_application r.failure_kind)
        steps
    then failed
    else passed

abbrev retry_refused : String
retry_refused = "retry requires FAILED or INCOMPLETE status and confirmed cleanup"

unfoldable pub next_attempt : RunSnapshot → Bool → Result String ℕ
next_attempt run manual_cleanup_confirmation =
    if not (can_retry_run run.status run.cleanup_status manual_cleanup_confirmation)
    then err retry_refused
    else ok (run.attempt + 1)
