-- ===== src/Consumer/Keeps/Parts.antt =====
-- The parts of a job of apps/worker/src/workflow/consumer.ts keep what the operations keep.
use code_host.Prelude.{String, List, Option, none, some, Option-cases, inl, inr}
use code_host.Prelude.Text.{◌++◌ as append}
use code_host.Json.{Fields, get, field, end, text}
use code_host.RunStatus.{
  RunStatus, cancelled, cleaned, cancel_requested, received, same_status, is_terminal_run_status,
}
use code_host.Workflow.{
  step_text, detect, build, preview, agent_review, StepStatus, same_step_status, StepKey,
  RunSnapshot, StepRecord, WorkflowJob, StepResult,
}
use code_host.Workflow.Plan.{record_of, next_step_action, StepAction}
use code_host.Database.Tables.{World}
use code_host.Database.Effects.{Effect, pure, ◌>>=◌, ◌>>◌}
use code_host.Database.Keeps.{bind-keeps}
use code_host.Guard.{GuardResult, executed, already_terminal, busy}
use code_host.Consumer.Interface.{identity_of, identity_of_run, Dependencies, when}
use code_host.Consumer.Finish.{
  phase_for_step, result_passed, run_is, enter_phase, move_to_step_phase, finish_run,
  finalize_report, cleanup_done, finalize_cleanup, dispatch_action, dispatch_next,
}
use code_host.Consumer.Syncs.{
  SyncRequest, status_context, enqueue_gitea_sync, request_step_status, enqueue_gitea_status,
  request_quality, quality_status_request, quality_comment_request,
}
use code_host.Consumer.Details.{
  for_some, object_of, preview_input, details_report, is_fixture, persist_details,
}
use code_host.Consumer.Keeps.{KeptBy, EffectKeeps, if-keeps, when-keeps, seq-keeps}

module _ (P : World → Type 0) (d : Dependencies) (kept : KeptBy P d) where
  pub enter_phase-keeps :
      (run' : RunSnapshot) (key : StepKey) (target : RunStatus)
      → EffectKeeps P (enter_phase d run' key target)
  unfolding enter_phase
  enter_phase-keeps run' key target =
      if-keeps P (same_status run'.status target) _ _ (λ w p. p)
        (if-keeps P (same_status run'.status received) _ _ (λ w p. p)
          (seq-keeps P
            (d.transition_run (identity_of_run run') target
              (some (append "workflow step " (step_text key))))
            (pure (record run' { status = target })) (kept.transition_run _ _ _) (λ w p. p)))

  pub move_to_step_phase-keeps :
      (run' : RunSnapshot) (key : StepKey) → EffectKeeps P (move_to_step_phase d run' key)
  unfolding move_to_step_phase
  move_to_step_phase-keeps run' key w p = elim (Option-cases (phase_for_step key)) [
    | inl no_phase ↦ rw (no_phase, move_to_step_phase) p
    | inr (target, phase) ↦ rw (phase, move_to_step_phase) (enter_phase-keeps run' key target w p)
  ]

  pub finish_run-keeps :
      (job : WorkflowJob) (records : List StepRecord) (found : Option RunSnapshot)
      → EffectKeeps P (finish_run d job records found)
  unfolding finish_run
  finish_run-keeps job records none w p = p
  finish_run-keeps job records (some run') w p =
      if-keeps P (is_terminal_run_status run'.status) _ _ (λ v q. q) (kept.transition_run _ _ _) w p

  pub finalize_report-keeps : (job : WorkflowJob) → EffectKeeps P (finalize_report d job)
  unfolding finalize_report
  finalize_report-keeps job =
      bind-keeps P (d.list job.run_id job.attempt)
        (λ records. d.get_run job.run_id >>= finish_run d job records) (kept.list _ _)
        λ records.
          bind-keeps P (d.get_run job.run_id) (finish_run d job records) (kept.get_run _)
            (finish_run-keeps job records)

  pub cleanup_done-keeps :
      (run' : RunSnapshot) (job : WorkflowJob) → EffectKeeps P (cleanup_done d run' job)
  unfolding cleanup_done
  cleanup_done-keeps run' job =
      let confirm : Option RunSnapshot → Effect (Unit {0}) = λ refreshed.
        when (run_is cancel_requested refreshed) (
          d.transition_run
            (record { run_id = run'.id; attempt = job.attempt; head_sha = job.head_sha }) cancelled
            (some "cleanup confirmed after cancellation request")) in
      seq-keeps P (d.set_cleanup_status (identity_of job) cleaned none)
        (d.get_run job.run_id >>= confirm) (kept.set_cleanup_status _ _ _)
        (bind-keeps P (d.get_run job.run_id) confirm (kept.get_run _) λ refreshed.
          when-keeps P (run_is cancel_requested refreshed) _ (kept.transition_run _ _ _))

  pub finalize_cleanup-keeps :
      (run' : RunSnapshot) (job : WorkflowJob) (result : GuardResult)
      → EffectKeeps P (finalize_cleanup d run' job result)
  unfolding finalize_cleanup
  finalize_cleanup-keeps run' job busy w p = p
  finalize_cleanup-keeps run' job (executed result) w p =
      if-keeps P (result_passed result) _ _ (cleanup_done-keeps run' job)
        (kept.set_cleanup_status _ _ _) w p
  finalize_cleanup-keeps run' job (already_terminal status) w p =
      if-keeps P (same_step_status status StepStatus.passed) _ _ (cleanup_done-keeps run' job)
        (kept.set_cleanup_status _ _ _) w p

  pub dispatch_next-keeps :
      (run' : RunSnapshot) (job : WorkflowJob) → EffectKeeps P (dispatch_next d run' job)
  unfolding dispatch_next dispatch_action
  dispatch_next-keeps run' job =
      bind-keeps P (d.list job.run_id job.attempt)
        (λ records. dispatch_action d run' job (next_step_action records)) (kept.list _ _)
        (λ records. go (next_step_action records))
    where
      go : (a : Option StepAction) → EffectKeeps P (dispatch_action d run' job a)
      go none w p = p
      go (some next) w p = kept.dispatch _ w p

  pub asked_sync-keeps :
      (run' : RunSnapshot) (request : SyncRequest)
      → EffectKeeps P (enqueue_gitea_sync d run' request)
  unfolding enqueue_gitea_sync
  asked_sync-keeps run' request w p = elim (Option-cases run'.repository_full_name) [
    | inl no_repository ↦ rw no_repository p
    | inr (full_name, repository) ↦ elim (Option-cases run'.pull_request_number) [
      | inl no_number ↦ rw repository (rw no_number p)
      | inr (number, pull_request) ↦ rw repository (rw pull_request (kept.enqueue_gitea_sync _ w p))
    ]
  ]

  pub request_step_status-keeps :
      (run' : RunSnapshot) (context : String) (r : Option StepRecord)
      → EffectKeeps P (request_step_status d run' context r)
  unfolding request_step_status
  request_step_status-keeps run' context none w p = p
  request_step_status-keeps run' context (some r) w p = asked_sync-keeps run' _ w p

  pub enqueue_gitea_status-keeps :
      (run' : RunSnapshot) (key : StepKey) → EffectKeeps P (enqueue_gitea_status d run' key)
  unfolding enqueue_gitea_status
  enqueue_gitea_status-keeps run' key w p = elim (Option-cases (status_context key)) [
    | inl no_context ↦ rw (no_context, enqueue_gitea_status) p
    | inr (context, shown) ↦
        rw (shown, enqueue_gitea_status)
          (bind-keeps P (d.list run'.id run'.attempt)
            (λ records. request_step_status d run' context (record_of records key)) (kept.list _ _)
            (λ records. request_step_status-keeps run' context _) w p)
  ]

  pub request_quality-keeps : (found : Option RunSnapshot) → EffectKeeps P (request_quality d found)
  unfolding request_quality
  request_quality-keeps none w p = p
  request_quality-keeps (some run') w p =
      let ask : SyncRequest → Effect (Unit {0}) = enqueue_gitea_sync d run' in
      bind-keeps P (d.list run'.id run'.attempt)
        (λ records. ask (quality_status_request run') >> ask (quality_comment_request run' records))
        (kept.list _ _)
        (λ records.
          seq-keeps P (ask (quality_status_request run'))
            (ask (quality_comment_request run' records)) (asked_sync-keeps run' _)
            (asked_sync-keeps run' _))
        w p

  pub for_some-keeps {ℓ} :
      {A : Type ℓ} (a : Option A) (f : A → Effect (Unit {0}))
      → ((x : A) → EffectKeeps P (f x))
      → EffectKeeps P (for_some a f)
  for_some-keeps none f keeps w p = p
  for_some-keeps (some x) f keeps w p = keeps x w p

  pub persist_details-keeps :
      (job : WorkflowJob) (result : StepResult) (details : Fields) (key : StepKey)
      → EffectKeeps P (persist_details d job result details key)
  unfolding persist_details
  persist_details-keeps job result details detect w p =
      for_some-keeps (object_of (get "executionPlan" details))
        (d.set_execution_plan (identity_of job)) (λ plan. kept.set_execution_plan _ plan) w p
  persist_details-keeps job result details build w p =
      if-keeps P (is_fixture (get "buildMode" details))
        (d.set_execution_plan (identity_of job) (field "buildMode" (text "FIXTURE") end)) (pure tt)
        (kept.set_execution_plan _ _) (λ v q. q) w p
  persist_details-keeps job result details preview w p =
      for_some-keeps (preview_input d.parse_date details)
        (λ input. d.set_preview (identity_of job) input.0 input.1) (λ input. kept.set_preview _ _ _)
        w p
  persist_details-keeps job result details agent_review w p =
      for_some-keeps (details_report result details) (d.save_report (identity_of job))
        (λ input. kept.save_report _ input) w p
  persist_details-keeps job result details _ w p = p
