-- ===== src/Consumer/Keeps/Jobs.antt =====
-- The jobs of apps/worker/src/workflow/consumer.ts, up to the whole handler, keep what the operations keep.
use code_host.Prelude.{
  ℕ, zero, suc, any, str_eq, ◌==◌, ◌&&◌, ◌||◌, not, List, Option, none, some, if◌then◌else◌,
}
use code_host.Json.{Value}
use code_host.RunStatus.{pending, cancel_requested, same_status}
use code_host.Workflow.{
  parse_workflow_job, cleanup, report, same_step, StepStatus, same_step_status, StepKey,
  RunSnapshot, StepRecord, WorkflowJob,
}
use code_host.Workflow.Plan.{
  skipped_upstream, is_ended, record_of, next_step_action, StepAction, run, skip,
}
use code_host.Database.Tables.{World}
use code_host.Database.Effects.{
  step_out_of_order, step_lease_busy, cleanup_running, loop_limit, Effect, pure, throw, ◌>>=◌, ◌>>◌,
}
use code_host.Database.Keeps.{bind-keeps}
use code_host.Guard.{GuardResult, executed, already_terminal, busy}
use code_host.Consumer.Interface.{key_of, identity_of, Dependencies, when}
use code_host.Consumer.Finish.{
  guard_passed, run_is, move_to_step_phase, finalize_report, finalize_cleanup, dispatch_next,
}
use code_host.Consumer.Syncs.{enqueue_gitea_status, request_quality, enqueue_quality_sync}
use code_host.Consumer.Details.{details_of, persist_details, persist_step_details}
use code_host.Consumer.Advance.{
  to_cleanup, context_of, is_busy, persist_executed, continue_or_cancel, finish_report, finish_step,
  after_step, run_step, run_requested, round, advance_within, advance, cancel_with,
  advance_cancellation, handle_found, handle_job, handle,
}
use code_host.Consumer.Keeps.{KeptBy, EffectKeeps, if-keeps, when-keeps, seq-keeps}
use code_host.Consumer.Keeps.Parts.{
  move_to_step_phase-keeps, finalize_report-keeps, finalize_cleanup-keeps, dispatch_next-keeps,
  enqueue_gitea_status-keeps, request_quality-keeps, for_some-keeps, persist_details-keeps,
}

module _ (P : World → Type 0) (d : Dependencies) (kept : KeptBy P d) where
  persist_executed-keeps :
      (job : WorkflowJob) (result : GuardResult) → EffectKeeps P (persist_executed d job result)
  unfolding persist_executed persist_step_details
  persist_executed-keeps job (executed result) w p =
      for_some-keeps P d kept (details_of result)
        (λ details. persist_details d job result details job.step_key)
        (λ details. persist_details-keeps P d kept job result details job.step_key) w p
  persist_executed-keeps job (already_terminal status) w p = p
  persist_executed-keeps job busy w p = p

  enqueue_quality_sync-keeps : (job : WorkflowJob) → EffectKeeps P (enqueue_quality_sync d job)
  unfolding enqueue_quality_sync
  enqueue_quality_sync-keeps job =
      bind-keeps P (d.get_run job.run_id) (request_quality d) (kept.get_run _)
        (request_quality-keeps P d kept)

  finish_report-keeps : (job : WorkflowJob) → EffectKeeps P (finish_report d job)
  unfolding finish_report
  finish_report-keeps job =
      seq-keeps P (finalize_report d job) (enqueue_quality_sync d job)
        (finalize_report-keeps P d kept job) (enqueue_quality_sync-keeps job)

  continue_or_cancel-keeps :
      (run' : RunSnapshot) (job : WorkflowJob) → EffectKeeps P (continue_or_cancel d run' job)
  unfolding continue_or_cancel
  continue_or_cancel-keeps run' job =
      let next : Option RunSnapshot → Effect (Unit {0}) = λ refreshed.
        if run_is cancel_requested refreshed
        then d.dispatch (to_cleanup job)
        else dispatch_next d run' job in
      bind-keeps P (d.get_run job.run_id) next (kept.get_run _) λ refreshed.
        if-keeps P (run_is cancel_requested refreshed) (d.dispatch (to_cleanup job))
          (dispatch_next d run' job) (kept.dispatch _) (dispatch_next-keeps P d kept run' job)

  finish_step-keeps :
      (run' : RunSnapshot) (job : WorkflowJob) (result : GuardResult)
      → EffectKeeps P (finish_step d run' job result)
  unfolding finish_step
  finish_step-keeps run' job result =
      let closing : Effect (Unit {0}) =
        if guard_passed result then continue_or_cancel d run' job else pure tt in
      if-keeps P (same_step job.step_key cleanup) (finalize_cleanup d run' job result >> closing)
        (continue_or_cancel d run' job)
        (seq-keeps P (finalize_cleanup d run' job result) closing
          (finalize_cleanup-keeps P d kept run' job result)
          (if-keeps P (guard_passed result) (continue_or_cancel d run' job) (pure tt)
            (continue_or_cancel-keeps run' job) (λ w p. p)))
        (continue_or_cancel-keeps run' job)

  after_step-keeps :
      (run' : RunSnapshot) (job : WorkflowJob) (result : GuardResult)
      → EffectKeeps P (after_step d run' job result)
  unfolding after_step
  after_step-keeps run' job result =
      let reported : Effect (Unit {0}) =
        when (same_step job.step_key report) (finish_report d job) in
      let finished : Effect (Unit {0}) = finish_step d run' job result in
      if-keeps P (is_busy result) (throw (step_lease_busy job.step_key))
        (persist_executed d job result
          >> (enqueue_gitea_status d run' job.step_key >> (reported >> finished)))
        (λ w p. p)
        (seq-keeps P (persist_executed d job result) _ (persist_executed-keeps job result) (
          seq-keeps P (enqueue_gitea_status d run' job.step_key) (reported >> finished)
            (enqueue_gitea_status-keeps P d kept run' job.step_key)
            (seq-keeps P reported finished
              (when-keeps P (same_step job.step_key report) (finish_report d job)
                (finish_report-keeps job))
              (finish_step-keeps run' job result))))

  run_step-keeps : (run' : RunSnapshot) (job : WorkflowJob) → EffectKeeps P (run_step d run' job)
  unfolding run_step
  run_step-keeps run' job =
      let marked : Effect (Unit {0}) =
        when (same_step job.step_key cleanup)
          (d.set_cleanup_status (identity_of job) pending none) in
      let ran : RunSnapshot → Effect GuardResult =
        λ current. d.run_once (key_of job) (d.execute (context_of current job)) in
      bind-keeps P (move_to_step_phase d run' job.step_key)
        (λ current. marked >> (ran current >>= after_step d current job))
        (move_to_step_phase-keeps P d kept run' job.step_key)
        λ current.
          seq-keeps P marked (ran current >>= after_step d current job)
            (when-keeps P (same_step job.step_key cleanup) _ (kept.set_cleanup_status _ _ _))
            (bind-keeps P (ran current) (after_step d current job)
              (kept.run_once _ _ (kept.execute _)) (after_step-keeps current job))

  run_requested-keeps :
      (run' : RunSnapshot) (job : WorkflowJob) (records : List StepRecord) (next : StepKey)
      → EffectKeeps P (run_requested d run' job records next)
  unfolding run_requested
  run_requested-keeps run' job records next =
      if-keeps P (same_step next job.step_key) (run_step d run' job) _ (run_step-keeps run' job) (
        if-keeps P (is_ended (record_of records job.step_key)) (dispatch_next d run' job)
          (throw (step_out_of_order job.step_key next)) (dispatch_next-keeps P d kept run' job)
          (λ w p. p))

  round-keeps :
      (run' : RunSnapshot) (job : WorkflowJob) (again : Effect (Unit {0}))
      → EffectKeeps P again
      → (records : List StepRecord) (a : Option StepAction)
      → EffectKeeps P (round d run' job again records a)
  unfolding round
  round-keeps run' job again keeps records none w p = p
  round-keeps run' job again keeps records (some (run key)) w p =
      run_requested-keeps run' job records key w p
  round-keeps run' job again keeps records (some (skip key)) w p =
      seq-keeps P
        (d.mark_skipped (record { run_id = job.run_id; attempt = job.attempt; step_key = key })
          skipped_upstream)
        (enqueue_gitea_status d run' key >> again) (kept.mark_skipped _ _)
        (seq-keeps P (enqueue_gitea_status d run' key) again
          (enqueue_gitea_status-keeps P d kept run' key) keeps)
        w p

  advance_within-keeps :
      (spent : Effect (Unit {0}))
      → EffectKeeps P spent
      → (n : ℕ) (run' : RunSnapshot) (job : WorkflowJob)
      → EffectKeeps P (advance_within d spent n run' job)
  unfolding advance_within
  advance_within-keeps spent keeps zero run' job w p = keeps w p
  advance_within-keeps spent keeps (suc n) run' job w p =
      bind-keeps P (d.list job.run_id job.attempt)
        (λ records.
          round d run' job (advance_within d spent n run' job) records (next_step_action records))
        (kept.list _ _)
        (λ records.
          round-keeps run' job (advance_within d spent n run' job)
            (advance_within-keeps spent keeps n run' job) records (next_step_action records))
        w p

  cancel_with-keeps :
      (run' : RunSnapshot) (job : WorkflowJob) (records : List StepRecord)
      → EffectKeeps P (cancel_with d run' job records)
  unfolding cancel_with
  cancel_with-keeps run' job records =
      let ran : Effect GuardResult =
        d.run_once (record { run_id = job.run_id; attempt = job.attempt; step_key = cleanup })
          (d.execute (context_of run' job)) in
      let finished : GuardResult → Effect (Unit {0}) = λ result.
        if is_busy result
        then throw (cleanup_running job.run_id)
        else finalize_cleanup d run' job result in
      if-keeps P
        (any
          (λ r. same_step_status r.status StepStatus.running && not (same_step r.step_key cleanup))
          records)
        (pure tt) (d.set_cleanup_status (identity_of job) pending none >> (ran >>= finished))
        (λ w p. p)
        (seq-keeps P (d.set_cleanup_status (identity_of job) pending none) (ran >>= finished)
          (kept.set_cleanup_status _ _ _)
          (bind-keeps P ran finished (kept.run_once _ _ (kept.execute _)) λ result.
            if-keeps P (is_busy result) (throw (cleanup_running job.run_id))
              (finalize_cleanup d run' job result) (λ w p. p)
              (finalize_cleanup-keeps P d kept run' job result)))

  advance_cancellation-keeps :
      (run' : RunSnapshot) (job : WorkflowJob) → EffectKeeps P (advance_cancellation d run' job)
  unfolding advance_cancellation
  advance_cancellation-keeps run' job =
      if-keeps P (not (same_step job.step_key cleanup)) (pure tt)
        (d.list run'.id run'.attempt >>= cancel_with d run' job) (λ w p. p)
        (bind-keeps P (d.list run'.id run'.attempt) (cancel_with d run' job) (kept.list _ _)
          (cancel_with-keeps run' job))

  handle_found-keeps :
      (job : WorkflowJob) (found : Option RunSnapshot) → EffectKeeps P (handle_found d job found)
  unfolding handle_found advance
  handle_found-keeps job none w p = p
  handle_found-keeps job (some run') w p =
      if-keeps P (not (run'.attempt == job.attempt) || not (str_eq run'.head_sha job.head_sha))
        (pure tt) _ (λ v q. q)
        (if-keeps P
          (same_status run'.status cancel_requested && not (same_step job.step_key cleanup))
          (d.dispatch (to_cleanup job)) _ (kept.dispatch _)
          (if-keeps P (same_status run'.status cancel_requested) (advance_cancellation d run' job)
            (advance d run' job) (advance_cancellation-keeps run' job)
            (advance_within-keeps (throw loop_limit) (λ v q. q) 12 run' job)))
        w p

  -- What every operation that the consumer is given keeps, handling a job keeps, whatever the payload
  -- and however the job ends.
  pub handle-keeps : (payload : Value) → EffectKeeps P (handle d payload)
  unfolding handle handle_job
  handle-keeps payload = go (parse_workflow_job payload)
    where
      go : (job : Option WorkflowJob) → EffectKeeps P (handle_job d job)
      go none w p = p
      go (some job) w p =
          bind-keeps P (d.get_run job.run_id) (handle_found d job) (kept.get_run _)
            (handle_found-keeps job) w p
