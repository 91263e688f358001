-- ===== src/Consumer/Redelivered.antt =====
-- apps/worker/src/workflow/consumer.ts over the database: a report job that comes again after its step was
-- recorded.
use code_host.Prelude.{
  true, false, List, [], ◌∷◌, ◌++◌, some, All, str_eq, ◌==◌, ◌&&◌, ◌≡◌, ◌∙◌, refl, ap, sym, arith,
  eq_iff, find?-holds,
}
use mathlib.Core.Option
use code_host.Prelude.Result.{ok}
use code_host.Json.{Value}
use code_host.RunStatus.{reporting}
use code_host.Workflow.{
  report, cleanup, workflow_steps, RunSnapshot, StepRecord, WorkflowJob, parse_workflow_job,
}
use code_host.Workflow.Plan.{record_of, is_ended, is_settled}
use code_host.Workflow.Plan.Order.{before, next_step_action-cleanup}
use code_host.Database.Tables.{World}
use code_host.Store.{has_id, get_run}
use code_host.Store.Snapshots.{join_run-snapshot, get_run-row}
use code_host.Guard.Rows.{records_of, list}
use code_host.Queue.{dispatch}
use code_host.Consumer.Advance.{advance, handle_found, handle_job, handle}
use code_host.Consumer.Database.{Environment, database_dependencies}
use code_host.Consumer.Discards.{is_stale, advance-ended_report}
use code_host.Consumer.Verdicts.{run_status_in}

settled-ended :
    (records : List StepRecord)
    → is_settled records report ≡ true
    → is_ended (record_of records report) ≡ true
unfolding is_settled
settled-ended records h = ground arith

-- A run in REPORTING whose steps before the cleanup have all ended, the report among them, while the cleanup
-- has not: the worker stopped, or threw, after the report was recorded and before the verdict was written.
pub record IsLeftReporting (job : WorkflowJob) (run' : RunSnapshot) (w : World) : Type 0 where
  pub of_report : job.step_key ≡ report
  pub read : get_run job.run_id w ≡ (ok (some run'), w)
  pub reports : run'.status ≡ reporting
  pub current : (run'.attempt == job.attempt && str_eq run'.head_sha job.head_sha) ≡ true
  pub ended :
      All
        (λ k. is_settled (records_of job.run_id job.attempt w) k ≡ true)
        (before cleanup workflow_steps)
  pub cleanup_open : is_settled (records_of job.run_id job.attempt w) cleanup ≡ false

module _ (e : Environment) (job : WorkflowJob) (run' : RunSnapshot) (w : World)
    (left : IsLeftReporting job run' w) where
  abbrev pub cleanup_job : WorkflowJob
  cleanup_job = record {
    run_id = job.run_id;
    attempt = job.attempt;
    head_sha = job.head_sha;
    step_key = cleanup;
  }

  dispatch-accepted :
      e.accepts cleanup_job w ≡ true
      → dispatch e.accepts cleanup_job w ≡ (ok tt, record w { queue = w.queue ++ cleanup_job ∷ [] })
  unfolding dispatch
  dispatch-accepted accepted = rw accepted refl

  lists-left : list job.run_id job.attempt w ≡ (ok (records_of job.run_id job.attempt w), w)
  unfolding list
  lists-left = refl

  run-id : run'.id ≡ job.run_id
  run-id =
      let (row, found, joined) = get_run-row job.run_id w run' left.read in
      (join_run-snapshot w row run' joined).id
      ∙ (eq_iff row.id job.run_id).0 (find?-holds (has_id job.run_id) w.runs found)

  advance-left : advance (database_dependencies e) run' job w ≡ dispatch e.accepts cleanup_job w
  advance-left =
      let records = records_of job.run_id job.attempt w in
      advance-ended_report (database_dependencies e) run' job w records cleanup lists-left
        (next_step_action-cleanup records left.ended left.cleanup_open) refl left.of_report
        (settled-ended records left.ended.1.1.1.1.1.1.1.1.1.0)
      ∙ ap (λ id. dispatch e.accepts (record cleanup_job { run_id = id }) w) run-id

  handle-left :
      (payload : Value)
      → parse_workflow_job payload ≡ some job
      → handle (database_dependencies e) payload w ≡ advance (database_dependencies e) run' job w
  unfolding handle handle_job handle_found
  handle-left payload parsed =
      let fresh : is_stale job run' ≡ false = ground (arith, left.current) in
      rw (parsed, handle_job) (rw left.read (rw (fresh, left.reports) refl))

  still-reporting : run_status_in job.run_id w ≡ some reporting
  still-reporting =
      let (row, found, joined) = get_run-row job.run_id w run' left.read in
      ap (Option.map (λ r. r.status)) found
      ∙ ap some (sym (join_run-snapshot w row run' joined).status ∙ left.reports)

  -- When the report's job of such a run comes again, the handler answers without an error and does nothing but
  -- send the cleanup's job: no verdict is derived, and the run stays in REPORTING.
  pub redelivered_report :
      (payload : Value)
      → parse_workflow_job payload ≡ some job
      → e.accepts cleanup_job w ≡ true
      → (handle (database_dependencies e) payload w
          ≡ (ok tt, record w { queue = w.queue ++ cleanup_job ∷ [] }))
        × (run_status_in job.run_id (handle (database_dependencies e) payload w).1 ≡ some reporting)
  redelivered_report payload parsed accepted =
      let done = handle-left payload parsed ∙ advance-left ∙ dispatch-accepted accepted in
      (done, ap (λ r. run_status_in job.run_id r.1) done ∙ still-reporting)
