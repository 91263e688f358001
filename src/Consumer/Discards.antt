-- ===== src/Consumer/Discards.antt =====
-- Which jobs apps/worker/src/workflow/consumer.ts leaves alone, and where it sends the others.
use code_host.Prelude.{
  Bool, true, false, List, none, some, str_eq, ◌==◌, ◌||◌, not, if◌then◌else◌, ◌≡◌, ◌∙◌, refl,
  arith,
}
use code_host.Prelude.Result.{ok, err}
use code_host.Json.{Value}
use code_host.RunStatus.{cancel_requested}
use code_host.Workflow.{
  StepKey, report, cleanup, same_step, RunSnapshot, StepRecord, WorkflowJob, parse_workflow_job,
}
use code_host.Workflow.Plan.{run, record_of, is_ended, next_step_action}
use code_host.Database.Tables.{World}
use code_host.Database.Effects.{step_out_of_order}
use code_host.Consumer.Interface.{Dependencies}
use code_host.Consumer.Finish.{dispatch_next, dispatch_action}
use code_host.Consumer.Advance.{
  to_cleanup, handle_found, handle_job, handle, advance, advance_within, round, run_requested,
}

-- A job that is not for the run as it stands.
abbrev pub is_stale : WorkflowJob → RunSnapshot → Bool
is_stale job run' = not (run'.attempt == job.attempt) || not (str_eq run'.head_sha job.head_sha)

-- What is left alone: a payload that is no job, a job of a run that is gone, and a job of an earlier
-- attempt or head of its run.
pub data IsDiscarded (d : Dependencies) (payload : Value) (w : World) : Type 0 where
  malformed : parse_workflow_job payload ≡ none → IsDiscarded d payload w
  gone :
      (job : WorkflowJob)
      → parse_workflow_job payload ≡ some job
      → d.get_run job.run_id w ≡ (ok none, w)
      → IsDiscarded d payload w
  stale :
      (job : WorkflowJob) (run' : RunSnapshot)
      → parse_workflow_job payload ≡ some job
      → d.get_run job.run_id w ≡ (ok (some run'), w)
      → is_stale job run' ≡ true
      → IsDiscarded d payload w

-- A payload that is no job, a job of a run that is not there, and a job of another attempt or head
-- than its run's are dropped: the handler returns and changes nothing.
pub handle-discards :
    (d : Dependencies) (payload : Value) (w : World)
    → IsDiscarded d payload w
    → handle d payload w ≡ (ok tt, w)
unfolding handle handle_job handle_found
handle-discards d payload w (malformed no_job) = rw (no_job, handle_job) refl
handle-discards d payload w (gone job parsed no_run) = rw (parsed, handle_job) (rw no_run refl)
handle-discards d payload w (stale job run' parsed found old) =
    rw (parsed, handle_job) (rw found (rw old refl))

-- A job for the current attempt and head of a run in CANCEL_REQUESTED, for another step than the
-- cleanup, does nothing but send the cleanup's job.
pub handle-cancels :
    (d : Dependencies) (payload : Value) (w : World) (job : WorkflowJob) (run' : RunSnapshot)
    → parse_workflow_job payload ≡ some job
    → d.get_run job.run_id w ≡ (ok (some run'), w)
    → is_stale job run' ≡ false
    → run'.status ≡ cancel_requested
    → same_step job.step_key cleanup ≡ false
    → handle d payload w ≡ d.dispatch (to_cleanup job) w
unfolding handle handle_job handle_found
handle-cancels d payload w job run' parsed found fresh cancelling other =
    rw (parsed, handle_job) (rw found (rw fresh (rw cancelling (rw other refl))))

-- A job for another step than the one that the planner would run next sends the next job if its
-- own step has ended, and throws otherwise without a change; it executes nothing.
pub advance-out_of_order :
    (d : Dependencies) (run' : RunSnapshot) (job : WorkflowJob) (w : World)
    (records : List StepRecord) (next : StepKey)
    → d.list job.run_id job.attempt w ≡ (ok records, w)
    → next_step_action records ≡ some (run next)
    → same_step next job.step_key ≡ false
    → advance d run' job w ≡ (
        if is_ended (record_of records job.step_key)
        then dispatch_next d run' job w
        else (err (step_out_of_order job.step_key next), w))
unfolding advance advance_within round run_requested
advance-out_of_order d run' job w records next listed planned other =
    rw listed (rw planned (rw other (ground arith)))

-- A report job whose step has ended already, while another step is the next to run, sends the job
-- of that step and does nothing else.
pub advance-ended_report :
    (d : Dependencies) (run' : RunSnapshot) (job : WorkflowJob) (w : World)
    (records : List StepRecord) (next : StepKey)
    → d.list job.run_id job.attempt w ≡ (ok records, w)
    → next_step_action records ≡ some (run next)
    → same_step next report ≡ false
    → job.step_key ≡ report
    → is_ended (record_of records report) ≡ true
    → advance d run' job w
      ≡ d.dispatch
          (record {
            run_id = run'.id;
            attempt = job.attempt;
            head_sha = job.head_sha;
            step_key = next;
          })
          w
unfolding dispatch_next dispatch_action
advance-ended_report d run' job w records next listed planned other reported ended =
    advance-out_of_order d run' job w records next listed planned (rw reported other)
    ∙ rw reported (rw ended (rw (listed) (rw planned refl)))
