-- ===== src/Scenarios/Workers.antt =====
-- The consumer of apps/worker/src/workflow/consumer.ts on concrete jobs.
use code_host.Prelude.{true, List, [], ◌∷◌, none, some, map, str_eq, ◌==◌, ◌&&◌, ◌≡◌, refl, arith}
use code_host.Prelude.Result.{ok}
use code_host.Json.{null}
use code_host.RunStatus.{
  RunStatus, executing, reporting, cancel_requested, cancelled, cleaned, holds_execution_lock,
}
use code_host.Workflow.{
  detect, fetch, analyze, test, build, preview, health, assemble_review_input, agent_review, report,
  cleanup, StepStatus, RunSnapshot, parse_workflow_job, job_payload,
}
use code_host.Workflow.Plan.{
  run, is_settled, should_skip, gate_failure, has_failure, has_hard_failure_before_assemble,
  next_from, next_step_action,
}
use code_host.Workflow.StateMachine.{derive_final_run_status}
use code_host.Workflow.Jobs.{parse-payload}
use code_host.Database.Tables.{StepRow, World}
use code_host.Database.Effects.{loop_limit, throw}
use code_host.Database.Counting.{HasUniqueIds, IsWithinCapacity}
use code_host.Store.{get_run, as_run_snapshot}
use code_host.Store.Snapshots.{run_ends_in}
use code_host.Guard.Rows.{records_of}
use code_host.Consumer.Finish.{finalize_report, cleanup_done}
use code_host.Consumer.Advance.{handle, advance, advance_within}
use code_host.Consumer.Database.{database_dependencies, worker-advance_terminates}
use code_host.Consumer.Capacity.{KeepsBounds, worker-IsWithinCapacity}
use code_host.Consumer.Redelivered.{IsLeftReporting, redelivered_report}
use code_host.Consumer.Verdicts.{run_status_in, finalize_report-verdict, cleanup_done-cancels}
use code_host.Scenarios.Data.{
  run_row, step_row, world_with, demo_repository, demo_pull_request, demo_job, demo_environment,
}

abbrev pub in_status : RunStatus → List StepRow → World
in_status status steps = world_with (run_row "r1" status ∷ []) steps

abbrev snapshot_in : RunStatus → RunSnapshot
snapshot_in status = as_run_snapshot (run_row "r1" status) demo_repository demo_pull_request

demo_unique :
    (status : RunStatus) (steps : List StepRow) → HasUniqueIds (in_status status steps).runs
demo_unique status steps id = ground arith

pub demo_within : IsWithinCapacity (in_status executing []).runs
unfolding holds_execution_lock
demo_within = record {
  unique = demo_unique executing [];
  active = ground arith;
  waiting = ground arith;
}

pub demo_keeps : KeepsBounds demo_environment
demo_keeps = record { others = tt; execute = λ context w p. p; save_report = λ k input w p. p }

worker-IsWithinCapacity_example :
    IsWithinCapacity
      (handle
        (database_dependencies demo_environment)
        (job_payload (demo_job detect))
        (in_status executing [])).1.runs
worker-IsWithinCapacity_example =
    worker-IsWithinCapacity demo_environment (job_payload (demo_job detect))
      (in_status executing []) demo_keeps demo_within

worker-advance_terminates_example :
    advance
      (database_dependencies demo_environment)
      (snapshot_in executing)
      (demo_job test)
      (in_status executing [])
    ≡ advance_within
        (database_dependencies demo_environment)
        (throw loop_limit)
        100
        (snapshot_in executing)
        (demo_job test)
        (in_status executing [])
worker-advance_terminates_example =
    worker-advance_terminates demo_environment (snapshot_in executing) (demo_job test)
      (throw loop_limit) 100 (in_status executing []) (omega arith)

null_is_no_job : parse_workflow_job null ≡ none
unfolding parse_workflow_job
null_is_no_job = refl

parses_demo : parse_workflow_job (job_payload (demo_job test)) ≡ some (demo_job test)
parses_demo = parse-payload (demo_job test)

reads_demo :
    (status : RunStatus) (steps : List StepRow)
    → get_run "r1" (in_status status steps)
      ≡ (ok (some (snapshot_in status)), in_status status steps)
unfolding get_run
reads_demo status steps = refl

keeps_status : (status : RunStatus) → (snapshot_in status).status ≡ status
unfolding as_run_snapshot
keeps_status status = refl

starts_with_detect : next_step_action [] ≡ some (run detect)
unfolding next_step_action next_from should_skip is_settled gate_failure has_failure
    has_hard_failure_before_assemble
starts_with_detect = refl

-- Every step up to the report has passed.
abbrev reported_steps : List StepRow
reported_steps =
    map (λ key. step_row key StepStatus.passed none none)
      (detect ∷ fetch ∷ analyze ∷ test ∷ build ∷ preview ∷ health ∷ assemble_review_input
        ∷ agent_review ∷ report ∷ [])

abbrev reported : World
reported = in_status reporting reported_steps

then_cleans_up : next_step_action (records_of "r1" 1 reported) ≡ some (run cleanup)
unfolding next_step_action next_from should_skip is_settled gate_failure has_failure
    has_hard_failure_before_assemble
then_cleans_up = refl

current_demo :
    (status : RunStatus)
    → ((snapshot_in status).attempt == 1 && str_eq (snapshot_in status).head_sha "abc") ≡ true
unfolding as_run_snapshot
current_demo status = refl

finalize_report-verdict_example :
    ((finalize_report (database_dependencies demo_environment) (demo_job report) reported).0
      ≡ ok tt)
    × (run_status_in "r1"
          (finalize_report (database_dependencies demo_environment) (demo_job report) reported).1
        ≡ some (derive_final_run_status (records_of "r1" 1 reported)))
finalize_report-verdict_example =
    finalize_report-verdict demo_environment (demo_job report) reported (snapshot_in reporting)
      (demo_unique reporting reported_steps) (reads_demo reporting reported_steps)
      (keeps_status reporting) (current_demo reporting)

cleanup_done-cancels_example :
    ((cleanup_done
        (database_dependencies demo_environment)
        (snapshot_in cancel_requested)
        (demo_job cleanup)
        (in_status cancel_requested [])).0
      ≡ ok tt)
    × (run_ends_in "r1"
          (cleanup_done
            (database_dependencies demo_environment)
            (snapshot_in cancel_requested)
            (demo_job cleanup)
            (in_status cancel_requested [])).1
        ≡ some (cancelled, cleaned))
cleanup_done-cancels_example =
    cleanup_done-cancels demo_environment (demo_job cleanup) (in_status cancel_requested [])
      (snapshot_in cancel_requested) (demo_unique cancel_requested [])
      (reads_demo cancel_requested []) (keeps_status cancel_requested)
      (current_demo cancel_requested)

parses_report : parse_workflow_job (job_payload (demo_job report)) ≡ some (demo_job report)
parses_report = parse-payload (demo_job report)

left_reporting : IsLeftReporting (demo_job report) (snapshot_in reporting) reported
unfolding is_settled
left_reporting = record {
  of_report = refl;
  read = reads_demo reporting reported_steps;
  reports = keeps_status reporting;
  current = current_demo reporting;
  ended = (refl, (refl, (refl, (refl, (refl, (refl, (refl, (refl, (refl, (refl, tt))))))))));
  cleanup_open = refl;
}

redelivered_report_example :
    (handle (database_dependencies demo_environment) (job_payload (demo_job report)) reported
      ≡ (ok tt, record reported { queue = demo_job cleanup ∷ [] }))
    × (run_status_in "r1"
          (handle
            (database_dependencies demo_environment)
            (job_payload (demo_job report))
            reported).1
        ≡ some reporting)
redelivered_report_example =
    redelivered_report demo_environment (demo_job report) (snapshot_in reporting) reported
      left_reporting (job_payload (demo_job report)) parses_report refl
