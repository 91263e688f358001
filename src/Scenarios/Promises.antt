-- ===== src/Scenarios/Promises.antt =====
-- The two step guards and the platform's steps in concrete states.
use code_host.Prelude.{◌+◌, [], ◌∷◌, none, ◌≡◌, arith}
use code_host.Prelude.Result.{ok}
use code_host.RunStatus.{executing}
use code_host.Workflow.{step_passed, test, StepStatus, job_payload}
use code_host.Database.Tables.{World}
use code_host.Database.Counting.{IsWithinCapacity}
use code_host.Gitea.{Server, refuse}
use code_host.Guard.{run_once}
use code_host.Guard.Leases.{HasUniqueSteps}
use code_host.Guard.Spec.{spec_run_once}
use code_host.Guard.Memory.{memory_run_once, memory_view}
use code_host.Guard.Refinement.{seen, memory_run_once-refines}
use code_host.Guard.Promises.{step_view, observed, run_once-refines}
use code_host.Consumer.Advance.{handle}
use code_host.Consumer.Database.{database_dependencies}
use code_host.Platform.{Surroundings, here, after, handling, passage}
use code_host.Platform.Capacity.{reachable-IsWithinCapacity}
use code_host.Scenarios.Data.{
  world_with, step_row, demo_key, demo_token, demo_environment, demo_job,
}
use code_host.Scenarios.Workers.{in_status, demo_keeps, demo_within}
use code_host.Scenarios.Webhooks.{demo_setting}

-- The step waits, with a row of an earlier try.
abbrev waiting_step : World
waiting_step = world_with [] (step_row test StepStatus.pending none none ∷ [])

waiting_unique : HasUniqueSteps waiting_step.run_steps
waiting_unique key = ground arith

run_once-refines_example :
    observed
      (demo_key test)
      (run_once demo_token [] (demo_key test) (λ v. (ok (step_passed none), v)) waiting_step)
    ≡ spec_run_once test (ok (step_passed none)) (step_view (demo_key test) waiting_step)
run_once-refines_example =
    run_once-refines demo_token (demo_key test) (ok (step_passed none)) waiting_step waiting_unique

memory_run_once-refines_example :
    seen
      (demo_key test)
      (memory_run_once (demo_key test) (λ records. (ok (step_passed none), records)) [])
    ≡ spec_run_once test (ok (step_passed none)) (memory_view (demo_key test) [])
memory_run_once-refines_example = memory_run_once-refines (demo_key test) (ok (step_passed none)) []

abbrev no_gitea : Server (Unit {0})
no_gitea = record {
  comment_page = λ owner repository n at. refuse "away";
  post_comment = λ owner repository n body. refuse "away";
  patch_comment = λ id body. refuse "away";
  status_page = λ owner repository sha at. refuse "away";
  post_status = λ r. refuse "away";
}

abbrev demo_surroundings : Surroundings
demo_surroundings = record {
  environment = demo_environment;
  setting = demo_setting;
  message = λ fault. "refused";
  Gitea = Unit {0};
  server = no_gitea;
}

abbrev start : World
start = in_status executing []

abbrev an_hour_later : World
an_hour_later = record start { now = start.now + 3600000 }

-- A job is handled after an hour.
reachable-IsWithinCapacity_example :
    IsWithinCapacity
      (handle
        (database_dependencies demo_environment)
        (job_payload (demo_job test))
        an_hour_later).1.runs
reachable-IsWithinCapacity_example =
    reachable-IsWithinCapacity demo_surroundings demo_keeps {start = start}
      (after (after here (passage 3600000)) (handling (job_payload (demo_job test)))) demo_within
