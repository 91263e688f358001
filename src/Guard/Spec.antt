-- ===== src/Guard/Spec.antt =====
-- What a StepGuard of apps/worker/src/workflow/step-guard.ts promises of one step, whatever it keeps: the step
-- is open, held by a worker, or has ended.
use code_host.Prelude.{if◌then◌else◌}
use code_host.Prelude.Result.{Result, ok, err}
use code_host.Workflow.{StepKey, StepStatus, StepResult}
use code_host.Database.Effects.{Fault}
use code_host.Guard.{
  GuardResult, executed, already_terminal, busy, is_terminal_step_for_retry, result_status,
}

pub data StepView : Type 0 where
  open_step held_step : StepView
  ended_step : StepStatus → StepView

-- A step that no worker holds.
unfoldable pub settled_view : StepKey → StepStatus → StepView
unfolding is_terminal_step_for_retry
settled_view key status =
    if is_terminal_step_for_retry key status then ended_step status else open_step

-- What a run of the step answers and makes of it, if its operation ends as it is told.
unfoldable pub spec_run_once :
    StepKey → Result Fault StepResult → StepView → Result Fault GuardResult × StepView
unfolding settled_view
spec_run_once key r (ended_step status) = (ok (already_terminal status), ended_step status)
spec_run_once key r held_step = (ok busy, held_step)
spec_run_once key (ok r) open_step = (ok (executed r), settled_view key (result_status r))
spec_run_once key (err e) open_step = (err e, open_step)
