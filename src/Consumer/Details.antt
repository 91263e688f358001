-- ===== src/Consumer/Details.antt =====
-- `persistStepDetails` of apps/worker/src/workflow/consumer.ts: what of a step's details is stored.
use code_host.Prelude.{ℕ, String, Bool, false, Option, none, some, str_eq, if◌then◌else◌}
use code_host.Json.{Value, text, object, Fields, end, field, get}
use code_host.RunStatus.{RunStatus, passed, incomplete}
use code_host.Workflow.{
  StepKey, detect, build, preview, agent_review, WorkflowJob, StepResult, step_passed, step_failed,
  step_incomplete,
}
use code_host.Database.Effects.{Effect, pure}
use code_host.Consumer.Interface.{Dependencies, ReportInput, identity_of}

abbrev pub details_of : StepResult → Option Fields
details_of (step_passed details) = details
details_of (step_failed kind code details) = details
details_of (step_incomplete kind code details) = details

-- The verdict of a saved report; none is saved for a FAILED review.
abbrev pub report_verdict : StepResult → Option RunStatus
report_verdict (step_passed details) = some passed
report_verdict (step_failed kind code details) = none
report_verdict (step_incomplete kind code details) = some incomplete

abbrev text_of : Option Value → Option String
text_of (some (text s)) = some s
text_of _ = none

abbrev pub object_of : Option Value → Option Fields
object_of (some (object fields)) = some fields
object_of _ = none

infixl 5 ◌>>=◌
abbrev ◌>>=◌ {ℓ κ} : {A : Type ℓ} {B : Type κ} → Option A → (A → Option B) → Option B
none >>= k = none
some a >>= k = k a

report_input : RunStatus → Fields → Option ReportInput
report_input verdict details = do
  provider ← text_of (get "provider" details)
  model ← text_of (get "model" details)
  input_hash ← text_of (get "inputHash" details)
  report ← object_of (get "report" details)
  summary ← text_of (get "summary" report)
  some (record {
    provider = provider;
    model = model;
    input_hash = input_hash;
    verdict = verdict;
    summary = summary;
    report = report;
  })

-- What of a review is saved.
pub details_report : StepResult → Fields → Option ReportInput
unfolding report_input
details_report result details = report_verdict result >>= λ verdict. report_input verdict details

-- The host and the end of a preview, where both are well formed.
pub preview_input : (String → Option ℕ) → Fields → Option (String × ℕ)
preview_input parse_date details = do
  host ← text_of (get "previewHost" details)
  expires ← text_of (get "previewExpiresAt" details)
  at ← parse_date expires
  some (host, at)

abbrev pub is_fixture : Option Value → Bool
is_fixture (some (text s)) = str_eq s "FIXTURE"
is_fixture _ = false

-- Act on a value that is there.
abbrev pub for_some {ℓ} : {A : Type ℓ} → Option A → (A → Effect (Unit {0})) → Effect (Unit {0})
for_some none f = pure tt
for_some (some a) f = f a

module _ (d : Dependencies) where
  -- The branches are for different steps, so at most one acts.
  unfoldable pub persist_details : WorkflowJob → StepResult → Fields → StepKey → Effect (Unit {0})
  unfolding details_report preview_input
  persist_details job result details detect =
      for_some (object_of (get "executionPlan" details)) (d.set_execution_plan (identity_of job))
  persist_details job result details build =
      if is_fixture (get "buildMode" details)
      then d.set_execution_plan (identity_of job) (field "buildMode" (text "FIXTURE") end)
      else pure tt
  persist_details job result details preview =
      for_some (preview_input d.parse_date details)
        λ input. d.set_preview (identity_of job) input.0 input.1
  persist_details job result details agent_review =
      for_some (details_report result details) (d.save_report (identity_of job))
  persist_details job result details _ = pure tt

  unfoldable pub persist_step_details : WorkflowJob → StepResult → Effect (Unit {0})
  unfolding persist_details
  persist_step_details job result =
      for_some (details_of result) λ details. persist_details job result details job.step_key
