-- ===== src/Scenarios/Plans.antt =====
-- The planner of apps/worker/src/workflow/plan.ts on concrete records.
use code_host.Prelude.{true, List, [], ◌∷◌, none, some, ◌≡◌, ◌≢◌, ◌⊎◌, inl, refl, if◌then◌else◌}
use code_host.Workflow.{
  detect, fetch, analyze, test, build, preview, health, assemble_review_input, agent_review, report,
  cleanup, workflow_steps, application, infrastructure, StepStatus, StepRecord,
}
use code_host.Workflow.Plan.{
  next_from, gate_failure, run, skip, next_step_action, should_skip, is_settled, record_of,
  is_failed_or_incomplete, has_failure, has_hard_failure_before_assemble,
}
use code_host.Workflow.Plan.Order.{IsFirstOpen, next_step_action-first}
use code_host.Workflow.Plan.Skips.{gate_blocks}
use code_host.Scenarios.Data.{record_for}

-- The tests failed for the application.
abbrev tests_failed : List StepRecord
tests_failed =
    record_for detect StepStatus.passed none
    ∷ record_for fetch StepStatus.passed none
    ∷ record_for analyze StepStatus.passed none
    ∷ record_for test StepStatus.failed (some application)
    ∷ []

skips_build : next_step_action tests_failed ≡ some (skip build)
unfolding next_step_action next_from should_skip is_settled gate_failure has_failure
    has_hard_failure_before_assemble
skips_build = refl

tests_failed_for_application : has_failure tests_failed test (some application) ≡ true
unfolding has_failure
tests_failed_for_application = refl

next_step_action-first_example :
    ((is_failed_or_incomplete (record_of tests_failed cleanup) ≡ true) × (skip build ≡ run cleanup))
    ⊎ (IsFirstOpen tests_failed workflow_steps build
        × (skip build ≡ (if should_skip build tests_failed then skip build else run build)))
next_step_action-first_example = next_step_action-first tests_failed (skip build) skips_build

gate_blocks_example : next_step_action tests_failed ≢ some (run build)
gate_blocks_example = gate_blocks tests_failed test build (inl refl) tests_failed_for_application

-- The fetch could not be done.
abbrev fetch_incomplete : List StepRecord
fetch_incomplete =
    record_for detect StepStatus.passed none
    ∷ record_for fetch StepStatus.incomplete (some infrastructure)
    ∷ record_for analyze StepStatus.skipped none
    ∷ record_for test StepStatus.skipped none
    ∷ record_for build StepStatus.skipped none
    ∷ record_for preview StepStatus.skipped none
    ∷ record_for health StepStatus.skipped none
    ∷ []

fetch_is_hard : has_hard_failure_before_assemble fetch_incomplete ≡ true
unfolding has_hard_failure_before_assemble
fetch_is_hard = refl

then_assembles : next_step_action fetch_incomplete ≡ some (run assemble_review_input)
unfolding next_step_action next_from should_skip is_settled gate_failure has_failure
    has_hard_failure_before_assemble
then_assembles = refl

-- Nor could the review's input be assembled.
abbrev assembly_failed : List StepRecord
assembly_failed =
    record_for assemble_review_input StepStatus.failed (some infrastructure) ∷ fetch_incomplete

then_skips_review : next_step_action assembly_failed ≡ some (skip agent_review)
unfolding next_step_action next_from should_skip is_settled gate_failure has_failure
    has_hard_failure_before_assemble
then_skips_review = refl

abbrev with_report : List StepRecord
with_report = record_for report StepStatus.passed none ∷ tests_failed
