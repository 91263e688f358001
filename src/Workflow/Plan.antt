-- ===== src/Workflow/Plan.antt =====
-- apps/worker/src/workflow/plan.ts: which step comes next, and whether it is run or skipped.
pub mod Order
pub mod Skips
use code_host.Prelude.{
  ℕ, String, Bool, true, false, List, [], ◌∷◌, Option, none, some, ltb, ◌&&◌, ◌||◌, not, find?, any,
  if◌then◌else◌,
}
use code_host.Workflow.{
  StepKey, detect, fetch, analyze, test, build, preview, health, assemble_review_input,
  agent_review, report, cleanup, workflow_steps, step_index, same_step, StepStatus,
  same_step_status, FailureKind, application, same_kind, is_application, StepRecord,
}

-- The reason of every skip is 'SKIPPED_UPSTREAM'.
pub data StepAction : Type 0 where
  run skip : StepKey → StepAction

abbrev pub skipped_upstream : String
skipped_upstream = "SKIPPED_UPSTREAM"

abbrev pub application_gate_skip : List (StepKey × List StepKey)
application_gate_skip =
    (detect, fetch ∷ analyze ∷ test ∷ build ∷ preview ∷ health ∷ [])
    ∷ (test, build ∷ preview ∷ health ∷ [])
    ∷ (build, preview ∷ health ∷ [])
    ∷ (preview, health ∷ [])
    ∷ []

-- `failureKind === undefined || record.failureKind === failureKind`
abbrev kind_matches : Option FailureKind → Option FailureKind → Bool
kind_matches none actual = true
kind_matches (some k) none = false
kind_matches (some k) (some a) = same_kind a k

unfoldable pub has_failure : List StepRecord → StepKey → Option FailureKind → Bool
has_failure records step_key failure_kind =
    any
      (λ r.
        same_step r.step_key step_key
        && (same_step_status r.status StepStatus.failed
            && kind_matches failure_kind r.failure_kind))
      records

-- A record that ended INCOMPLETE, or FAILED for another reason than the application.
abbrev pub is_hard_failure : StepRecord → Bool
is_hard_failure r =
    same_step_status r.status StepStatus.incomplete
    || (same_step_status r.status StepStatus.failed && not (is_application r.failure_kind))

unfoldable pub has_hard_failure_before_assemble : List StepRecord → Bool
has_hard_failure_before_assemble records =
    any (λ r. is_hard_failure r && ltb (step_index r.step_key) (step_index assemble_review_input))
      records

-- The gates whose failure skips `step_key`, of those listed.
unfoldable pub gate_failure : List (StepKey × List StepKey) → StepKey → List StepRecord → Bool
unfolding has_failure
gate_failure gates step_key records =
    any (λ g. has_failure records g.0 (some application) && any (same_step step_key) g.1) gates

-- The steps that follow the checks whatever came before.
abbrev pub is_closing : StepKey → Bool
is_closing assemble_review_input = true
is_closing agent_review = true
is_closing report = true
is_closing cleanup = true
is_closing _ = false

unfoldable pub should_skip : StepKey → List StepRecord → Bool
unfolding gate_failure has_failure has_hard_failure_before_assemble
should_skip step_key records =
    if gate_failure application_gate_skip step_key records
    then true
    else if not (is_closing step_key) && has_hard_failure_before_assemble records
    then true
    else same_step step_key agent_review && has_failure records assemble_review_input none

-- `records.find((record) => record.stepKey === key)`
abbrev pub record_of : List StepRecord → StepKey → Option StepRecord
record_of records key = find? (λ r. same_step r.step_key key) records

-- The status is one of the five that end a step.
abbrev pub is_ended : Option StepRecord → Bool
is_ended none = false
is_ended (some r) =
    same_step_status r.status StepStatus.passed
    || (same_step_status r.status StepStatus.failed
        || (same_step_status r.status StepStatus.skipped
            || (same_step_status r.status StepStatus.incomplete
                || same_step_status r.status StepStatus.cancelled)))

-- `record?.status === 'FAILED' || record?.status === 'INCOMPLETE'`
abbrev pub is_failed_or_incomplete : Option StepRecord → Bool
is_failed_or_incomplete none = false
is_failed_or_incomplete (some r) =
    same_step_status r.status StepStatus.failed || same_step_status r.status StepStatus.incomplete

-- The test under which the loop goes on to the next step.
unfoldable pub is_settled : List StepRecord → StepKey → Bool
is_settled records key =
    not (same_step key cleanup && is_failed_or_incomplete (record_of records key))
    && is_ended (record_of records key)

-- The action for the first step of `keys` that is not settled.
unfoldable pub next_from : List StepRecord → List StepKey → Option StepAction
next_from records [] = none
next_from records (key ∷ keys) =
    if is_settled records key
    then next_from records keys
    else if should_skip key records
    then some (skip key)
    else some (run key)

unfoldable pub next_step_action : List StepRecord → Option StepAction
next_step_action records =
    if is_failed_or_incomplete (record_of records cleanup)
    then some (run cleanup)
    else next_from records workflow_steps
