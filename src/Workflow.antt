-- ===== src/Workflow.antt =====
-- apps/worker/src/workflow/types.ts: the steps of a run, their records, and the jobs of the queue.
pub mod Jobs
pub mod Plan
pub mod StateMachine
use code_host.Prelude.{
  ℕ, String, Bool, true, false, List, [], ◌∷◌, Option, none, some, ◌==◌, leb, find?, str_eq,
  if◌then◌else◌, ◌&&◌, ◌||◌, not,
}
use code_host.Json.{Value, text, natural, object, Fields, end, field, get}
use code_host.RunStatus.{RunStatus, CleanupStatus}

pub data StepKey : Type 0 where
  detect fetch analyze test build preview health : StepKey
  assemble_review_input agent_review report cleanup : StepKey

abbrev pub workflow_steps : List StepKey
workflow_steps =
    detect ∷ fetch ∷ analyze ∷ test ∷ build ∷ preview ∷ health ∷ assemble_review_input
    ∷ agent_review ∷ report ∷ cleanup ∷ []

-- `WORKFLOW_STEPS.indexOf(key)`
abbrev pub step_index : StepKey → ℕ
step_index detect = 0
step_index fetch = 1
step_index analyze = 2
step_index test = 3
step_index build = 4
step_index preview = 5
step_index health = 6
step_index assemble_review_input = 7
step_index agent_review = 8
step_index report = 9
step_index cleanup = 10

abbrev pub same_step : StepKey → StepKey → Bool
same_step a b = step_index a == step_index b

abbrev pub step_text : StepKey → String
step_text detect = "detect"
step_text fetch = "fetch"
step_text analyze = "analyze"
step_text test = "test"
step_text build = "build"
step_text preview = "preview"
step_text health = "health"
step_text assemble_review_input = "assemble-review-input"
step_text agent_review = "agent-review"
step_text report = "report"
step_text cleanup = "cleanup"

pub data StepStatus : Type 0 where
  pending running passed failed skipped incomplete cancelled : StepStatus

abbrev pub step_status_index : StepStatus → ℕ
step_status_index pending = 0
step_status_index running = 1
step_status_index passed = 2
step_status_index failed = 3
step_status_index skipped = 4
step_status_index incomplete = 5
step_status_index StepStatus.cancelled = 6

abbrev pub same_step_status : StepStatus → StepStatus → Bool
same_step_status a b = step_status_index a == step_status_index b

abbrev pub step_status_text : StepStatus → String
step_status_text pending = "PENDING"
step_status_text running = "RUNNING"
step_status_text passed = "PASSED"
step_status_text failed = "FAILED"
step_status_text skipped = "SKIPPED"
step_status_text incomplete = "INCOMPLETE"
step_status_text StepStatus.cancelled = "CANCELLED"

pub data FailureKind : Type 0 where
  application infrastructure model evidence cancelled : FailureKind

abbrev pub kind_index : FailureKind → ℕ
kind_index application = 0
kind_index infrastructure = 1
kind_index model = 2
kind_index evidence = 3
kind_index FailureKind.cancelled = 4

abbrev pub same_kind : FailureKind → FailureKind → Bool
same_kind a b = kind_index a == kind_index b

-- `kind === 'application'`, false on `undefined`
abbrev pub is_application : Option FailureKind → Bool
is_application none = false
is_application (some k) = same_kind k application

pub record RunSnapshot : Type 0 where
  pub id : String
  pub attempt : ℕ
  pub head_sha : String
  pub status : RunStatus
  pub cleanup_status : CleanupStatus
  pub execution_plan : Fields
  pub repository_full_name : Option String
  pub pull_request_number : Option ℕ

pub record StepRecord : Type 0 where
  pub step_key : StepKey
  pub status : StepStatus
  pub failure_kind : Option FailureKind
  pub error_code : Option String

pub record WorkflowJob : Type 0 where
  pub run_id : String
  pub attempt : ℕ
  pub head_sha : String
  pub step_key : StepKey

pub data StepResult : Type 0 where
  step_passed : Option Fields → StepResult
  step_failed step_incomplete : FailureKind → String → Option Fields → StepResult

-- `isStepKey(value)`, with the key
unfoldable pub parse_step_key : Value → Option StepKey
parse_step_key (text s) = find? (λ k. str_eq (step_text k) s) workflow_steps
parse_step_key _ = none

-- A property that is a string of positive length.
abbrev pub nonempty_text : Option Value → Option String
nonempty_text (some (text s)) = if str_eq s "" then none else some s
nonempty_text _ = none

-- A property that is an integer of at least 1.
abbrev pub positive : Option Value → Option ℕ
positive (some (natural n)) = if leb 1 n then some n else none
positive _ = none

abbrev pub step_key_of : Option Value → Option StepKey
step_key_of none = none
step_key_of (some v) = parse_step_key v

infixl 5 ◌>>=◌
abbrev ◌>>=◌ {ℓ κ} : {A : Type ℓ} {B : Type κ} → Option A → (A → Option B) → Option B
none >>= k = none
some a >>= k = k a

unfoldable pub parse_job_fields : Fields → Option WorkflowJob
parse_job_fields candidate = do
  run_id ← nonempty_text (get "runId" candidate)
  attempt ← positive (get "attempt" candidate)
  head_sha ← nonempty_text (get "headSha" candidate)
  step_key ← step_key_of (get "stepKey" candidate)
  some (record { run_id = run_id; attempt = attempt; head_sha = head_sha; step_key = step_key })

-- An array is an object too, but has none of the properties.
unfoldable pub parse_workflow_job : Value → Option WorkflowJob
unfolding parse_job_fields
parse_workflow_job (object candidate) = parse_job_fields candidate
parse_workflow_job _ = none

-- The payload that the outbox and the queue carry for a job.
unfoldable pub job_payload : WorkflowJob → Value
job_payload job = object (
    field "runId" (text job.run_id) (
      field "attempt" (natural job.attempt) (
        field "headSha" (text job.head_sha) (field "stepKey" (text (step_text job.step_key)) end))))
