-- ===== src/Workflow/Jobs.antt =====
-- The payloads that `parseWorkflowJobData` of apps/worker/src/workflow/types.ts takes.
use code_host.Prelude.{Bool, none, some, str_eq, leb, ◌&&◌, not, if◌then◌else◌, ◌≡◌, refl, arith}
use code_host.Json.{Value, get}
use code_host.Workflow.{
  detect, fetch, analyze, test, build, preview, health, assemble_review_input, agent_review, report,
  cleanup, StepKey, step_text, WorkflowJob, parse_step_key, parse_job_fields, parse_workflow_job,
  job_payload,
}

-- The jobs that the queue may carry.
abbrev pub is_sendable : WorkflowJob → Bool
is_sendable job = not (str_eq job.run_id "") && (leb 1 job.attempt && not (str_eq job.head_sha ""))

parse_step_key-text : (k : StepKey) → parse_step_key (Value.text (step_text k)) ≡ some k
unfolding parse_step_key
parse_step_key-text detect = refl
parse_step_key-text fetch = refl
parse_step_key-text analyze = refl
parse_step_key-text test = refl
parse_step_key-text build = refl
parse_step_key-text preview = refl
parse_step_key-text health = refl
parse_step_key-text assemble_review_input = refl
parse_step_key-text agent_review = refl
parse_step_key-text report = refl
parse_step_key-text cleanup = refl

-- The payload of a job is read back as the job if its run and head are not empty and its attempt
-- is positive, and as no job otherwise.
pub parse-payload :
    (job : WorkflowJob)
    → parse_workflow_job (job_payload job) ≡ (if is_sendable job then some job else none)
unfolding parse_workflow_job job_payload get parse_job_fields
parse-payload job = ground (arith, parse_step_key-text job.step_key)
