-- ===== src/Consumer/Syncs.antt =====
-- The commit statuses and the comment that apps/worker/src/workflow/consumer.ts asks for.
use code_host.Prelude.{String, List, ◌∷◌, map, Option, none, some, if◌then◌else◌}
use code_host.Prelude.Text.{◌++◌ as append, decimal, quote, join_lines}
use code_host.RunStatus.{passed, same_status, status_text}
use code_host.Workflow.{
  StepKey, analyze, test, build, health, step_text, StepStatus, same_step_status, step_status_text,
  RunSnapshot, StepRecord, WorkflowJob,
}
use code_host.Workflow.Plan.{record_of}
use code_host.Database.Effects.{Effect, pure, ◌>>=◌, ◌>>◌}
use code_host.Consumer.Interface.{Dependencies, identity_of_run}

-- What a caller of `enqueueGiteaSync` gives.
pub record SyncRequest : Type 0 where
  pub artifact_type : String
  pub context : String
  pub desired_state : String
  pub desired_description : String
  pub desired_body : String

infixr 65 ◌⧺◌
abbrev ◌⧺◌ : String → String → String
s ⧺ t = append s t

-- The text that is hashed: `JSON.stringify` of the object with these keys. No caller gives a
-- target URL, so it is `null`.
unfoldable pub sync_digest_text : SyncRequest → String
sync_digest_text input =
    "{\"context\":"
    ⧺ quote input.context
    ⧺ ",\"state\":"
    ⧺ quote input.desired_state
    ⧺ ",\"description\":"
    ⧺ quote input.desired_description
    ⧺ ",\"targetUrl\":null,\"body\":"
    ⧺ quote input.desired_body
    ⧺ "}"

-- The check that a step's result is shown as.
unfoldable pub status_context : StepKey → Option String
status_context build = some "platform/build"
status_context test = some "platform/test"
status_context analyze = some "platform/security"
status_context health = some "platform/preview"
status_context _ = none

-- `[run ${run.id} a${run.attempt}]`
abbrev run_tag : RunSnapshot → String
run_tag run = "[run " ⧺ run.id ⧺ " a" ⧺ decimal run.attempt ⧺ "]"

pub step_status_request : RunSnapshot → String → StepRecord → SyncRequest
step_status_request run context record' =
    let ended_well = same_step_status record'.status StepStatus.passed in
    record {
      artifact_type = "status";
      context = context;
      desired_state = if ended_well then "success" else "failure";
      desired_description =
          context ⧺ " " ⧺ (if ended_well then "通过" else "未通过") ⧺ " " ⧺ run_tag run;
      desired_body = "";
    }

pub quality_status_request : RunSnapshot → SyncRequest
quality_status_request run =
    let ended_well = same_status run.status passed in
    record {
      artifact_type = "status";
      context = "platform/quality-review";
      desired_state = if ended_well then "success" else "failure";
      desired_description = (if ended_well then "质量审查通过" else "质量审查未通过") ⧺ " " ⧺ run_tag run;
      desired_body = "";
    }

-- The first line of the comment, by which it is found again.
unfoldable pub comment_marker : RunSnapshot → String
comment_marker run =
    "<!-- platform-run:"
    ⧺ run.id
    ⧺ ":attempt:"
    ⧺ decimal run.attempt
    ⧺ ":head:"
    ⧺ run.head_sha
    ⧺ ":quality -->"

comment_line : StepRecord → String
comment_line record' = "- " ⧺ step_text record'.step_key ⧺ ": " ⧺ step_status_text record'.status

pub quality_comment_request : RunSnapshot → List StepRecord → SyncRequest
unfolding comment_marker comment_line
quality_comment_request run records = record {
  artifact_type = "comment";
  context = "platform/quality-comment";
  desired_state = if same_status run.status passed then "success" else "failure";
  desired_description = "";
  desired_body = join_lines (
      comment_marker run
      ∷ "## 平台质量审查"
      ∷ ("- 运行结果：" ⧺ status_text run.status)
      ∷ map comment_line records);
}

module _ (d : Dependencies) where
  -- Nothing is asked for a run whose repository or pull request is not known.
  unfoldable pub enqueue_gitea_sync : RunSnapshot → SyncRequest → Effect (Unit {0})
  enqueue_gitea_sync run input = elim run.repository_full_name [
    | none ↦ pure tt
    | some full_name ↦ elim run.pull_request_number [
      | none ↦ pure tt
      | some number ↦ d.enqueue_gitea_sync (record {
        identity = identity_of_run run;
        repository_full_name = full_name;
        pull_request_number = number;
        artifact_type = input.artifact_type;
        context = input.context;
        desired_hash = d.sha256 (sync_digest_text input);
        desired_state = input.desired_state;
        desired_description = input.desired_description;
        desired_target_url = none;
        desired_body = input.desired_body;
      })
    ]
  ]

  unfoldable pub request_step_status : RunSnapshot → String → Option StepRecord → Effect (Unit {0})
  unfolding enqueue_gitea_sync
  request_step_status run context none = pure tt
  request_step_status run context (some record') =
      enqueue_gitea_sync run (step_status_request run context record')

  unfoldable pub enqueue_gitea_status : RunSnapshot → StepKey → Effect (Unit {0})
  unfolding request_step_status
  enqueue_gitea_status run step_key = elim (status_context step_key) [
    | none ↦ pure tt
    | some context ↦ d.list run.id run.attempt >>= λ records.
        request_step_status run context (record_of records step_key)
  ]

  unfoldable pub request_quality : Option RunSnapshot → Effect (Unit {0})
  unfolding enqueue_gitea_sync
  request_quality none = pure tt
  request_quality (some run) = do
    records ← d.list run.id run.attempt
    enqueue_gitea_sync run (quality_status_request run)
    enqueue_gitea_sync run (quality_comment_request run records)

  unfoldable pub enqueue_quality_sync : WorkflowJob → Effect (Unit {0})
  unfolding request_quality
  enqueue_quality_sync job = d.get_run job.run_id >>= request_quality
