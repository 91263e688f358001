-- ===== src/Webhook/Service.antt =====
-- WebhookService of apps/api/src/webhook.service.ts: an event on a pull request becomes a run, with its first
-- job in the outbox. `random` draws the ids that the database and `randomUUID` make.
use code_host.Prelude.{
  ℕ, suc, String, Bool, List, [], ◌∷◌, ◌++◌, none, some, find?, any, count, str_eq, leb, ◌==◌, ◌&&◌,
  ◌||◌, if◌then◌else◌,
}
use Prim.Native.Char.{code}
use code_host.Prelude.Text.{◌++◌ as append, clip}
use code_host.Json.{text, array, Items, nil, cons, Fields, end, field}
use code_host.RunStatus.{
  RunStatus, queued, rejected_by_capacity, not_scheduled, includes, same_status,
}
use code_host.Workflow.{StepKey, detect, workflow_steps, step_text}
use code_host.Database.Tables.{RunRow}
use code_host.Database.Effects.{conflict, Effect, pure, throw, modify, ◌>>=◌, ◌>>◌}
use code_host.Database.Capacity.{admit, is_queued}
use code_host.Api.{new_outbox}
use code_host.Api.Retry.{insert_outbox}
use code_host.Webhook.Rows.{
  active_run_statuses, WebhookResult, created, duplicate, Delivery, has_delivery, redelivered,
  insert_event, set_event_repository, mark_processed, upsert_repository, upsert_pull_request,
}

-- `where repositoryId, pullRequestId, headSha`
abbrev pub is_run_of : String → String → String → RunRow → Bool
is_run_of repository_id pull_request_id head_sha r =
    str_eq r.repository_id repository_id
    && (str_eq r.pull_request_id pull_request_id && str_eq r.head_sha head_sha)

-- The status that the service decides on.
unfoldable pub capacity_status : List RunRow → RunStatus
capacity_status runs =
    if leb 1 (count (λ r. includes active_run_statuses r.status) runs)
      || leb 3 (count is_queued runs)
    then rejected_by_capacity
    else queued

-- `replaceAll('-', '')`
pub without_dashes : String → String
without_dashes String.[] = ""
without_dashes (String.◌∷◌ c s) =
    let rest = without_dashes s in if code c == 45 then rest else String.◌∷◌ c rest

step_items : List StepKey → Items
step_items [] = nil
step_items (key ∷ keys) = cons (text (step_text key)) (step_items keys)

pub first_plan : Fields
unfolding step_items
first_plan = field "workflowVersion" (text "0.1.0") (
    field "projectType" (text "pending-detect")
      (field "steps" (array (step_items workflow_steps)) end))

unfoldable pub new_run : String → String → String → String → RunStatus → ℕ → RunRow
unfolding without_dashes first_plan
new_run id repository_id pull_request_id head_sha status now = record {
  id = id;
  repository_id = repository_id;
  pull_request_id = pull_request_id;
  head_sha = head_sha;
  trigger = "gitea-webhook";
  status = status;
  verdict = none;
  created_at = now;
  updated_at = now;
  namespace = some (append "pr-run-" (clip 12 (without_dashes id)));
  preview_host = none;
  execution_plan = first_plan;
  workflow_version = "0.1.0";
  current_attempt = 1;
  started_at = none;
  finished_at = none;
  cleanup_at = none;
  cleanup_status = not_scheduled;
  cleanup_error = none;
  preview_expires_at = none;
  error_code = none;
}

-- The insert of a run; the primary key refuses an id that is taken, and the triggers decide on the status.
unfoldable pub insert_run : RunRow → Effect RunRow
insert_run row w =
    let stored = record row { status = admit w.runs none row.status } in
    if any (λ r. str_eq r.id row.id) w.runs
    then throw (conflict "duplicate key value violates unique constraint") w
    else pure stored (record w { runs = w.runs ++ stored ∷ [] })

-- The first job, which only a run that was decided to be queued gets.
unfoldable pub first_job : RunStatus → RunRow → Effect (Unit {0})
unfolding insert_outbox new_outbox
first_job decided row w =
    if same_status decided queued
    then insert_outbox (new_outbox row 1 detect w.now) w
    else pure tt w

module _ (random : ℕ → String) where
  unfoldable pub create_run : Delivery → String → String → Effect WebhookResult
  unfolding capacity_status new_run insert_run first_job mark_processed
  create_run d repository_id pull_request_id w =
      let decided = capacity_status w.runs in
      let row =
        new_run (random w.draws) repository_id pull_request_id d.event.head_sha decided w.now in
      (insert_run row >>= λ stored.
      first_job decided stored
      >> (modify (mark_processed d.delivery_id) >> pure (created stored.id stored.status)))
        (record w { draws = suc w.draws })

  unfoldable pub run_for : Delivery → String → String → Effect WebhookResult
  unfolding create_run mark_processed
  run_for d repository_id pull_request_id w =
      elim (find? (is_run_of repository_id pull_request_id d.event.head_sha) w.runs) [
        | none ↦ create_run d repository_id pull_request_id w
        | some run ↦ pure (duplicate (some run.id)) (mark_processed d.delivery_id w)
      ]

  -- The transaction on an event whose delivery is new.
  unfoldable pub receive_new : Delivery → Effect WebhookResult
  unfolding insert_event upsert_repository set_event_repository upsert_pull_request run_for
  receive_new d =
      modify (insert_event d)
      >> (upsert_repository random d >>= λ repository_id.
          modify (set_event_repository d.delivery_id repository_id)
          >> (upsert_pull_request random d repository_id >>= run_for d repository_id))

  -- The transaction.
  unfoldable pub receive : Delivery → Effect WebhookResult
  unfolding redelivered receive_new
  receive d w = elim (find? (has_delivery d.delivery_id) w.webhook_events) [
    | some row ↦ redelivered d row w
    | none ↦ receive_new d w
  ]
