-- ===== src/Scenarios/Deliveries.antt =====
-- The outbox's publisher of apps/worker/src/workflow/outbox.ts on a concrete row.
use code_host.Prelude.{String, Bool, true, [], ◌∷◌, ◌++◌, none, some, ◌≡◌, refl}
use code_host.Prelude.Result.{ok}
use code_host.Json.{Value, null}
use code_host.Workflow.{detect, WorkflowJob, parse_workflow_job, job_payload}
use code_host.Workflow.Jobs.{parse-payload}
use code_host.Database.Tables.{waiting, published, OutboxRow, World}
use code_host.Database.Effects.{Fault}
use code_host.Queue.{dispatch}
use code_host.Outbox.{find_outbox, publish}
use code_host.Outbox.Publication.{publish-delivers, publish-once}
use code_host.Scenarios.Data.{world_with, demo_job}

abbrev outbox_row : Value → OutboxRow
outbox_row payload = record {
  run_id = "r1";
  attempt = 1;
  step_key = detect;
  queue_name = "platform.workflow";
  payload = payload;
  status = waiting;
  available_at = 50;
  published_at = none;
  attempts = 0;
  lease_until = none;
  dedupe_key = "r1:detect:1";
  last_error = none;
}

abbrev with_outbox : Value → World
with_outbox payload = record (world_with [] []) { outbox = outbox_row payload ∷ [] }

abbrev good : World
good = with_outbox (job_payload (demo_job detect))

abbrev good_row : OutboxRow
good_row = outbox_row (job_payload (demo_job detect))

abbrev accepts_all : WorkflowJob → World → Bool
accepts_all job w = true

abbrev any_message : Fault → String
any_message fault = "refused"

parses_detect : parse_workflow_job (job_payload (demo_job detect)) ≡ some (demo_job detect)
parses_detect = parse-payload (demo_job detect)

publish-delivers_example :
    ((publish (dispatch accepts_all) any_message "r1:detect:1" good).0 ≡ ok tt)
    × ((publish (dispatch accepts_all) any_message "r1:detect:1" good).1.queue
        ≡ good.queue ++ demo_job detect ∷ [])
    × (find_outbox "r1:detect:1" (publish (dispatch accepts_all) any_message "r1:detect:1" good).1
        ≡ some (record good_row {
          status = published;
          published_at = some 100;
          attempts = 1;
          lease_until = none;
          last_error = none;
        }))
publish-delivers_example =
    publish-delivers accepts_all any_message "r1:detect:1" good good_row (demo_job detect) refl refl
      parses_detect refl

abbrev after_good : World
after_good = (publish (dispatch accepts_all) any_message "r1:detect:1" good).1

publish-once_example :
    publish (dispatch accepts_all) any_message "r1:detect:1" after_good ≡ (ok tt, after_good)
publish-once_example =
    publish-once accepts_all any_message "r1:detect:1" good after_good good_row (demo_job detect)
      refl refl parses_detect refl refl

null_is_malformed : parse_workflow_job null ≡ none
unfolding parse_workflow_job
null_is_malformed = refl
