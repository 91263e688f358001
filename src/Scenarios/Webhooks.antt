-- ===== src/Scenarios/Webhooks.antt =====
-- Deliveries of apps/api/src/webhook.service.ts in concrete states.
use code_host.Prelude.{false, ℕ, String, [], ◌∷◌, none, some, find?, ◌≡◌, refl}
use code_host.Json.{object, end}
use code_host.RunStatus.{queued, same_status}
use code_host.Database.Tables.{WebhookEventRow, event_processed, World}
use code_host.Webhook.{opened, at, WebhookEvent}
use code_host.Webhook.Rows.{Delivery, has_delivery}
use code_host.Webhook.Service.{run_for}
use code_host.Webhook.Acceptance.{Setting, accept}
use code_host.Webhook.Deliveries.{accept-redelivery}
use code_host.Webhook.Runs.{
  IsFreshId, made, drawn, decided, ended_as, run_for-creates, run_for-once, run_for-queues,
}
use code_host.Scenarios.Data.{world_with, run_row}

abbrev pub demo_setting : Setting
demo_setting = record {
  webhook_max_age_minutes = 15;
  gitea_allowed_repositories = [];
  random = λ n. "new";
  sha256 = λ s. s;
  to_date = λ v. none;
  iso = λ t. "";
}

abbrev known_event : WebhookEventRow
known_event = record {
  provider_delivery_id = "d1";
  event_type = "opened";
  external_number = 12;
  head_sha = "abcdef0";
  payload_hash = "h";
  repository_id = none;
  status = event_processed;
  processed_at = some 90;
}

abbrev with_event : World
with_event = record (world_with [] []) { webhook_events = known_event ∷ [] }

accept-redelivery_example :
    ((accept demo_setting "body" (object end) (some "d1") with_event).1.runs ≡ with_event.runs)
    × ((accept demo_setting "body" (object end) (some "d1") with_event).1.outbox
        ≡ with_event.outbox)
    × ((accept demo_setting "body" (object end) (some "d1") with_event).1.repositories
        ≡ with_event.repositories)
    × ((accept demo_setting "body" (object end) (some "d1") with_event).1.pull_requests
        ≡ with_event.pull_requests)
    × (find?
          (has_delivery "d1")
          (accept demo_setting "body" (object end) (some "d1") with_event).1.webhook_events
        ≡ some known_event)
accept-redelivery_example =
    accept-redelivery demo_setting "body" (object end) "d1" with_event known_event refl

abbrev demo_event : WebhookEvent
demo_event = record {
  event_type = opened;
  repository_id = 7;
  pull_request_id = 70;
  external_number = 12;
  head_sha = "abcdef0";
  created_at = at 90;
  full_name = "team/app";
}

abbrev delivery_named : String → Delivery
delivery_named id = record {
  delivery_id = id;
  event = demo_event;
  payload_hash = "h";
  owner = "team";
  name = "app";
  default_branch = "main";
  base_sha = "abcdef0";
  source_branch = "feature";
  author = "dev";
  title = "A feature";
}

abbrev new_id : ℕ → String
new_id n = "new"

-- One run waits; it is of another head.
abbrev quiet : World
quiet = world_with (run_row "r1" queued ∷ []) []

quiet_fresh : IsFreshId "new" quiet
quiet_fresh = record { run = refl; job = refl }

run_for-creates_example :
    run_for new_id (delivery_named "d2") "repo" "pr" quiet
    ≡ ended_as new_id (delivery_named "d2") "repo" "pr" quiet false
unfolding code_host.Webhook.Runs.find_run_of code_host.RunStatus.holds_execution_lock
run_for-creates_example =
    run_for-creates new_id (delivery_named "d2") "repo" "pr" quiet refl quiet_fresh

abbrev after_first : World
after_first = (run_for new_id (delivery_named "d2") "repo" "pr" quiet).1
