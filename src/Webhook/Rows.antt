-- ===== src/Webhook/Rows.antt =====
-- apps/api/src/webhook.service.ts: what an event on a pull request writes of itself, of its repository and
-- of the pull request. `random` draws the ids that the database makes.
use code_host.Prelude.{
  ℕ, suc, String, Bool, true, List, [], ◌∷◌, ◌++◌, Option, none, some, find?, update, str_eq, ◌==◌,
  ◌&&◌, ◌||◌, if◌then◌else◌,
}
use code_host.Json.{Value, text, natural, Fields, end, field}
use code_host.RunStatus.{RunStatus, planning, executing, analyzing, reporting, cancel_requested}
use code_host.Database.Tables.{
  RepositoryRow, PullRequestRow, WebhookEventRow, event_received, event_processed, World,
}
use code_host.Database.Effects.{Effect, pure, modify, ◌>>◌}
use code_host.Gitea.Exchange.{split_at_slash}
use code_host.Webhook.{trim, member, EventType, opened, reopened, synchronize, WebhookEvent}

abbrev pub active_run_statuses : List RunStatus
active_run_statuses = planning ∷ executing ∷ analyzing ∷ reporting ∷ cancel_requested ∷ []

pub data WebhookResult : Type 0 where
  created : String → RunStatus → WebhookResult
  duplicate : Option String → WebhookResult
  replay_rejected : WebhookResult
  ignored : WebhookResult

-- The owner and the name; the name may have further slashes.
unfoldable pub owner_and_name : String → Option (String × String)
unfolding split_at_slash
owner_and_name full_name = elim (split_at_slash full_name) [
  | none ↦ none
  | some parts ↦ if str_eq parts.0 "" || str_eq parts.1 "" then none else some parts
]

unfoldable pub text_field : Option Value → String → String
text_field (some (text s)) fallback = if str_eq (trim s) "" then fallback else s
text_field _ fallback = fallback

abbrev pub field_of : String → Option Value → Option Value
field_of key none = none
field_of key (some v) = member key v

unfoldable pub event_type_text : EventType → String
event_type_text opened = "opened"
event_type_text reopened = "reopened"
event_type_text synchronize = "synchronize"

-- What is read of the event before the transaction.
pub record Delivery : Type 0 where
  pub delivery_id : String
  pub event : WebhookEvent
  pub payload_hash : String
  pub owner : String
  pub name : String
  pub default_branch : String
  pub base_sha : String
  pub source_branch : String
  pub author : String
  pub title : String

abbrev pub has_delivery : String → WebhookEventRow → Bool
has_delivery id row = str_eq row.provider_delivery_id id

unfoldable pub event_audit : String → String → Fields → World → World
event_audit action id details w = record w {
  audit_events =
      w.audit_events
      ++ record {
        gitea_user_id = none;
        action = action;
        entity_type = "webhook_event";
        entity_id = id;
        metadata = details;
      }
        ∷ [];
}

abbrev replay_details : Delivery → WebhookEventRow → Fields
replay_details d row = field "providerDeliveryId" (text d.delivery_id) (
    field "originalPayloadHash" (text row.payload_hash) (
      field "attemptedPayloadHash" (text d.payload_hash) (
        field "originalExternalNumber" (natural row.external_number) (
          field "attemptedExternalNumber" (natural d.event.external_number) (
            field "originalHeadSha" (text row.head_sha)
              (field "attemptedHeadSha" (text d.event.head_sha) end))))))

abbrev pub is_same_event : Delivery → WebhookEventRow → Bool
is_same_event d row =
    str_eq row.payload_hash d.payload_hash
    && (row.external_number == d.event.external_number && str_eq row.head_sha d.event.head_sha)

-- A delivery whose id is known.
unfoldable pub redelivered : Delivery → WebhookEventRow → Effect WebhookResult
unfolding event_audit
redelivered d row =
    if is_same_event d row
    then pure (duplicate none)
    else (modify (event_audit "WEBHOOK_REPLAY_REJECTED" d.delivery_id (replay_details d row))
        >> pure replay_rejected)

new_event : Delivery → WebhookEventRow
unfolding event_type_text
new_event d = record {
  provider_delivery_id = d.delivery_id;
  event_type = event_type_text d.event.event_type;
  external_number = d.event.external_number;
  head_sha = d.event.head_sha;
  payload_hash = d.payload_hash;
  repository_id = none;
  status = event_received;
  processed_at = none;
}

unfoldable pub insert_event : Delivery → World → World
unfolding new_event
insert_event d w = record w { webhook_events = w.webhook_events ++ new_event d ∷ [] }

unfoldable pub set_event_repository : String → String → World → World
set_event_repository id repository_id w = record w {
  webhook_events =
      update (has_delivery id) (λ r. record r { repository_id = some repository_id })
        w.webhook_events;
}

unfoldable pub mark_processed : String → World → World
mark_processed id w = record w {
  webhook_events =
      update (has_delivery id)
        (λ r. record r { status = event_processed; processed_at = some w.now }) w.webhook_events;
}

abbrev pub has_provider_id : ℕ → RepositoryRow → Bool
has_provider_id id row = row.provider_repo_id == id

abbrev pub is_pull_request : String → ℕ → PullRequestRow → Bool
is_pull_request repository_id number row =
    str_eq row.repository_id repository_id && row.external_number == number

described : Delivery → RepositoryRow → RepositoryRow
described d row = record row {
  owner = d.owner;
  name = d.name;
  full_name = d.event.full_name;
  default_branch = d.default_branch;
  enabled = true;
}

current : Delivery → ℕ → PullRequestRow → PullRequestRow
current d now row = record row {
  head_sha = d.event.head_sha;
  base_sha = d.base_sha;
  source_branch = d.source_branch;
  title = d.title;
  author = d.author;
  state = "OPEN";
  updated_at = now;
}

module _ (random : ℕ → String) where
  new_repository : Delivery → ℕ → RepositoryRow
  new_repository d draw = record {
    id = random draw;
    provider_repo_id = d.event.repository_id;
    owner = d.owner;
    name = d.name;
    full_name = d.event.full_name;
    default_branch = d.default_branch;
    enabled = true;
  }

  unfoldable pub upsert_repository : Delivery → Effect String
  unfolding described new_repository
  upsert_repository d w = elim (find? (has_provider_id d.event.repository_id) w.repositories) [
    | none ↦ pure (random w.draws) (record w {
      repositories = w.repositories ++ new_repository d w.draws ∷ [];
      draws = suc w.draws;
    })
    | some row ↦ pure row.id (record w {
      repositories = update (has_provider_id d.event.repository_id) (described d) w.repositories;
    })
  ]

  new_pull_request : Delivery → String → ℕ → ℕ → PullRequestRow
  new_pull_request d repository_id draw now = record {
    id = random draw;
    repository_id = repository_id;
    external_number = d.event.external_number;
    head_sha = d.event.head_sha;
    base_sha = d.base_sha;
    source_branch = d.source_branch;
    title = d.title;
    author = d.author;
    state = "OPEN";
    updated_at = now;
  }

  unfoldable pub upsert_pull_request : Delivery → String → Effect String
  unfolding current new_pull_request
  upsert_pull_request d repository_id w =
      let number = d.event.external_number in
      elim (find? (is_pull_request repository_id number) w.pull_requests) [
        | none ↦ pure (random w.draws) (record w {
          pull_requests = w.pull_requests ++ new_pull_request d repository_id w.draws w.now ∷ [];
          draws = suc w.draws;
        })
        | some row ↦ pure row.id (record w {
          pull_requests =
              update (is_pull_request repository_id number) (current d w.now) w.pull_requests;
        })
      ]
