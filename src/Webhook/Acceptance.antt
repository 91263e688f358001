-- ===== src/Webhook/Acceptance.antt =====
-- `accept` of WebhookService in apps/api/src/webhook.service.ts: which deliveries reach the transaction. `sha256`
-- stands for the digest of the body, `to_date` for the platform's `Date`, `iso` for `toISOString`.
use code_host.Prelude.{
  ℕ, ◌*◌, String, Bool, true, false, List, Option, none, some, any, length, str_eq, leb, ◌==◌, ◌&&◌,
  ◌||◌, not, if◌then◌else◌,
}
use code_host.Prelude.Text.{◌++◌ as append, decimal}
use code_host.Json.{Value, text, null, Fields, end, field}
use code_host.Database.Tables.{World}
use code_host.Database.Effects.{
  conflict, forbidden, thrown, Effect, pure, throw, modify, transaction, ◌>>◌,
}
use code_host.Webhook.{
  Instant, is_webhook_event_fresh, is_label, size, member, WebhookEvent, parse_payload,
}
use code_host.Webhook.Rows.{
  WebhookResult, ignored, owner_and_name, text_field, field_of, Delivery, event_audit,
}
use code_host.Webhook.Service.{receive}

-- What the service is given: its configuration and the platform.
pub record Setting : Type 0 where
  pub webhook_max_age_minutes : ℕ
  pub gitea_allowed_repositories : List String
  pub random : ℕ → String
  pub sha256 : String → String
  pub to_date : Value → Option Instant
  pub iso : Instant → String

-- `deliveryId.length > 255`, and the test that the id is given.
unfoldable pub is_delivery_id : Option String → Bool
is_delivery_id none = false
is_delivery_id (some id) = not (str_eq id "") && leb (size id) 255

-- `payload.action`; to read it of `null` throws.
unfoldable pub is_supported_action : Option Value → Bool
is_supported_action (some (text action)) =
    str_eq action "synchronized"
    || (str_eq action "opened" || (str_eq action "reopened" || str_eq action "synchronize"))
is_supported_action _ = false

abbrev pub stale_details : Setting → String → String → Instant → Fields
stale_details s id hash created = field "providerDeliveryId" (text id) (
    field "payloadHash" (text hash) (
      field "reason" (text "stale-or-future-event") (field "createdAt" (text (s.iso created)) end)))

abbrev pub is_fresh_now : Setting → WebhookEvent → World → Bool
is_fresh_now s event w =
    is_webhook_event_fresh event.created_at w.now (s.webhook_max_age_minutes * 60 * 1000)

abbrev pub is_allowed : Setting → String → Bool
is_allowed s full_name =
    (length s.gitea_allowed_repositories == 0)
    || any (λ allowed. str_eq allowed full_name) s.gitea_allowed_repositories

unfoldable pub delivery_of :
    Setting → String → String → Value → WebhookEvent → String × String → Delivery
unfolding text_field
delivery_of s id raw payload event parts =
    let pull_request = member "pull_request" payload in
    record {
      delivery_id = id;
      event = event;
      payload_hash = s.sha256 raw;
      owner = parts.0;
      name = parts.1;
      default_branch = text_field (field_of "default_branch" (member "repository" payload)) "main";
      base_sha = text_field (field_of "sha" (field_of "base" pull_request)) event.head_sha;
      source_branch =
          text_field (field_of "ref" (field_of "head" pull_request))
            (append "pr/" (decimal event.external_number));
      author = text_field (field_of "login" (field_of "user" pull_request)) "unknown";
      title =
          text_field (field_of "title" pull_request)
            (append "PR #" (decimal event.external_number));
    }

module _ (s : Setting) (id raw : String) (payload : Value) where
  unfoldable pub accept_allowed : WebhookEvent → Option (String × String) → Effect WebhookResult
  unfolding delivery_of
  accept_allowed event none = throw (thrown "repository.full_name must be owner/name")
  accept_allowed event (some parts) =
      if not (is_allowed s event.full_name)
      then throw (forbidden "repository is not in the platform allowlist")
      else transaction (receive s.random (delivery_of s id raw payload event parts))

  -- An event that is not fresh is audited, outside of any transaction. The delivery's id is parsed with the
  -- event once more, and the event's age is asked of the same clock.
  unfoldable pub accept_event : Option WebhookEvent → Effect WebhookResult
  unfolding accept_allowed owner_and_name event_audit
  accept_event none w = throw (thrown "payload is invalid") w
  accept_event (some event) w =
      if not (is_fresh_now s event w)
      then (modify (
              event_audit "WEBHOOK_REPLAY_REJECTED" id
                (stale_details s id (s.sha256 raw) event.created_at))
            >> throw (conflict "webhook event is stale or from the future"))
          w
      else if not (is_label 255 id)
      then throw (thrown "providerDeliveryId is invalid") w
      else accept_allowed event (owner_and_name event.full_name) w

  unfoldable pub accept_payload : Effect WebhookResult
  unfolding accept_event is_supported_action
  accept_payload =
      if is_supported_action (member "action" payload)
      then accept_event (parse_payload s.to_date payload)
      else pure ignored

unfoldable pub is_null : Value → Bool
is_null null = true
is_null _ = false

unfoldable pub accept : Setting → String → Value → Option String → Effect WebhookResult
unfolding accept_payload is_null is_delivery_id
accept s raw payload none = throw (thrown "x-gitea-delivery is required")
accept s raw payload (some id) =
    if not (is_delivery_id (some id))
    then throw (thrown "x-gitea-delivery is required")
    else if is_null payload
    then throw (thrown "payload is null")
    else accept_payload s id raw payload
