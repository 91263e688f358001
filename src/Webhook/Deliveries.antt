-- ===== src/Webhook/Deliveries.antt =====
-- What `accept` of apps/api/src/webhook.service.ts does with any delivery, also one that comes again.
use code_host.Prelude.{ℕ, String, Option, none, some, find?, ◌≡◌, inl, inr, refl, subst, Bool-cases}
use code_host.Json.{Value, Fields}
use code_host.Database.Tables.{WebhookEventRow, World}
use code_host.Database.Counting.{IsWithinCapacity}
use code_host.Database.Keeps.{transaction-keeps}
use code_host.Webhook.{WebhookEvent, is_label, member, parse_payload}
use code_host.Webhook.Rows.{
  Delivery, has_delivery, is_same_event, redelivered, event_audit, owner_and_name,
}
use code_host.Webhook.Service.{receive}
use code_host.Webhook.Acceptance.{
  Setting, is_delivery_id, is_null, stale_details, is_supported_action, is_fresh_now, is_allowed,
  delivery_of, accept_allowed, accept_event, accept_payload, accept,
}
use code_host.Webhook.Capacity.{Bounded, receive-Bounded}

module _ (P : World → Type 0) (s : Setting) (id raw : String) (payload : Value)
    (audits : (action : String) (details : Fields) (w : World)
      → P w
      → P (event_audit action id details w))
    (receives : (d : Delivery)
      → d.delivery_id ≡ id
      → (w : World) → P w
      → P (receive s.random d w).1) where
  accept_allowed-keeps :
      (event : WebhookEvent) (parts : Option (String × String)) (w : World)
      → P w
      → P (accept_allowed s id raw payload event parts w).1
  unfolding accept_allowed delivery_of
  accept_allowed-keeps event none w p = p
  accept_allowed-keeps event (some parts) w p = elim (Bool-cases (is_allowed s event.full_name)) [
    | inl allowed ↦ rw allowed (
        transaction-keeps P (receive s.random (delivery_of s id raw payload event parts))
          (receives (delivery_of s id raw payload event parts) refl) w p)
    | inr other ↦ rw other p
  ]

  accept_event-keeps :
      (event : Option WebhookEvent) (w : World) → P w → P (accept_event s id raw payload event w).1
  unfolding accept_event
  accept_event-keeps none w p = p
  accept_event-keeps (some event) w p = elim (Bool-cases (is_fresh_now s event w)) [
    | inr stale ↦
        rw stale (
          audits "WEBHOOK_REPLAY_REJECTED" (stale_details s id (s.sha256 raw) event.created_at) w p)
    | inl fresh ↦ rw fresh (elim (Bool-cases (is_label 255 id)) [
      | inl label ↦ rw label (accept_allowed-keeps event (owner_and_name event.full_name) w p)
      | inr blank ↦ rw blank p
    ])
  ]

  accept-keeps : (w : World) → P w → P (accept s raw payload (some id) w).1
  unfolding accept accept_payload
  accept-keeps w p = elim (Bool-cases (is_delivery_id (some id))) [
    | inr missing ↦ rw missing p
    | inl given ↦ rw given (elim (Bool-cases (is_null payload)) [
      | inl nothing ↦ rw nothing p
      | inr something ↦
          rw something (elim (Bool-cases (is_supported_action (member "action" payload))) [
            | inr other ↦ rw other p
            | inl supported ↦
                rw supported (accept_event-keeps (parse_payload s.to_date payload) w p)
          ])
    ])
  ]

-- If run ids are unique, at most one run is active and at most three wait, then so it is after any webhook
-- delivery, however it is answered and also if it throws.
pub accept-IsWithinCapacity :
    (s : Setting) (raw : String) (payload : Value) (id : Option String) (w : World)
    → IsWithinCapacity w.runs
    → IsWithinCapacity (accept s raw payload id w).1.runs
unfolding accept event_audit
accept-IsWithinCapacity s raw payload none w c = c
accept-IsWithinCapacity s raw payload (some id) w c =
    accept-keeps Bounded s id raw payload (λ action details v b. b)
      (λ d same v b. receive-Bounded s.random d v b) w c

-- What is left alone when a delivery comes again.
record IsRedelivery (w : World) (id : String) (row : WebhookEventRow) (v : World) : Type 0 where
  known : find? (has_delivery id) v.webhook_events ≡ some row
  runs : v.runs ≡ w.runs
  outbox : v.outbox ≡ w.outbox
  repositories : v.repositories ≡ w.repositories
  pull_requests : v.pull_requests ≡ w.pull_requests

receive-IsRedelivery :
    (random : ℕ → String) (d : Delivery) (w : World) (row : WebhookEventRow) (v : World)
    → IsRedelivery w d.delivery_id row v
    → IsRedelivery w d.delivery_id row (receive random d v).1
unfolding receive redelivered event_audit
receive-IsRedelivery random d w row v p =
    rw (p.known, receive)
      (elim (Bool-cases (is_same_event d row)) [
        | inl same ↦ rw same p
        | inr changed ↦ rw changed (record {
          known = p.known;
          runs = p.runs;
          outbox = p.outbox;
          repositories = p.repositories;
          pull_requests = p.pull_requests;
        })
      ])

-- A delivery whose id is recorded already starts nothing: whatever its body and its payload say, the runs, the
-- outbox, the repositories, the pull requests and the recorded event stay as they are.
pub accept-redelivery :
    (s : Setting) (raw : String) (payload : Value) (id : String) (w : World) (row : WebhookEventRow)
    → find? (has_delivery id) w.webhook_events ≡ some row
    → ((accept s raw payload (some id) w).1.runs ≡ w.runs)
      × ((accept s raw payload (some id) w).1.outbox ≡ w.outbox)
      × ((accept s raw payload (some id) w).1.repositories ≡ w.repositories)
      × ((accept s raw payload (some id) w).1.pull_requests ≡ w.pull_requests)
      × (find? (has_delivery id) (accept s raw payload (some id) w).1.webhook_events ≡ some row)
unfolding event_audit
accept-redelivery s raw payload id w row found =
    let kept =
      accept-keeps (IsRedelivery w id row) s id raw payload
        (λ action details v p. record {
          known = p.known;
          runs = p.runs;
          outbox = p.outbox;
          repositories = p.repositories;
          pull_requests = p.pull_requests;
        })
        (λ d same v p.
          subst (λ i. IsRedelivery w i row v → IsRedelivery w i row (receive s.random d v).1) same
            (receive-IsRedelivery s.random d w row v) p)
        w
        (record {
          known = found;
          runs = refl;
          outbox = refl;
          repositories = refl;
          pull_requests = refl;
        }) in
    (kept.runs, kept.outbox, kept.repositories, kept.pull_requests, kept.known)
