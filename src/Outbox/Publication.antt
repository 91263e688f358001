-- ===== src/Outbox/Publication.antt =====
-- What a publication of apps/worker/src/workflow/outbox.ts leaves in the outbox and in the queue.
use code_host.Prelude.{
  ℕ, suc, ◌+◌, String, Bool, true, false, [], ◌∷◌, ◌++◌, none, some, find?, update, str_eq, ==-refl,
  ltb, ◌&&◌, ◌||◌, not, if◌then◌else◌, ◌≡◌, ◌∙◌, refl, ap, arith, find?-update, find?-holds,
}
use mathlib.Core.Option
use code_host.Prelude.Result.{ok}
use code_host.Prelude.Text.{clip}
use code_host.Workflow.{WorkflowJob, parse_workflow_job}
use code_host.Database.Tables.{published, undelivered, OutboxRow, World}
use code_host.Database.Effects.{queue_rejected, Fault, Effect}
use code_host.Guard.Leases.{find?-update_self}
use code_host.Queue.{dispatch}
use code_host.Outbox.{
  lease_ms, is_published, has_key, find_outbox, is_claimed, leased_until, claimed_row, claim,
  failed_row, fail, published_row, mark_published, deliver, publish_claimed, publish,
}

-- `claim` on a row that passes its tests.
abbrev pub is_claimable : ℕ → OutboxRow → Bool
is_claimable now row =
    not (is_published row.status || (ltb now row.available_at || is_claimed row.lease_until now))

open_row :
    (now : ℕ) (row : OutboxRow)
    → is_claimable now row ≡ true
    → (is_published row.status || (ltb now row.available_at || is_claimed row.lease_until now))
      ≡ false
open_row now row free = ground arith

abbrev claimed_world : String → World → World
claimed_world key w = record w {
  outbox = update (has_key key) (claimed_row (w.now + lease_ms)) w.outbox;
}

claim-open :
    (key : String) (w : World) (row : OutboxRow)
    → find_outbox key w ≡ some row
    → is_claimable w.now row ≡ true
    → claim key w ≡ (ok (some row), claimed_world key w)
unfolding claim
claim-open key w row found free = rw (found, claim) (rw (open_row w.now row free) refl)

find-claimed :
    (key : String) (w : World) (row : OutboxRow)
    → find_outbox key w ≡ some row
    → find_outbox key (claimed_world key w) ≡ some (claimed_row (w.now + lease_ms) row)
unfolding claimed_row
find-claimed key w row found =
    find?-update_self (has_key key) (claimed_row (w.now + lease_ms)) (λ a. refl) w.outbox found

-- A write under the lease of a claim reaches the claimed row.
find-written :
    (key : String) (w : World) (row : OutboxRow) (f : OutboxRow → OutboxRow)
    → ((r : OutboxRow) → (f r).dedupe_key ≡ r.dedupe_key)
    → find_outbox key w ≡ some row
    → find? (has_key key) (
        update
          (λ r. has_key key r && leased_until (w.now + lease_ms) r.lease_until)
          f
          (claimed_world key w).outbox)
      ≡ some (f (claimed_row (w.now + lease_ms) row))
unfolding claimed_row
find-written key w row f same found =
    find?-update (has_key key) (λ r. has_key key r && leased_until (w.now + lease_ms) r.lease_until)
      f (λ a _. ap (λ k. str_eq k key) (same a)) (claimed_world key w).outbox
    ∙ ap
        (Option.map
          (λ r. if has_key key r && leased_until (w.now + lease_ms) r.lease_until then f r else r))
        (find-claimed key w row found)
    ∙ (rw (find?-holds (has_key key) w.outbox found, ==-refl (w.now + lease_ms)) refl)

-- A row that is published, not yet available, or under another publisher's lease is left alone, and
-- nothing is dispatched.
pub publish-skips :
    (dispatch : WorkflowJob → Effect (Unit {0})) (message : Fault → String) (key : String)
    (w : World) (row : OutboxRow)
    → find_outbox key w ≡ some row
    → is_claimable w.now row ≡ false
    → publish dispatch message key w ≡ (ok tt, w)
unfolding publish claim publish_claimed
publish-skips dispatch message key w row found taken =
    let closed : (is_published row.status
          || (ltb w.now row.available_at || is_claimed row.lease_until w.now))
        ≡ true =
      ground arith in
    rw (found, claim) (rw closed refl)

published-key : (now : ℕ) (r : OutboxRow) → (published_row now r).dedupe_key ≡ r.dedupe_key
unfolding published_row
published-key now r = refl

failed-key :
    (text : String) (now : ℕ) (r : OutboxRow) → (failed_row text now r).dedupe_key ≡ r.dedupe_key
unfolding failed_row
failed-key text now r = refl

-- Why a claimed row is not delivered.
pub data IsUndeliverable (accepts : WorkflowJob → World → Bool) (key : String) (w : World)
    (row : OutboxRow) : Type 0 where
  no_job : parse_workflow_job row.payload ≡ none → IsUndeliverable accepts key w row
  refused_job :
      (job : WorkflowJob)
      → parse_workflow_job row.payload ≡ some job
      → accepts job (claim key w).1 ≡ false
      → IsUndeliverable accepts key w row

module _ (accepts : WorkflowJob → World → Bool) (message : Fault → String) where
  -- A claimable row whose payload is a job that the queue accepts is delivered: the job is the last of the
  -- queue, and the row is as it was but PUBLISHED at the time of the call, without a lease or an error, and with
  -- one more attempt.
  pub publish-delivers :
      (key : String) (w : World) (row : OutboxRow) (job : WorkflowJob)
      → find_outbox key w ≡ some row
      → is_claimable w.now row ≡ true
      → parse_workflow_job row.payload ≡ some job
      → accepts job (claim key w).1 ≡ true
      → ((publish (dispatch accepts) message key w).0 ≡ ok tt)
        × ((publish (dispatch accepts) message key w).1.queue ≡ w.queue ++ job ∷ [])
        × (find_outbox key (publish (dispatch accepts) message key w).1
            ≡ some (record row {
              status = published;
              published_at = some w.now;
              attempts = suc row.attempts;
              lease_until = none;
              last_error = none;
            }))
  unfolding publish publish_claimed deliver dispatch mark_published published_row claimed_row
  publish-delivers key w row job found free parsed accepted =
      let claims = claim-open key w row found free in
      let taken : accepts job (claimed_world key w) ≡ true = rw claims at accepted in
      (
        rw claims (rw parsed (rw taken refl)),
        rw claims (rw parsed (rw taken refl)),
        rw claims (
            rw parsed (
              rw taken
                (find-written key w row (published_row w.now) (λ r. published-key w.now r) found))),
      )

  -- A claimable row that cannot be delivered, since its payload is no job or the queue refuses the job,
  -- is not lost: nothing is queued and nothing is thrown, and the row has FAILED, one more attempt, no
  -- lease, and becomes available again after five seconds.
  pub publish-retries :
      (key : String) (w : World) (row : OutboxRow)
      → find_outbox key w ≡ some row
      → is_claimable w.now row ≡ true
      → IsUndeliverable accepts key w row
      → ((publish (dispatch accepts) message key w).0 ≡ ok tt)
        × ((publish (dispatch accepts) message key w).1.queue ≡ w.queue)
        × (text : String) × (find_outbox key (publish (dispatch accepts) message key w).1
            ≡ some (record row {
              status = undelivered;
              available_at = w.now + 5000;
              attempts = suc row.attempts;
              lease_until = none;
              last_error = some text;
            }))
  unfolding publish publish_claimed deliver dispatch fail failed_row claimed_row
  publish-retries key w row found free (no_job parsed) =
      let claims = claim-open key w row found free in
      (
        rw claims (rw parsed refl),
        rw claims (rw parsed refl),
        "INVALID_WORKFLOW_PAYLOAD",
        rw claims (
            rw parsed (
              find-written key w row (failed_row "INVALID_WORKFLOW_PAYLOAD" w.now)
                (λ r. failed-key "INVALID_WORKFLOW_PAYLOAD" w.now r) found)),
      )
  publish-retries key w row found free (refused_job job parsed refuses) =
      let claims = claim-open key w row found free in
      let refused_there : accepts job (claimed_world key w) ≡ false = rw claims at refuses in
      (
        rw claims (rw parsed (rw refused_there refl)),
        rw claims (rw parsed (rw refused_there refl)),
        clip 1000 (message queue_rejected),
        rw claims (
            rw parsed (
              rw refused_there (
                find-written key w row (failed_row (clip 1000 (message queue_rejected)) w.now)
                  (λ r. failed-key (clip 1000 (message queue_rejected)) w.now r) found))),
      )

  -- A row that was delivered is delivered once: as long as it is as the publication left it, publishing it
  -- again changes nothing.
  pub publish-once :
      (key : String) (w later : World) (row : OutboxRow) (job : WorkflowJob)
      → find_outbox key w ≡ some row
      → is_claimable w.now row ≡ true
      → parse_workflow_job row.payload ≡ some job
      → accepts job (claim key w).1 ≡ true
      → find_outbox key later ≡ find_outbox key (publish (dispatch accepts) message key w).1
      → publish (dispatch accepts) message key later ≡ (ok tt, later)
  unfolding published_row
  publish-once key w later row job found free parsed accepted kept =
      publish-skips (dispatch accepts) message key later
        (record row {
          status = published;
          published_at = some w.now;
          attempts = suc row.attempts;
          lease_until = none;
          last_error = none;
        })
        (kept ∙ (publish-delivers key w row job found free parsed accepted).2) refl
