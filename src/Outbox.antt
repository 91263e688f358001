-- ===== src/Outbox.antt =====
-- OutboxPublisher of apps/worker/src/workflow/outbox.ts: rows of the outbox become jobs of the queue.
-- A row's `id` is its unique `dedupe_key`. The advisory lock makes the claim one step.
pub mod Publication
pub mod Frames
use code_host.Prelude.{
  ℕ, suc, ◌+◌, ◌*◌, String, Bool, true, false, List, [], ◌∷◌, Option, none, some, find?, keep, map,
  take, update, str_eq, ◌==◌, ltb, leb, ◌&&◌, ◌||◌, not, if◌then◌else◌,
}
use code_host.Prelude.Text.{clip}
use code_host.Workflow.{WorkflowJob, parse_workflow_job}
use code_host.Database.Tables.{OutboxStatus, waiting, published, undelivered, OutboxRow, World}
use code_host.Database.Effects.{Fault, Effect, pure, throw, gets, modify, recover, ◌>>=◌, ◌>>◌}

abbrev pub lease_ms : ℕ
lease_ms = 30000

abbrev pub max_batch : ℕ
max_batch = 10

abbrev pub outbox_index : OutboxStatus → ℕ
outbox_index waiting = 0
outbox_index published = 1
outbox_index undelivered = 2

abbrev pub is_published : OutboxStatus → Bool
is_published status = outbox_index status == 1

abbrev pub has_key : String → OutboxRow → Bool
has_key key r = str_eq r.dedupe_key key

abbrev pub find_outbox : String → World → Option OutboxRow
find_outbox key w = find? (has_key key) w.outbox

-- `row.leaseUntil !== null && row.leaseUntil.getTime() >= Date.now()`
abbrev pub is_claimed : Option ℕ → ℕ → Bool
is_claimed none now = false
is_claimed (some until) now = leb now until

-- `eq(workflowOutbox.leaseUntil, leaseUntil)`
abbrev pub leased_until : ℕ → Option ℕ → Bool
leased_until at none = false
leased_until at (some until) = until == at

-- The rows that a poll takes up.
abbrev pub is_due : ℕ → OutboxRow → Bool
is_due now r =
    not (is_published r.status) && (leb r.available_at now && not (is_claimed r.lease_until now))

unfoldable pub claimed_row : ℕ → OutboxRow → OutboxRow
claimed_row until r = record r {
  attempts = suc r.attempts;
  lease_until = some until;
  last_error = none;
}

-- The transaction of `publish`; the row that it returns is as it was before.
unfoldable pub claim : String → Effect (Option OutboxRow)
unfolding claimed_row
claim key w = elim (find_outbox key w) [
  | none ↦ pure none w
  | some row ↦
      if is_published row.status || (ltb w.now row.available_at || is_claimed row.lease_until w.now)
      then pure none w
      else pure (some row)
          (record w { outbox = update (has_key key) (claimed_row (w.now + lease_ms)) w.outbox })
]

unfoldable pub failed_row : String → ℕ → OutboxRow → OutboxRow
failed_row message now r = record r {
  status = undelivered;
  last_error = some message;
  available_at = now + 5000;
  lease_until = none;
}

unfoldable pub fail : String → String → ℕ → Effect (Unit {0})
unfolding failed_row
fail key message until w = pure tt (record w {
  outbox =
      update (λ r. has_key key r && leased_until until r.lease_until) (failed_row message w.now)
        w.outbox;
})

unfoldable pub published_row : ℕ → OutboxRow → OutboxRow
published_row now r = record r { status = published; published_at = some now; lease_until = none }

unfoldable pub mark_published : String → ℕ → Effect (Unit {0})
unfolding published_row
mark_published key until w = pure tt (record w {
  outbox =
      update (λ r. has_key key r && leased_until until r.lease_until) (published_row w.now)
        w.outbox;
})

-- `dispatch` is the dispatcher's, and `message` stands for the message of an error.
module _ (dispatch : WorkflowJob → Effect (Unit {0})) (message : Fault → String) where
  unfoldable pub deliver : String → ℕ → Option WorkflowJob → Effect (Unit {0})
  deliver key until none = fail key "INVALID_WORKFLOW_PAYLOAD" until
  deliver key until (some job) =
      recover (dispatch job >> mark_published key until)
        (λ e. fail key (clip 1000 (message e)) until)

  unfoldable pub publish_claimed : String → ℕ → Option OutboxRow → Effect (Unit {0})
  unfolding deliver
  publish_claimed key until none = pure tt
  publish_claimed key until (some row) = deliver key until (parse_workflow_job row.payload)

  -- The end of the lease is read from the clock before the claim.
  unfoldable pub publish : String → Effect (Unit {0})
  unfolding publish_claimed
  publish key w = (claim key >>= publish_claimed key (w.now + lease_ms)) w

  unfoldable pub publish_all : List OutboxRow → Effect (Unit {0})
  unfolding publish
  publish_all [] = pure tt
  publish_all (row ∷ rows) = publish row.dedupe_key >> publish_all rows

  unfoldable pub poll : Effect (Unit {0})
  unfolding publish_all
  poll = gets (λ w. take max_batch (keep (is_due w.now) w.outbox)) >>= publish_all
