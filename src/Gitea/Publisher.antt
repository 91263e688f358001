-- ===== src/Gitea/Publisher.antt =====
-- GiteaSyncPublisher of apps/worker/src/gitea/sync.ts: rows of gitea_syncs become comments and
-- statuses in Gitea. The advisory lock makes the claim of a row one step.
use code_host.Prelude.{
  ℕ, suc, ◌+◌, ◌-◌, ◌*◌, ◌^◌, min, String, Bool, List, [], ◌∷◌, ◌++◌, Option, none, some, find?,
  keep, take, update, str_eq, ◌==◌, leb, ◌&&◌, not, if◌then◌else◌,
}
use code_host.Prelude.Text.{clip}
use code_host.Prelude.Result.{Result, ok, err}
use code_host.Database.Tables.{
  SyncRow, synced, sync_failed, RepositoryRow, PullRequestRow, RunRow, World,
}
use code_host.Database.Effects.{Fault}
use code_host.Store.Syncs.{sync_index}
use code_host.Outbox.{is_claimed, leased_until}
use code_host.Gitea.{Server}
use code_host.Gitea.Exchange.{repository_parts, Written, on_comment, on_status, write_artifact}

abbrev pub lease_ms : ℕ
lease_ms = 30000

abbrev pub max_batch : ℕ
max_batch = 10

-- `attempts - 1` stops at 0, as `Math.max(0, attempts - 1)` does.
unfoldable pub retry_delay : ℕ → ℕ
retry_delay attempts = min 300000 (5000 * 2 ^ min 6 (attempts - 1))

-- The key of a row, for its generated id.
pub record SyncKey : Type 0 where
  pub run_id : String
  pub attempt : ℕ
  pub context : String
  pub head_sha : String

abbrev pub key_of : SyncRow → SyncKey
key_of row = record {
  run_id = row.run_id;
  attempt = row.attempt;
  context = row.context;
  head_sha = row.head_sha;
}

abbrev pub is_sync : SyncKey → SyncRow → Bool
is_sync key row =
    str_eq row.run_id key.run_id
    && (row.attempt == key.attempt
        && (str_eq row.context key.context && str_eq row.head_sha key.head_sha))

abbrev pub is_open_sync : SyncRow → Bool
is_open_sync row = not (sync_index row.sync_status == 1)

-- `publish` on a row that passes its tests.
abbrev pub may_claim : ℕ → SyncRow → Bool
may_claim now row =
    is_open_sync row && (leb row.next_attempt_at now && not (is_claimed row.lease_until now))

abbrev pub find_sync : SyncKey → World → Option SyncRow
find_sync key w = find? (is_sync key) w.gitea_syncs

unfoldable pub claimed_sync : ℕ → SyncRow → SyncRow
claimed_sync until row = record row { lease_until = some until; attempts = suc row.attempts }

-- The transaction of `publish`; of the row that it returns only the lease is new.
unfoldable pub claim : SyncKey → World → Option SyncRow × World
unfolding claimed_sync
claim key w = elim (find_sync key w) [
  | none ↦ (none, w)
  | some row ↦
      if may_claim w.now row
      then (
        some (record row { lease_until = some (w.now + lease_ms) }),
        record w {
          gitea_syncs = update (is_sync key) (claimed_sync (w.now + lease_ms)) w.gitea_syncs;
        },
      )
      else (none, w)
]

unfoldable pub failed_sync : String → ℕ → ℕ → SyncRow → SyncRow
unfolding retry_delay
failed_sync message attempts now row = record row {
  sync_status = sync_failed;
  last_sync_error = some message;
  next_attempt_at = now + retry_delay attempts;
  lease_until = none;
}

unfoldable pub synced_row : Written → ℕ → SyncRow → SyncRow
synced_row (on_comment id) now row = record row {
  sync_status = synced;
  synced_at = some now;
  last_sync_error = none;
  lease_until = none;
  comment_id = some id;
}
synced_row (on_status id) now row = record row {
  sync_status = synced;
  synced_at = some now;
  last_sync_error = none;
  lease_until = none;
  external_status_id = some id;
}

abbrev pub is_held_sync : SyncKey → ℕ → SyncRow → Bool
is_held_sync key until row = is_sync key row && leased_until until row.lease_until

unfoldable pub mark_synced : SyncKey → ℕ → Written → World → World
unfolding synced_row
mark_synced key until written w = record w {
  gitea_syncs = update (is_held_sync key until) (synced_row written w.now) w.gitea_syncs;
}

unfoldable pub fail_sync : SyncKey → ℕ → ℕ → String → World → World
unfolding failed_sync
fail_sync key until attempts message w = record w {
  gitea_syncs = update (is_held_sync key until) (failed_sync message attempts w.now) w.gitea_syncs;
}

-- `message` stands for the message of an error.
unfoldable pub finish : (Fault → String) → SyncKey → ℕ → ℕ → Result Fault Written → World → World
unfolding mark_synced fail_sync
finish message key until attempts (ok written) = mark_synced key until written
finish message key until attempts (err e) = fail_sync key until attempts (clip 512 (message e))

-- `meanwhile` is what others do to the database, and the time that passes, until Gitea has answered.
module _ {G : Type 0} (server : Server G) (message : Fault → String)
    (meanwhile : World → World) where
  unfoldable pub publish_claimed : SyncKey → String → ℕ → ℕ → Option SyncRow → World → G → World × G
  unfolding write_artifact finish
  publish_claimed key full_name number until none w g = (w, g)
  publish_claimed key full_name number until (some row) w g =
      let answer = write_artifact server row number (repository_parts full_name) g in
      (finish message key until row.attempts answer.0 (meanwhile w), answer.1)

  -- The end of the lease is read from the clock before the claim.
  unfoldable pub publish : SyncKey → String → ℕ → World → G → World × G
  unfolding publish_claimed claim
  publish key full_name number w g =
      publish_claimed key full_name number (w.now + lease_ms) (claim key w).0 (claim key w).1 g

-- A row of the joined query of `poll`.
pub record DueSync : Type 0 where
  pub sync : SyncRow
  pub repository_full_name : String
  pub pull_request_number : ℕ

abbrev with_parts : SyncRow → Option RepositoryRow → Option PullRequestRow → List DueSync
with_parts row (some repository) (some pull_request) =
    record {
      sync = row;
      repository_full_name = repository.full_name;
      pull_request_number = pull_request.external_number;
    }
    ∷ []
with_parts row none pull_request = []
with_parts row (some repository) none = []

abbrev with_run : World → SyncRow → Option RunRow → List DueSync
with_run w row none = []
with_run w row (some run) =
    with_parts row (find? (λ r. str_eq r.id run.repository_id) w.repositories)
      (find? (λ p. str_eq p.id run.pull_request_id) w.pull_requests)

join_syncs : World → List SyncRow → List DueSync
join_syncs w [] = []
join_syncs w (row ∷ rows) =
    with_run w row (find? (λ r. str_eq r.id row.run_id) w.runs) ++ join_syncs w rows

unfoldable pub due_syncs : World → List DueSync
unfolding join_syncs
due_syncs w = take max_batch (join_syncs w (keep (may_claim w.now) w.gitea_syncs))

module _ {G : Type 0} (server : Server G) (message : Fault → String)
    (meanwhile : World → World) where
  unfoldable pub publish_all : List DueSync → World → G → World × G
  unfolding publish
  publish_all [] w g = (w, g)
  publish_all (due ∷ rest) w g =
      let after =
        publish server message meanwhile (key_of due.sync) due.repository_full_name
          due.pull_request_number w g in
      publish_all rest after.0 after.1

  unfoldable pub poll : World → G → World × G
  unfolding publish_all due_syncs
  poll w g = publish_all (due_syncs w) w g
