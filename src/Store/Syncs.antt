-- ===== src/Store/Syncs.antt =====
-- `enqueueGiteaSync` of apps/worker/src/workflow/db-adapter.ts: what the platform wants to stand on
-- the pull request is kept as one row for each run, attempt, context and head.
use code_host.Prelude.{
  ℕ, String, Bool, false, [], ◌∷◌, ◌++◌, Option, none, some, find?, update, str_eq, ◌==◌, ltb, ◌&&◌,
  not, if◌then◌else◌,
}
use code_host.Database.Tables.{SyncRow, SyncStatus, to_sync, synced}
use code_host.Database.Effects.{stale_gitea_sync, Effect, pure, transaction, ◌>>◌}
use code_host.Store.{RunIdentity, require_current}

pub record SyncInput : Type 0 where
  pub identity : RunIdentity
  pub repository_full_name : String
  pub pull_request_number : ℕ
  pub artifact_type : String
  pub context : String
  pub desired_hash : String
  pub desired_state : String
  pub desired_description : String
  pub desired_target_url : Option String
  pub desired_body : String

abbrev pub sync_index : SyncStatus → ℕ
sync_index to_sync = 0
sync_index synced = 1
sync_index _ = 2

abbrev pub is_sync_of : SyncInput → SyncRow → Bool
is_sync_of input r =
    str_eq r.run_id input.identity.run_id
    && (r.attempt == input.identity.attempt
        && (str_eq r.context input.context && str_eq r.head_sha input.identity.head_sha))

-- `leaseUntil !== null && leaseUntil > now`
abbrev pub is_leased : Option ℕ → ℕ → Bool
is_leased none now = false
is_leased (some until) now = ltb now until

-- `values` over the row that is there.
wanted : SyncInput → ℕ → SyncRow → SyncRow
wanted input now r = record r {
  artifact_type = input.artifact_type;
  desired_hash = input.desired_hash;
  desired_state = input.desired_state;
  desired_description = input.desired_description;
  desired_target_url = input.desired_target_url;
  desired_body = input.desired_body;
  sync_status = to_sync;
  next_attempt_at = now;
  lease_until = none;
  last_sync_error = none;
  synced_at = none;
}

-- The inserted row, with the columns' defaults.
new_sync : SyncInput → ℕ → SyncRow
new_sync input now = record {
  run_id = input.identity.run_id;
  attempt = input.identity.attempt;
  head_sha = input.identity.head_sha;
  context = input.context;
  artifact_type = input.artifact_type;
  desired_hash = input.desired_hash;
  desired_state = input.desired_state;
  desired_description = input.desired_description;
  desired_target_url = input.desired_target_url;
  desired_body = input.desired_body;
  sync_status = to_sync;
  attempts = 0;
  next_attempt_at = now;
  lease_until = none;
  external_status_id = none;
  comment_id = none;
  last_sync_error = none;
  synced_at = none;
}

unfoldable pub write_sync : SyncInput → Effect (Unit {0})
unfolding wanted new_sync
write_sync input w = elim (find? (is_sync_of input) w.gitea_syncs) [
  | none ↦ pure tt (record w { gitea_syncs = w.gitea_syncs ++ new_sync input w.now ∷ [] })
  | some row ↦
      if str_eq row.desired_hash input.desired_hash && sync_index row.sync_status == 1
      then pure tt w
      else if is_leased row.lease_until w.now
      then pure tt w
      else pure tt (record w {
        gitea_syncs =
            update (λ r. is_sync_of input r && not (is_leased r.lease_until w.now))
              (wanted input w.now) w.gitea_syncs;
      })
]

unfoldable pub enqueue_gitea_sync : SyncInput → Effect (Unit {0})
unfolding write_sync
enqueue_gitea_sync input =
    transaction
      (require_current input.identity (stale_gitea_sync input.identity.run_id) >> write_sync input)
