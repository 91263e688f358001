-- ===== src/Gitea/Frames.antt =====
-- The publisher of apps/worker/src/gitea/sync.ts leaves the runs alone.
use code_host.Prelude.{String, ℕ, ◌+◌, List, [], ◌∷◌, Option, none, some, ◌≡◌, ◌∙◌, refl, arith}
use code_host.Prelude.Result.{Result, ok, err}
use code_host.Database.Tables.{SyncRow, World}
use code_host.Database.Effects.{Fault}
use code_host.Gitea.{Server}
use code_host.Gitea.Exchange.{Written, write_artifact, repository_parts}
use code_host.Gitea.Publisher.{
  lease_ms, SyncKey, key_of, claim, mark_synced, fail_sync, finish, publish_claimed, publish,
  DueSync, due_syncs, publish_all, poll,
}

claim_sync-runs : (key : SyncKey) (w : World) → (claim key w).1.runs ≡ w.runs
unfolding claim
claim_sync-runs key w = ground arith

finish-runs :
    (message : Fault → String) (key : SyncKey) (until attempts : ℕ) (r : Result Fault Written)
    (w : World)
    → (finish message key until attempts r w).runs ≡ w.runs
unfolding finish mark_synced fail_sync
finish-runs message key until attempts (ok written) w = refl
finish-runs message key until attempts (err e) w = refl

module _ {G : Type 0} (server : Server G) (message : Fault → String) where
  publish_claimed-runs :
      (key : SyncKey) (full_name : String) (number until : ℕ) (row : Option SyncRow) (w : World)
      (g : G)
      → (publish_claimed server message (λ v. v) key full_name number until row w g).0.runs ≡ w.runs
  unfolding publish_claimed
  publish_claimed-runs key full_name number until none w g = refl
  publish_claimed-runs key full_name number until (some row) w g =
      finish-runs message key until row.attempts
        (write_artifact server row number (repository_parts full_name) g).0 w

  publish_all-runs :
      (rows : List DueSync) (w : World) (g : G)
      → (publish_all server message (λ v. v) rows w g).0.runs ≡ w.runs
  unfolding publish_all publish
  publish_all-runs [] w g = refl
  publish_all-runs (due ∷ rest) w g =
      let claimed = claim (key_of due.sync) w in
      let after =
        publish_claimed server message (λ v. v) (key_of due.sync) due.repository_full_name
          due.pull_request_number (w.now + lease_ms) claimed.0 claimed.1 g in
      publish_all-runs rest after.0 after.1
      ∙ publish_claimed-runs (key_of due.sync) due.repository_full_name due.pull_request_number
          (w.now + lease_ms) claimed.0 claimed.1 g
      ∙ claim_sync-runs (key_of due.sync) w

  pub poll-runs : (w : World) (g : G) → (poll server message (λ v. v) w g).0.runs ≡ w.runs
  unfolding poll
  poll-runs w g = publish_all-runs (due_syncs w) w g
