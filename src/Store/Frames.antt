-- ===== src/Store/Frames.antt =====
-- What the writes of apps/worker/src/workflow/db-adapter.ts leave alone.
use code_host.Prelude.{
  find?, ◌&&◌, str_eq, ◌==◌, ◌≡◌, ◌∙◌, refl, Bool-cases, Option-cases, inl, inr,
}
use code_host.Database.Tables.{World}
use code_host.Database.Effects.{Fault, stale_gitea_sync, ◌>>=◌}
use code_host.Database.Keeps.{transaction-keeps, bind-keeps}
use code_host.Store.{RunIdentity, find_run, require_current}
use code_host.Store.Syncs.{
  SyncInput, is_sync_of, is_leased, sync_index, write_sync, enqueue_gitea_sync,
}

pub require_current-world :
    (k : RunIdentity) (f : Fault) (w : World) → (require_current k f w).1 ≡ w
require_current-world k f w = elim (Option-cases (find_run k.run_id w)) [
  | inl absent ↦ rw (absent, require_current) refl
  | inr (row, found) ↦
      rw (found, require_current)
        (elim (Bool-cases (row.current_attempt == k.attempt && str_eq row.head_sha k.head_sha)) [
          | inl current ↦ rw current refl
          | inr stale ↦ rw stale refl
        ])
]

abbrev pub SameRuns : World → World → Type 0
SameRuns w v = (v.runs ≡ w.runs) × (v.run_steps ≡ w.run_steps)

write_sync-same : (input : SyncInput) (w : World) → SameRuns w (write_sync input w).1
unfolding write_sync
write_sync-same input w = elim (Option-cases (find? (is_sync_of input) w.gitea_syncs)) [
  | inl absent ↦ rw (absent, write_sync) (refl, refl)
  | inr (row, found) ↦
      rw (found, write_sync)
        (elim (Bool-cases
          (str_eq row.desired_hash input.desired_hash && sync_index row.sync_status == 1)) [
            | inl done ↦ rw done (refl, refl)
            | inr todo ↦ rw todo (elim (Bool-cases (is_leased row.lease_until w.now)) [
              | inl leased ↦ rw leased (refl, refl)
              | inr free ↦ rw free (refl, refl)
            ])
          ])
]

-- A request for a sync changes no run and no step, however it ends.
pub enqueue_gitea_sync-same :
    (input : SyncInput) (w : World) → SameRuns w (enqueue_gitea_sync input w).1
unfolding enqueue_gitea_sync
enqueue_gitea_sync-same input w =
    transaction-keeps (SameRuns w)
      (require_current input.identity (stale_gitea_sync input.identity.run_id) >>= λ _.
        write_sync input)
      (bind-keeps (SameRuns w)
        (require_current input.identity (stale_gitea_sync input.identity.run_id))
        (λ _. write_sync input)
        (λ v p.
          rw (require_current-world input.identity (stale_gitea_sync input.identity.run_id) v) p)
        (λ _ v p. ((write_sync-same input v).0 ∙ p.0, (write_sync-same input v).1 ∙ p.1)))
      w (refl, refl)
