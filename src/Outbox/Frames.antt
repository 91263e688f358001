-- ===== src/Outbox/Frames.antt =====
-- The publisher of apps/worker/src/workflow/outbox.ts leaves the runs alone, however its jobs are received.
use code_host.Prelude.{
  ℕ, ◌+◌, String, Bool, List, [], ◌∷◌, Option, none, some, keep, take, ◌≡◌, arith,
}
use code_host.Workflow.{WorkflowJob, parse_workflow_job}
use code_host.Database.Tables.{OutboxRow, RunRow, World}
use code_host.Database.Effects.{Fault, ◌>>◌}
use code_host.Database.Keeps.{bind-keeps, recover-keeps}
use code_host.Prelude.Text.{clip}
use code_host.Queue.{dispatch}
use code_host.Outbox.{
  lease_ms, max_batch, is_due, claim, fail, mark_published, deliver, publish_claimed, publish,
  publish_all, poll,
}

module _ (runs : List RunRow) (accepts : WorkflowJob → World → Bool)
    (message : Fault → String) where
  abbrev pub Same : World → Type 0
  Same w = w.runs ≡ runs

  claim-Same : (key : String) (w : World) → Same w → Same (claim key w).1
  unfolding claim
  claim-Same key w same = ground arith

  fail-Same : (key text : String) (until : ℕ) (w : World) → Same w → Same (fail key text until w).1
  unfolding fail
  fail-Same key text until w same = same

  mark-Same : (key : String) (until : ℕ) (w : World) → Same w → Same (mark_published key until w).1
  unfolding mark_published
  mark-Same key until w same = same

  dispatch-Same : (job : WorkflowJob) (w : World) → Same w → Same (dispatch accepts job w).1
  unfolding dispatch
  dispatch-Same job w same = ground arith

  deliver-Same :
      (key : String) (until : ℕ) (job : Option WorkflowJob) (w : World)
      → Same w
      → Same (deliver (dispatch accepts) message key until job w).1
  unfolding deliver
  deliver-Same key until none w same = fail-Same key "INVALID_WORKFLOW_PAYLOAD" until w same
  deliver-Same key until (some job) w same =
      recover-keeps Same (dispatch accepts job >> mark_published key until)
        (λ e. fail key (clip 1000 (message e)) until)
        (λ v p.
          bind-keeps Same (dispatch accepts job) (λ _. mark_published key until) (dispatch-Same job)
            (λ _ u q. mark-Same key until u q) v p)
        (λ e v p. fail-Same key (clip 1000 (message e)) until v p) w same

  publish_claimed-Same :
      (key : String) (until : ℕ) (row : Option OutboxRow) (w : World)
      → Same w
      → Same (publish_claimed (dispatch accepts) message key until row w).1
  unfolding publish_claimed
  publish_claimed-Same key until none w same = same
  publish_claimed-Same key until (some row) w same =
      deliver-Same key until (parse_workflow_job row.payload) w same

  publish-Same :
      (key : String) (w : World) → Same w → Same (publish (dispatch accepts) message key w).1
  unfolding publish
  publish-Same key w same =
      bind-keeps Same (claim key)
        (publish_claimed (dispatch accepts) message key (w.now + lease_ms)) (claim-Same key)
        (publish_claimed-Same key (w.now + lease_ms)) w same

  publish_all-Same :
      (rows : List OutboxRow) (w : World)
      → Same w
      → Same (publish_all (dispatch accepts) message rows w).1
  unfolding publish_all
  publish_all-Same [] w same = same
  publish_all-Same (row ∷ rows) w same =
      bind-keeps Same (publish (dispatch accepts) message row.dedupe_key)
        (λ _. publish_all (dispatch accepts) message rows) (publish-Same row.dedupe_key)
        (λ _ v p. publish_all-Same rows v p) w same

  pub poll-Same : (w : World) → Same w → Same (poll (dispatch accepts) message w).1
  unfolding poll
  poll-Same w same = publish_all-Same (take max_batch (keep (is_due w.now) w.outbox)) w same
