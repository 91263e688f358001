-- ===== src/Queue.antt =====
-- PgBossWorkflowQueue of apps/worker/src/queue.ts. pg-boss itself is `accepts`, whether `send` gives
-- an id, and the list of the jobs that it holds. What it gives a worker, and how often, is not part
-- of the model: the theorems on the handler hold for any payload in any state.
use code_host.Prelude.{Bool, List, [], ◌∷◌, ◌++◌, if◌then◌else◌}
use code_host.Json.{Value}
use code_host.Workflow.{WorkflowJob}
use code_host.Database.Tables.{World}
use code_host.Database.Effects.{queue_rejected, Effect, pure, throw, ◌>>◌}

unfoldable pub dispatch : (WorkflowJob → World → Bool) → WorkflowJob → Effect (Unit {0})
dispatch accepts job w =
    if accepts job w
    then pure tt (record w { queue = w.queue ++ job ∷ [] })
    else throw queue_rejected w

-- The callback of `boss.work` on a batch: the first throw ends it.
unfoldable pub work : (Value → Effect (Unit {0})) → List Value → Effect (Unit {0})
work handle [] = pure tt
work handle (item ∷ items) = handle item >> work handle items
