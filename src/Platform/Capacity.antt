-- ===== src/Platform/Capacity.antt =====
-- What every step of the platform leaves true of the runs.
use code_host.Prelude.{refl}
use code_host.Database.Tables.{World}
use code_host.Database.Counting.{IsWithinCapacity}
use code_host.Outbox.Frames.{poll-Same}
use code_host.Gitea.Frames.{poll-runs}
use code_host.Api.Cancel.Bounds.{cancel-IsWithinCapacity}
use code_host.Api.Retry.Outcomes.{retry-IsWithinCapacity}
use code_host.Webhook.Deliveries.{accept-IsWithinCapacity}
use code_host.Retention.Cleanups.{queue_expired_cleanup-IsWithinCapacity}
use code_host.Consumer.Capacity.{KeepsBounds, worker-IsWithinCapacity}
use code_host.Platform.{
  Surroundings, IsStep, handling, publication, sync_publication, sweep, cancellation, retrial,
  delivery, passage, IsReachable, here, after,
}

module _ (s : Surroundings) (kept : KeepsBounds s.environment) where
  step-IsWithinCapacity :
      {w v : World} → IsStep s w v → IsWithinCapacity w.runs → IsWithinCapacity v.runs
  step-IsWithinCapacity {w} (handling payload) c =
      worker-IsWithinCapacity s.environment payload w kept c
  step-IsWithinCapacity {w} publication c =
      rw (poll-Same w.runs s.environment.accepts s.message w refl) c
  step-IsWithinCapacity {w} (sync_publication g) c = rw (poll-runs s.server s.message w g) c
  step-IsWithinCapacity {w} sweep c = queue_expired_cleanup-IsWithinCapacity w c
  step-IsWithinCapacity {w} (cancellation user id) c = cancel-IsWithinCapacity user id w c
  step-IsWithinCapacity {w} (retrial max user row confirmed) c =
      retry-IsWithinCapacity max user row confirmed w c
  step-IsWithinCapacity {w} (delivery raw payload id) c =
      accept-IsWithinCapacity s.setting raw payload id w c
  step-IsWithinCapacity {w} (passage ms) c = c

  -- In every state that the platform reaches, by jobs, publications, sweeps, cancellations, retries and webhook
  -- deliveries in any order and at any times, at most one run is active, at most three wait and no two have
  -- one id, if so it was at the start, and if the step executor, the writing of reports and what others do
  -- while a step runs keep it.
  pub reachable-IsWithinCapacity :
      {start w : World}
      → IsReachable s start w
      → IsWithinCapacity start.runs
      → IsWithinCapacity w.runs
  reachable-IsWithinCapacity here c = c
  reachable-IsWithinCapacity (after steps step) c =
      step-IsWithinCapacity step (reachable-IsWithinCapacity steps c)
