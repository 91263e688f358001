-- ===== src/Platform.antt =====
-- The parts of the platform on one database: the worker's jobs (apps/worker/src/workflow/consumer.ts), the two
-- publishers, the sweep of retention.ts, and the API's cancel, retry and webhook deliveries. Each is one step
-- here; between the steps time passes.
pub mod Capacity
use code_host.Prelude.{ℕ, ◌+◌, String, Bool, Option}
use code_host.Json.{Value}
use code_host.Database.Tables.{RunRow, World}
use code_host.Database.Effects.{Fault}
use code_host.Queue.{dispatch}
use code_host.Outbox.{poll}
use code_host.Api.Cancel.{cancel}
use code_host.Api.Retry.{retry}
use code_host.Gitea.{Server}
use code_host.Gitea.Publisher.{poll as poll_syncs}
use code_host.Webhook.Acceptance.{Setting, accept}
use code_host.Retention.{queue_expired_cleanup}
use code_host.Consumer.Advance.{handle}
use code_host.Consumer.Database.{Environment, database_dependencies}

-- What stands around the platform: the worker's environment, the API's configuration, the text of an error, and
-- Gitea with a state of its own.
pub record Surroundings : Type 1 where
  pub environment : Environment
  pub setting : Setting
  pub message : Fault → String
  pub Gitea : Type 0
  pub server : Server Gitea

module _ (s : Surroundings) where
  pub data IsStep (w : World) : World → Type 0 where
    handling :
        (payload : Value) → IsStep w (handle (database_dependencies s.environment) payload w).1
    publication : IsStep w (poll (dispatch s.environment.accepts) s.message w).1
    sync_publication : (g : s.Gitea) → IsStep w (poll_syncs s.server s.message (λ v. v) w g).0
    sweep : IsStep w (queue_expired_cleanup w).1
    cancellation : (user : ℕ) (id : String) → IsStep w (cancel user id w).1
    retrial :
        (max user : ℕ) (row : RunRow) (confirmed : Bool)
        → IsStep w (retry max user row confirmed w).1
    delivery :
        (raw : String) (payload : Value) (id : Option String)
        → IsStep w (accept s.setting raw payload id w).1
    passage : (ms : ℕ) → IsStep w (record w { now = w.now + ms })

  -- The states that steps lead to.
  pub data IsReachable (start : World) : World → Type 0 where
    here : IsReachable start start
    after : {w v : World} → IsReachable start w → IsStep w v → IsReachable start v
