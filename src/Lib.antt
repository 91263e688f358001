-- ===== src/Lib.antt =====
-- CodeHost checks pull requests: each head of a pull request gets a run, which goes through eleven
-- steps (detect to cleanup) on a worker, and its verdict is reported to Gitea. This library is a model
-- of the core of that program, with the theorems that make it correct.
--
-- The parts and their files:
--   * RunStatus (packages/contracts/src/run-status.ts): the statuses of a run and of its cleanup, the
--     transition table (RUN_STATUS_TRANSITIONS is `run_status_transitions`, isValidRunStatusTransition
--     is `is_valid_run_status_transition`, canRetryRun is `can_retry_run`). RunStatus/Lifecycle follows
--     chains of transitions.
--   * Workflow (apps/worker/src/workflow/types.ts): steps, records, results, jobs and parseWorkflowJob.
--     Workflow/Plan is plan.ts (nextStepAction is `next_step_action`), Workflow/StateMachine is
--     state-machine.ts. The theorems are in Workflow/Jobs, Plan/Order, Plan/Skips and
--     StateMachine/Outcomes.
--   * Database/Tables (packages/db/src/schema.ts): a record for each row and `World`, the whole state:
--     the tables, the jobs that pg-boss holds, the clock, and a counter of drawn random values.
--     Database/Capacity is packages/db/drizzle/0005_run_capacity_triggers.sql, Database/Effects the
--     reading and writing of the state with throws and transactions; Counting and Keeps prove
--     what updates and effects leave true.
--   * Store and Guard (apps/worker/src/workflow/db-adapter.ts): DatabaseWorkflowStore and
--     DatabaseStepGuard, a definition for each method with its camelCase name in snake_case
--     (transitionRun is `transition_run`, runOnce is `run_once`). Guard also holds
--     isTerminalStepForRetry of step-guard.ts. Store/Syncs and Store/Resources hold the requests
--     for Gitea and the objects of the cluster. Store/Transitions, Store/Outcomes,
--     Store/Frames, Store/Snapshots, Guard/Leases, Guard/Writes and Guard/Skips prove what they do.
--   * Queue (apps/worker/src/queue.ts): dispatch, and the callback on a batch of jobs.
--   * Outbox (apps/worker/src/workflow/outbox.ts): poll, publish and fail; Outbox/Publication proves what
--     becomes of a row.
--   * Api (apps/api/src/run-operations.ts and run.controller.ts): cancel (Api/Cancel) and retry
--     (Api/Retry) of a run after the user's permission was checked, which put jobs into the outbox; and
--     in Api/Previews the answer about a run's preview, which reads what Config/Preview builds.
--   * Consumer (apps/worker/src/workflow/consumer.ts): the handler of a job over a record of
--     `Dependencies`, the interfaces of store.ts, step-guard.ts and executor.ts. Consumer/Advance holds
--     handle, advance and advanceCancellation, Consumer/Finish the phases, the report, the cleanup and
--     the next job, Consumer/Details what of a step's details is stored, Consumer/Syncs the requests
--     for Gitea. Consumer/Rounds and Consumer/Keeps prove the loop's end and the rules for invariants
--     over any dependencies; Consumer/Database puts the handler on the database's store and guard as
--     apps/worker/src/main.ts does, and Consumer/Capacity, Verdicts and Redelivered prove what follows.
--   * Webhook (packages/contracts/src/webhook.ts, apps/api/src/webhook.service.ts): Webhook reads and checks
--     the payload, Webhook/Acceptance is `accept`, Webhook/Rows and Webhook/Service are its transaction, which
--     makes a run and its first job. Webhook/Capacity, Deliveries and Runs prove what comes of it.
--   * Gitea (apps/worker/src/gitea): Gitea is the client, Gitea/Exchange and Gitea/Publisher are sync.ts, which
--     writes the wanted comments and statuses. Gitea/Paging, Settled and Comments prove what stands in Gitea
--     afterwards, Backoff, Names and Leases what stands in the rows.
--   * Retention (apps/worker/src/retention.ts): the cleanups that a sweep queues again, and in
--     Retention/Namespaces the namespaces that it deletes.
--   * Config (packages/config/src/index.ts): the settings of the platform. Config/Aliases is
--     normalizeEnvironmentAliases, Config/Rules the rules between the settings and loadConfig, with
--     Config/Consistency and Config/Loading about them. Config/Preview is the reference of a preview's
--     Service, which Config/References shows to be read as it was written; Config/Commands are the
--     commands that reach a preview, and Config/Quoting is about their words. The schema of the single
--     variables, which zod computes, is the parameter `base_schema`.
--   * Kubernetes (packages/k8s/src): Kubernetes/Reconcile is reconcile.ts, Kubernetes/Profiles profiles.ts;
--     Kubernetes/Ownership and Detection prove what they write and find. Kubernetes/Validation has the
--     tests of names, attempts and ports of validation.ts, Kubernetes/Images and Registries those of images
--     and of the hosts of their registries; health paths and ingress hosts are left out.
--   * Guard/Spec is what the StepGuard of step-guard.ts promises, Guard/Memory its InMemoryStepGuard;
--     Guard/Refinement and Guard/Promises prove that the two guards keep the promise.
--   * Platform: all of the above that writes to the database as steps from state to state.
--   * AgentReport (packages/contracts/src/agent-report.ts): the reports of the agent's review, and the check
--     of their findings against the changed lines.
--   * Json: values of unknown type, and their text. Prelude: lists, tests, results and strings.
--   * Scenarios: the theorems at concrete states.
--
-- How the code is read:
--   * An async method is an effect, a function from the state to a result and a new state. A throw
--     keeps what was written before it, unless it was in a transaction. A transaction under its
--     advisory lock is one step. What others do while a step of a run is executed is a list of arbitrary
--     changes of the state between the heartbeats, and the step itself is an arbitrary effect.
--   * Rows of run_steps, reports, gitea_syncs, k8s_resources and workflow_outbox are named by their
--     unique keys and not by the generated id. That keys are unique is a hypothesis (`HasUniqueIds`,
--     `HasUniqueSteps`) where it is needed.
--   * Times are milliseconds, read from the state's clock. Statuses in rows are the enumerations and
--     not strings. Strings are cut by code points. Numbers are natural numbers: where
--     the code subtracts, it takes the maximum with 0 or has compared the two before.
--   * The loop of `advance` is a recursion on twelve rounds, one more than there are steps. It never uses
--     them up over the database, since each round but the last settles a step for good.
--   * Parameters stand for what is not in the repository: the random tokens, the platform's date parser
--     and digest, the text of an error, pg-boss (whether it accepts a job). The step executor and the
--     writing of a report are parameters too, and may be any effect.
--
--   * What answers HTTP requests is a parameter with a state of its own: Gitea (`Server`) and the cluster
--     (`ResourceClient`, `NamespaceClient`). What a theorem needs of them is a hypothesis, such as that Gitea
--     keeps comments in a list and lists them in pages of fifty (`KeepsComments`); any request may fail, also
--     after it was carried out. The client reads ten pages at most, as the code does.
--   * The transaction of a webhook delivery is one step, though the code takes its lock only before it counts
--     the runs. The keys of an object of the cluster are compared by code points.
--
-- Not modelled here: the Kubernetes and fixture executors, the objects that packages/k8s/src/builders.ts makes,
-- the images and log files that retention deletes, the other reads, the permissions and the signature test of the API, the
-- agent's review and the patterns in the schema of its reports, the worker's own reading of its environment and the web interface; logging and
-- HTTP, which are input and output.
pub mod Prelude
pub mod RunStatus
pub mod Json
pub mod Workflow
pub mod Database
pub mod Store
pub mod Gitea
pub mod Kubernetes
pub mod Webhook
pub mod Retention
pub mod Guard
pub mod AgentReport
pub mod Config
pub mod Consumer
pub mod Queue
pub mod Outbox
pub mod Api
pub mod Platform
pub mod Scenarios
