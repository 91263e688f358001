-- ===== src/Store.antt =====
-- DatabaseWorkflowStore of apps/worker/src/workflow/db-adapter.ts: reads and guarded writes of a run.
pub mod Syncs
pub mod Resources
pub mod Frames
pub mod Transitions
pub mod Outcomes
pub mod Snapshots
use code_host.Prelude.{
  ℕ, String, Bool, true, false, List, [], ◌∷◌, Option, none, some, find?, count, update, str_eq,
  ◌==◌, ◌&&◌, ◌||◌, not, if◌then◌else◌,
}
use code_host.Prelude.Text.{clip}
use code_host.Json.{Fields, spread}
use code_host.RunStatus.{
  RunStatus, planning, passed, failed, incomplete, CleanupStatus, pending, cleaned, cleanup_failed,
  same_status, same_cleanup, status_text, is_valid_run_status_transition, is_terminal_run_status,
}
use code_host.Workflow.{StepKey, same_step, RunSnapshot}
use code_host.Database.Tables.{RepositoryRow, PullRequestRow, RunRow, StepRow, World}
use code_host.Database.Effects.{
  Fault, run_not_found, stale_run_identity, invalid_run_transition, stale_run_transition,
  stale_cleanup_identity, stale_preview_identity, stale_execution_plan, stale_step_log,
  step_log_missing, Effect, pure, throw, gets, modify, transaction, ◌>>=◌, ◌>>◌,
}
use code_host.Database.Capacity.{update_status}

-- What every write names: the run, and the attempt and the head that the writer works for.
pub record RunIdentity : Type 0 where
  pub run_id : String
  pub attempt : ℕ
  pub head_sha : String

abbrev pub has_id : String → RunRow → Bool
has_id id r = str_eq r.id id

-- `eq(runs.id, …), eq(runs.currentAttempt, …), eq(runs.headSha, …)`
abbrev pub is_current : RunIdentity → RunRow → Bool
is_current k r =
    str_eq r.id k.run_id && (r.current_attempt == k.attempt && str_eq r.head_sha k.head_sha)

abbrev pub find_run : String → World → Option RunRow
find_run id w = find? (has_id id) w.runs

unfoldable pub as_run_snapshot : RunRow → RepositoryRow → PullRequestRow → RunSnapshot
as_run_snapshot row repository pull_request = record {
  id = row.id;
  attempt = row.current_attempt;
  head_sha = row.head_sha;
  status = row.status;
  cleanup_status = row.cleanup_status;
  execution_plan = row.execution_plan;
  repository_full_name = some repository.full_name;
  pull_request_number = some pull_request.external_number;
}

-- The inner joins of `getRun`.
unfoldable pub join_run : World → RunRow → Option RunSnapshot
unfolding as_run_snapshot
join_run w row = elim (find? (λ p. str_eq p.id row.repository_id) w.repositories) [
  | none ↦ none
  | some repository ↦ elim (find? (λ p. str_eq p.id row.pull_request_id) w.pull_requests) [
    | none ↦ none
    | some pull_request ↦ some (as_run_snapshot row repository pull_request)
  ]
]

unfoldable pub get_run : String → Effect (Option RunSnapshot)
unfolding join_run
get_run run_id w = elim (find_run run_id w) [
  | none ↦ pure none w
  | some row ↦ pure (join_run w row) w
]

-- The verdict that a transition writes, where it writes one.
abbrev verdict_of : RunStatus → Option RunStatus → Option RunStatus
verdict_of to old =
    if same_status to passed || (same_status to failed || same_status to incomplete)
    then some to
    else old

abbrev error_code_of : Option String → Option String → Option String
error_code_of none old = old
error_code_of (some reason) old = some (clip 128 reason)

abbrev started_at_of : RunStatus → ℕ → Option ℕ → Option ℕ
started_at_of to now none = if same_status to planning then some now else none
started_at_of to now (some at) = some at

-- The columns beside the status that `transitionRun` sets.
unfoldable pub transitioned : RunStatus → Option String → ℕ → RunRow → RunRow
transitioned to reason now r = record r {
  updated_at = now;
  started_at = started_at_of to now r.started_at;
  finished_at = if is_terminal_run_status to then some now else r.finished_at;
  verdict = verdict_of to r.verdict;
  error_code = error_code_of reason r.error_code;
}

-- `where id, status = row.status, attempt, head`
abbrev pub unmoved : RunIdentity → RunRow → RunRow → Bool
unmoved k row r = is_current k r && same_status r.status row.status

-- The guarded write; `row` is what the transaction has read.
pub write_transition : RunIdentity → RunStatus → Option String → RunRow → Effect (Unit {0})
unfolding transitioned
write_transition k to reason row w =
    if not (row.current_attempt == k.attempt) || not (str_eq row.head_sha k.head_sha)
    then throw (stale_run_identity k.run_id) w
    else if not (
        is_valid_run_status_transition (status_text row.status) (status_text to)
          (same_cleanup row.cleanup_status cleaned))
    then throw (invalid_run_transition row.status to) w
    else if not (count (unmoved k row) w.runs == 1)
    then throw (stale_run_transition k.run_id) w
    else pure tt
        (record w { runs = update_status (unmoved k row) to (transitioned to reason w.now) w.runs })

-- The body of the transaction.
read_transition : RunIdentity → RunStatus → Option String → Effect (Unit {0})
unfolding write_transition
read_transition k to reason w = elim (find_run k.run_id w) [
  | none ↦ throw (run_not_found k.run_id) w
  | some row ↦ write_transition k to reason row w
]

unfoldable pub transition_run : RunIdentity → RunStatus → Option String → Effect (Unit {0})
unfolding read_transition
transition_run k to reason = transaction (read_transition k to reason)

-- An update of the current run's row; nothing is undone when it does not touch exactly one row.
abbrev pub update_current : RunIdentity → (ℕ → RunRow → RunRow) → Fault → Effect (Unit {0})
update_current k f stale w =
    let w' = record w { runs = update (is_current k) (f w.now) w.runs } in
    if not (count (is_current k) w.runs == 1) then throw stale w' else pure tt w'

abbrev cleanup_error_of : CleanupStatus → Option String → Option String → Option String
cleanup_error_of status error_code old =
    if same_cleanup status pending || same_cleanup status cleaned
    then none
    else elim error_code [ none ↦ old | some code ↦ some code ]

-- The columns that `setCleanupStatus` sets.
abbrev pub cleanup_row : CleanupStatus → Option String → ℕ → RunRow → RunRow
cleanup_row status error_code now r = record r {
  cleanup_status = status;
  cleanup_at =
      if same_cleanup status cleaned || same_cleanup status cleanup_failed
      then some now
      else r.cleanup_at;
  cleanup_error = cleanup_error_of status error_code r.cleanup_error;
  updated_at = now;
}

unfoldable pub set_cleanup_status : RunIdentity → CleanupStatus → Option String → Effect (Unit {0})
set_cleanup_status k status error_code =
    update_current k (cleanup_row status error_code) (stale_cleanup_identity k.run_id)

unfoldable pub set_preview : RunIdentity → String → ℕ → Effect (Unit {0})
set_preview k preview_host expires_at =
    update_current k
      (λ now r. record r {
        preview_host = some preview_host;
        preview_expires_at = some expires_at;
        updated_at = now;
      })
      (stale_preview_identity k.run_id)

unfoldable pub set_execution_plan : RunIdentity → Fields → Effect (Unit {0})
set_execution_plan k plan w = elim (find_run k.run_id w) [
  | none ↦ throw (stale_execution_plan k.run_id) w
  | some row ↦
      if not (row.current_attempt == k.attempt) || not (str_eq row.head_sha k.head_sha)
      then throw (stale_execution_plan k.run_id) w
      else pure tt (record w {
        runs =
            update (is_current k)
              (λ r. record r {
                execution_plan = spread row.execution_plan plan;
                updated_at = w.now;
              })
              w.runs;
      })
]

-- A read in a transaction that only the current attempt and head pass.
abbrev pub require_current : RunIdentity → Fault → Effect (Unit {0})
require_current k stale w = elim (find_run k.run_id w) [
  | none ↦ throw stale w
  | some row ↦
      if row.current_attempt == k.attempt && str_eq row.head_sha k.head_sha
      then pure tt w
      else throw stale w
]

abbrev is_step : RunIdentity → StepKey → StepRow → Bool
is_step k step_key r =
    str_eq r.run_id k.run_id && (r.attempt == k.attempt && same_step r.step_key step_key)

write_step_log : RunIdentity → StepKey → String → ℕ → Effect (Unit {0})
write_step_log k step_key log_path expires_at w =
    if count (is_step k step_key) w.run_steps == 1
    then pure tt (record w {
      run_steps =
          update (is_step k step_key)
            (λ r. record r { log_path = some log_path; expires_at = some expires_at }) w.run_steps;
    })
    else throw (step_log_missing k.run_id) w

unfoldable pub save_step_log : RunIdentity → StepKey → String → ℕ → Effect (Unit {0})
unfolding write_step_log
save_step_log k step_key log_path expires_at =
    transaction
      (require_current k (stale_step_log k.run_id) >> write_step_log k step_key log_path expires_at)
