-- ===== src/Retention.antt =====
-- RetentionWorker of apps/worker/src/retention.ts: what a sweep deletes and what it queues again. The findings
-- and the sessions, which are deleted as the reports are, are not in the model's state.
pub mod Cleanups
pub mod Namespaces
use code_host.Prelude.{
  ℕ, suc, ◌+◌, String, Bool, true, false, List, [], ◌∷◌, ◌++◌, Option, none, some, find?, any,
  count, keep, take, length, update, str_eq, ltb, leb, ◌==◌, ◌&&◌, ◌||◌, not, is_some,
  if◌then◌else◌,
}
use code_host.Prelude.Text.{◌++◌ as append, decimal}
use code_host.Prelude.Result.{Result, ok, err}
use code_host.Json.{Value, text, object, Fields, get}
use code_host.RunStatus.{
  RunStatus, passed, failed, incomplete, cancelled, includes, CleanupStatus, not_scheduled,
  cleanup_failed, same_cleanup,
}
use code_host.Workflow.{cleanup}
use code_host.Database.Tables.{RunRow, OutboxRow, ReportRow, StepRow, World}
use code_host.Database.Effects.{Fault}
use code_host.Store.{has_id, find_run}
use code_host.Outbox.{has_key, find_outbox, outbox_index}
use code_host.Api.{create_workflow_outbox_dedupe_key, new_outbox}
use code_host.Api.Cancel.{renewed}
use code_host.Gitea.{Remote, ◌>=◌}

abbrev pub terminal_run_statuses : List RunStatus
terminal_run_statuses = passed ∷ failed ∷ incomplete ∷ cancelled ∷ []

abbrev pub max_cleanup_retries : ℕ
max_cleanup_retries = 3

-- `lte(column, now)` on a nullable column, which no null passes.
abbrev pub is_past : ℕ → Option ℕ → Bool
is_past now none = false
is_past now (some at) = leb at now

unfoldable pub namespace_may_be_collected : Bool → Bool → Bool
namespace_may_be_collected run_exists due = due && not run_exists

-- The runs whose cleanup a sweep looks at.
unfoldable pub is_cleanup_candidate : ℕ → RunRow → Bool
is_cleanup_candidate now r =
    includes terminal_run_statuses r.status
    && ((same_cleanup r.cleanup_status not_scheduled
          || same_cleanup r.cleanup_status cleanup_failed)
        && (is_past now r.preview_expires_at || is_past now r.finished_at))

abbrev pub cleanup_key : RunRow → String
cleanup_key r = create_workflow_outbox_dedupe_key r.id cleanup r.current_attempt

abbrev pub attempts_of : Option OutboxRow → ℕ
attempts_of none = 0
attempts_of (some row) = row.attempts

unfoldable pub exceeded : ℕ → ℕ → RunRow → RunRow
exceeded attempts now r = record r {
  cleanup_error = some (append "max retries exceeded (" (append (decimal attempts) " attempts)"));
  updated_at = now;
}

-- `inArray(workflowOutbox.status, ['FAILED', 'PUBLISHED'])`
abbrev pub is_renewable : OutboxRow → Bool
is_renewable row = outbox_index row.status == 1 || outbox_index row.status == 2

-- The insert of the cleanup's job, or the update of the row that has the key; with the number of rows that it
-- has written.
unfoldable pub upsert_cleanup : RunRow → World → ℕ × World
unfolding new_outbox renewed
upsert_cleanup run w =
    let key = cleanup_key run in
    if any (has_key key) w.outbox
    then (
      count (λ r. has_key key r && is_renewable r) w.outbox,
      record w { outbox = update (λ r. has_key key r && is_renewable r) (renewed w.now) w.outbox },
    )
    else (
      1,
      record w { outbox = w.outbox ++ new_outbox run run.current_attempt cleanup w.now ∷ [] },
    )

unfoldable pub queue_cleanup : RunRow → World → ℕ × World
unfolding upsert_cleanup exceeded
queue_cleanup run w =
    let attempts = attempts_of (find_outbox (cleanup_key run) w) in
    if leb max_cleanup_retries attempts
    then (0, record w { runs = update (has_id run.id) (exceeded attempts w.now) w.runs })
    else upsert_cleanup run w

unfoldable pub queue_cleanups : List RunRow → World → ℕ × World
unfolding queue_cleanup
queue_cleanups [] w = (0, w)
queue_cleanups (run ∷ runs) w =
    let first = queue_cleanup run w in
    let rest = queue_cleanups runs first.1 in (first.0 + rest.0, rest.1)

unfoldable pub queue_expired_cleanup : World → ℕ × World
unfolding queue_cleanups is_cleanup_candidate
queue_expired_cleanup w = queue_cleanups (take 100 (keep (is_cleanup_candidate w.now) w.runs)) w

-- `deleteExpired` on the reports.
unfoldable pub delete_expired_reports : World → ℕ × World
delete_expired_reports w = (
  count (λ r. leb r.expires_at w.now) w.reports,
  record w { reports = keep (λ r. not (leb r.expires_at w.now)) w.reports },
)
