-- ===== src/Database/Capacity.antt =====
-- packages/db/drizzle/0005_run_capacity_triggers.sql: before a run's status is written the database
-- itself bounds the queued runs by three and the active ones by one. Both triggers fire by name,
-- the active one first.
use code_host.Prelude.{Bool, false, List, Option, none, some, count, update, leb, if◌then◌else◌}
use code_host.RunStatus.{RunStatus, queued, rejected_by_capacity, same_status, holds_execution_lock}
use code_host.Database.Tables.{RunRow}

abbrev pub is_active : RunRow → Bool
is_active r = holds_execution_lock r.status

abbrev pub is_queued : RunRow → Bool
is_queued r = same_status r.status queued

abbrev old_is : (RunStatus → Bool) → Option RunStatus → Bool
old_is p none = false
old_is p (some old) = p old

-- `enforce_active_run_capacity`; `old` is `none` on an insert.
enforce_active_run_capacity : List RunRow → Option RunStatus → RunStatus → RunStatus
enforce_active_run_capacity runs old new =
    if holds_execution_lock new
    then if old_is holds_execution_lock old
      then new
      else if leb 1 (count is_active runs)
      then rejected_by_capacity
      else new
    else new

-- `enforce_queued_run_capacity`
enforce_queued_run_capacity : List RunRow → Option RunStatus → RunStatus → RunStatus
enforce_queued_run_capacity runs old new =
    if same_status new queued
    then if old_is (λ s. same_status s queued) old
      then new
      else if leb 3 (count is_queued runs)
      then rejected_by_capacity
      else new
    else new

unfoldable pub admit : List RunRow → Option RunStatus → RunStatus → RunStatus
unfolding enforce_active_run_capacity enforce_queued_run_capacity holds_execution_lock
admit runs old new = enforce_queued_run_capacity runs old (enforce_active_run_capacity runs old new)

-- `update runs set status = to, … where p`: the row that `f` builds, with the status that the
-- triggers admit.
unfoldable pub update_status :
    (RunRow → Bool) → RunStatus → (RunRow → RunRow) → List RunRow → List RunRow
update_status p to f runs =
    update p (λ r. record (f r) { status = admit runs (some r.status) to }) runs
