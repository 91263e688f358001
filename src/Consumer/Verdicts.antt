-- ===== src/Consumer/Verdicts.antt =====
-- How apps/worker/src/workflow/consumer.ts ends a run over the database: the verdict after a report,
-- and the confirmed cancellation after a cleanup.
use code_host.Prelude.{
  String, Bool, true, false, List, Option, none, some, str_eq, eq_iff, ◌==◌, ◌&&◌, ◌≡◌, ◌∙◌, refl,
  sym, ap, arith, find?-holds,
}
use mathlib.Core.Option
use code_host.Prelude.Result.{ok}
use code_host.RunStatus.{
  RunStatus, reporting, cancel_requested, cancelled, cleaned, same_cleanup, allows,
  is_terminal_run_status,
}
use code_host.Workflow.{RunSnapshot, StepRecord, WorkflowJob}
use code_host.Workflow.StateMachine.{derive_final_run_status}
use code_host.Database.Tables.{RunRow, World}
use code_host.Database.Capacity.{admit}
use code_host.Database.Counting.{HasUniqueIds}
use code_host.Store.{RunIdentity, has_id, find_run, cleanup_row, get_run, set_cleanup_status}
use code_host.Store.Transitions.{permitted, transition_run-decides, transition_run-row}
use code_host.Guard.Rows.{records_of, list}
use code_host.Consumer.Interface.{identity_of}
use code_host.Consumer.Finish.{finish_run, finalize_report, cleanup_done}
use code_host.Consumer.Database.{Environment, database_dependencies}
use code_host.Store.Snapshots.{
  IsSnapshotOf, join_run-snapshot, get_run-row, set_cleanup_status-row, read_after_cleanup,
  cancel_cleaned, run_ends_in,
}

derive_final-allowed :
    (records : List StepRecord) (c : Bool)
    → allows reporting (derive_final_run_status records) c ≡ true
unfolding derive_final_run_status allows
derive_final-allowed records c = ground arith

reporting_goes_on : is_terminal_run_status reporting ≡ false
unfolding is_terminal_run_status
reporting_goes_on = ground arith

admit-verdict :
    (runs : List RunRow) (records : List StepRecord)
    → admit runs (some reporting) (derive_final_run_status records)
      ≡ derive_final_run_status records
unfolding derive_final_run_status admit
admit-verdict runs records = ground arith

-- A snapshot that is current for an identity was read from a row that is.
snapshot-permitted :
    (k : RunIdentity) (to : RunStatus) (row : RunRow) (run' : RunSnapshot)
    → IsSnapshotOf row run'
    → (run'.attempt == k.attempt && str_eq run'.head_sha k.head_sha) ≡ true
    → allows run'.status to (same_cleanup row.cleanup_status cleaned) ≡ true
    → permitted k to row ≡ true
snapshot-permitted k to row run' s current allowed =
    rw (sym s.attempt) (rw (sym s.head_sha) (rw (sym s.status) (rw current allowed)))

abbrev pub run_status_in : String → World → Option RunStatus
run_status_in id w = Option.map (λ r. r.status) (find_run id w)

-- Over the database, with unique run ids, a run that is read in REPORTING with the job's attempt
-- and head gets the verdict that is derived from the records of its attempt, whatever else the
-- state holds; nothing is thrown.
pub finalize_report-verdict :
    (e : Environment) (job : WorkflowJob) (w : World) (run' : RunSnapshot)
    → HasUniqueIds w.runs
    → get_run job.run_id w ≡ (ok (some run'), w)
    → run'.status ≡ reporting
    → (run'.attempt == job.attempt && str_eq run'.head_sha job.head_sha) ≡ true
    → ((finalize_report (database_dependencies e) job w).0 ≡ ok tt)
      × (run_status_in job.run_id (finalize_report (database_dependencies e) job w).1
          ≡ some (derive_final_run_status (records_of job.run_id job.attempt w)))
unfolding finalize_report finish_run list
finalize_report-verdict e job w run' unique read reports current =
    let (row, found, joined) = get_run-row job.run_id w run' read in
    let snapshot = join_run-snapshot w row run' joined in
    let verdict = derive_final_run_status (records_of job.run_id job.attempt w) in
    let allowed : permitted (identity_of job) verdict row ≡ true =
      snapshot-permitted (identity_of job) verdict row run' snapshot current
        (rw reports (derive_final-allowed (records_of job.run_id job.attempt w) _)) in
    let reason : Option String = some "workflow report finalized" in
    (
      rw read (
          rw reports (
            rw reporting_goes_on (
              rw (transition_run-decides (identity_of job) verdict reason w row unique found)
                (rw allowed refl)))),
      rw read (
          rw reports (
            rw reporting_goes_on (
              ap (Option.map (λ r. r.status))
                (transition_run-row (identity_of job) verdict reason w row unique found allowed)
              ∙ ap some (
                  ap (λ s. admit w.runs (some s) verdict) (sym snapshot.status ∙ reports)
                  ∙ admit-verdict w.runs (records_of job.run_id job.attempt w))))),
    )

-- After a cleanup that passed, a run that is read in CANCEL_REQUESTED, with the job's attempt and
-- head and with unique run ids, ends CANCELLED with its cleanup CLEANED, and nothing is thrown.
pub cleanup_done-cancels :
    (e : Environment) (job : WorkflowJob) (w : World) (run' : RunSnapshot)
    → HasUniqueIds w.runs
    → get_run job.run_id w ≡ (ok (some run'), w)
    → run'.status ≡ cancel_requested
    → (run'.attempt == job.attempt && str_eq run'.head_sha job.head_sha) ≡ true
    → ((cleanup_done (database_dependencies e) run' job w).0 ≡ ok tt)
      × (run_ends_in job.run_id (cleanup_done (database_dependencies e) run' job w).1
          ≡ some (cancelled, cleaned))
unfolding cleanup_done
cleanup_done-cancels e job w run' unique read cancelling current =
    let (row, found, joined) = get_run-row job.run_id w run' read in
    let snapshot = join_run-snapshot w row run' joined in
    let k = identity_of job in
    let same_row : (row.current_attempt == job.attempt && str_eq row.head_sha job.head_sha) ≡ true =
      rw (sym snapshot.attempt) (rw (sym snapshot.head_sha) current) in
    let row_id = find?-holds (has_id job.run_id) w.runs found in
    let (set, found', unique') =
      set_cleanup_status-row k cleaned none w row unique found (ground arith) in
    let (again, read', snapshot') = read_after_cleanup k cleaned none w row run' joined found' in
    let to_cancel : again.status ≡ cancel_requested =
      snapshot'.status ∙ (sym snapshot.status ∙ cancelling) in
    let named : run'.id ≡ job.run_id = snapshot.id ∙ (eq_iff row.id job.run_id).0 row_id in
    let (moved, ends) =
      cancel_cleaned k (some "cleanup confirmed after cancellation request")
        (set_cleanup_status k cleaned none w).1 (cleanup_row cleaned none w.now row) unique' found'
        same_row (sym snapshot.status ∙ cancelling) refl in
    (
      rw set (rw read' (rw to_cancel (rw named moved))),
      rw set (rw read' (rw to_cancel (rw named ends))),
    )
