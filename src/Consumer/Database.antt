-- ===== src/Consumer/Database.antt =====
-- The worker as apps/worker/src/main.ts puts it together: the consumer over the database's store and
-- step guard and over pg-boss.
use code_host.Prelude.{
  ℕ, ◌≤◌, String, Bool, true, false, List, [], ◌∷◌, map, Option, some, find?, keep, str_eq, ◌==◌,
  ◌&&◌, not, if◌then◌else◌, ◌≡◌, ◌∙◌, refl, sym, ap, arith,
}
use mathlib.Core.Option
use code_host.Workflow.{StepKey, cleanup, same_step, StepResult, WorkflowJob, RunSnapshot}
use code_host.Workflow.Plan.{record_of, is_settled, is_ended, is_failed_or_incomplete}
use code_host.Database.Tables.{StepRow, World}
use code_host.Database.Effects.{Effect}
use code_host.Store.{
  RunIdentity, get_run, transition_run, set_cleanup_status, set_preview, set_execution_plan,
}
use code_host.Store.Syncs.{enqueue_gitea_sync}
use code_host.Guard.{is_row_of, find_row, is_terminal_step_for_retry, run_once}
use code_host.Store.Frames.{enqueue_gitea_sync-same}
use code_host.Guard.Skips.{mark_skipped-row, mark_skipped-others}
use code_host.Guard.Rows.{mark_skipped, step_record, is_of_attempt, records_of, list}
use code_host.Queue.{dispatch}
use code_host.Consumer.Interface.{Dependencies, ExecutionContext, ReportInput}
use code_host.Consumer.Advance.{advance, advance_within}
use code_host.Consumer.Rounds.{ReadsSteps, advance_terminates}

-- What the worker is put together from beside the database: the random bytes, what others do while a
-- step runs, the executor, the writing of reports, pg-boss, and the platform's date parser and digest.
pub record Environment : Type 0 where
  pub random : ℕ → String
  pub during : List (World → World)
  pub execute : ExecutionContext → Effect StepResult
  pub save_report : RunIdentity → ReportInput → Effect (Unit {0})
  pub accepts : WorkflowJob → World → Bool
  pub parse_date : String → Option ℕ
  pub sha256 : String → String

abbrev pub database_dependencies : Environment → Dependencies
database_dependencies e = record {
  get_run = get_run;
  transition_run = transition_run;
  set_cleanup_status = set_cleanup_status;
  set_preview = set_preview;
  set_execution_plan = set_execution_plan;
  save_report = e.save_report;
  enqueue_gitea_sync = enqueue_gitea_sync;
  run_once = run_once e.random e.during;
  mark_skipped = mark_skipped;
  list = list;
  execute = e.execute;
  dispatch = dispatch e.accepts;
  parse_date = e.parse_date;
  sha256 = e.sha256;
}

-- One row of the next lemma, on the values of the tests of run, attempt and step.
record_of-cons :
    (k : StepKey) (a b c : Bool) (r : StepRow) (kept : List StepRow) (found : Option StepRow)
    → same_step r.step_key k ≡ c
    → record_of (map step_record kept) k ≡ Option.map step_record found
    → record_of (map step_record (if a && b then r ∷ kept else kept)) k
      ≡ Option.map step_record (if a && (b && c) then some r else found)
record_of-cons k true true true r kept found same ih = rw same refl
record_of-cons k true true false r kept found same ih = rw same ih
record_of-cons k true false c r kept found same ih = ih
record_of-cons k false b c r kept found same ih = ih

-- The planner's record of a step is the row of its key.
record_of-records_of :
    (id : String) (n : ℕ) (k : StepKey) (rows : List StepRow)
    → record_of (map step_record (keep (is_of_attempt id n) rows)) k
      ≡ Option.map step_record
          (find? (is_row_of (record { run_id = id; attempt = n; step_key = k })) rows)
record_of-records_of id n k [] = refl
record_of-records_of id n k (r ∷ rs) =
    record_of-cons k (str_eq r.run_id id) (r.attempt == n) (same_step r.step_key k) r
      (keep (is_of_attempt id n) rs) _ refl (record_of-records_of id n k rs)

-- `isSettled` read off the row of a key.
abbrev pub settled_by : StepKey → Option StepRow → Bool
settled_by k row =
    not (same_step k cleanup && is_failed_or_incomplete (Option.map step_record row))
    && is_ended (Option.map step_record row)

is_settled-row :
    (id : String) (n : ℕ) (k : StepKey) (w : World)
    → is_settled (records_of id n w) k
      ≡ settled_by k (find_row (record { run_id = id; attempt = n; step_key = k }) w)
unfolding is_settled
is_settled-row id n k w = rw (record_of-records_of id n k w.run_steps) refl

-- The step guard and the planner agree on any row: the guard takes a step for ended, so that it is
-- not run, exactly where the planner takes it for settled, so that it goes on to the next.
pub settled_by-terminal :
    (k : StepKey) (row : StepRow)
    → settled_by k (some row) ≡ is_terminal_step_for_retry k row.status
unfolding is_terminal_step_for_retry
settled_by-terminal k row = ground arith

-- The worker's guard and store keep what the loop of `advance` needs.
database-ReadsSteps : (e : Environment) → ReadsSteps (database_dependencies e) records_of
unfolding list
database-ReadsSteps e = record {
  listed = λ id n w. refl;
  syncs_keep = λ input w id n.
      ap (λ rows. map step_record (keep (is_of_attempt id n) rows))
        (enqueue_gitea_sync-same input w).1;
  skip_settles = λ key reason w h.
      let (row, found, ended) = mark_skipped-row key reason w h in
      is_settled-row key.run_id key.attempt key.step_key (mark_skipped key reason w).1
      ∙ (ap (settled_by key.step_key) found ∙ (settled_by-terminal key.step_key row ∙ ended));
  skip_keeps = λ key reason w k h apart.
      is_settled-row key.run_id key.attempt k (mark_skipped key reason w).1
      ∙ (ap (settled_by k) (
            mark_skipped-others key
              (record { run_id = key.run_id; attempt = key.attempt; step_key = k }) reason w apart)
          ∙ sym (is_settled-row key.run_id key.attempt k w));
}

-- The loop of the worker's `advance` ends within twelve rounds: given twelve or more, it does the
-- same whatever number of rounds there is and whatever would happen when they are used up.
pub worker-advance_terminates :
    (e : Environment) (run' : RunSnapshot) (job : WorkflowJob) (spent : Effect (Unit {0})) (n : ℕ)
    (w : World)
    → 12 ≤ n
    → advance (database_dependencies e) run' job w
      ≡ advance_within (database_dependencies e) spent n run' job w
worker-advance_terminates e run' job spent n w enough =
    advance_terminates (database_dependencies e) records_of (database-ReadsSteps e) run' job spent n
      w enough
