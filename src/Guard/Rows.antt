-- ===== src/Guard/Rows.antt =====
-- The other operations of DatabaseStepGuard in apps/worker/src/workflow/db-adapter.ts.
use code_host.Prelude.{
  ℕ, String, Bool, List, [], ◌∷◌, ◌++◌, map, none, some, keep, update, str_eq, ◌==◌, ◌&&◌,
  if◌then◌else◌,
}
use code_host.Workflow.{StepStatus, same_step_status, StepRecord}
use code_host.Database.Tables.{StepRow, World}
use code_host.Database.Effects.{step_is_running, Effect, pure, throw, gets}
use code_host.Guard.{StepGuardKey, is_row_of, find_row, fresh_row, is_terminal_step_for_retry}

unfoldable pub skipped_row : String → ℕ → StepRow → StepRow
skipped_row reason now r = record r {
  status = StepStatus.skipped;
  error_code = some reason;
  finished_at = some now;
  lease_token = none;
  lease_until = none;
}

-- The throw comes before any write, so the transaction has nothing to undo.
unfoldable pub mark_skipped : StepGuardKey → String → Effect (Unit {0})
unfolding skipped_row fresh_row
mark_skipped key reason w = elim (find_row key w) [
  | none ↦
      pure tt
        (record w { run_steps = w.run_steps ++ skipped_row reason w.now (fresh_row key) ∷ [] })
  | some row ↦
      if is_terminal_step_for_retry key.step_key row.status
      then pure tt w
      else if same_step_status row.status StepStatus.running
      then throw (step_is_running key.step_key) w
      else pure tt
          (record w { run_steps = update (is_row_of key) (skipped_row reason w.now) w.run_steps })
]

abbrev pub step_record : StepRow → StepRecord
step_record row = record {
  step_key = row.step_key;
  status = row.status;
  failure_kind = row.failure_kind;
  error_code = row.error_code;
}

abbrev pub is_of_attempt : String → ℕ → StepRow → Bool
is_of_attempt run_id attempt r = str_eq r.run_id run_id && r.attempt == attempt

abbrev pub records_of : String → ℕ → World → List StepRecord
records_of run_id attempt w = map step_record (keep (is_of_attempt run_id attempt) w.run_steps)

unfoldable pub list : String → ℕ → Effect (List StepRecord)
list run_id attempt = gets (records_of run_id attempt)
