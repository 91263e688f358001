-- ===== src/Guard/Memory.antt =====
-- InMemoryStepGuard of apps/worker/src/workflow/step-guard.ts: a map of records, in the order of insertion.
use code_host.Prelude.{
  ℕ, String, Bool, List, [], ◌∷◌, ◌++◌, Option, none, some, find?, any, keep, map, update, str_eq,
  not, if◌then◌else◌,
}
use package.text.Mathlib.Text.{starts_with}
use code_host.Prelude.Text.{◌++◌ as append, decimal}
use code_host.Prelude.Result.{Result, ok, err}
use code_host.Workflow.{
  StepKey, step_text, StepStatus, same_step_status, FailureKind, StepRecord, StepResult,
}
use code_host.Database.Effects.{Fault, step_is_running}
use code_host.Gitea.{Remote}
use code_host.Guard.{
  StepGuardKey, GuardResult, executed, already_terminal, busy, is_terminal_step_for_retry,
  result_status, result_kind, result_code,
}
use code_host.Guard.Spec.{StepView, open_step, held_step, ended_step}

-- `MutableStepRecord` under its key.
pub record MemoryRecord : Type 0 where
  pub key : String
  pub step_key : StepKey
  pub status : StepStatus
  pub failure_kind : Option FailureKind
  pub error_code : Option String
  pub reason : Option String

abbrev pub Memory : Type 0
Memory = List MemoryRecord

unfoldable pub record_key : StepGuardKey → String
record_key key =
    append key.run_id
      (append ":" (append (decimal key.attempt) (append ":" (step_text key.step_key))))

abbrev pub has_record_key : String → MemoryRecord → Bool
has_record_key key r = str_eq r.key key

abbrev pub find_record : StepGuardKey → Memory → Option MemoryRecord
find_record key m = find? (has_record_key (record_key key)) m

-- `records.set(key, record)`
unfoldable pub set_record : MemoryRecord → Memory → Memory
set_record r m =
    if any (has_record_key r.key) m then update (has_record_key r.key) (λ _. r) m else m ++ r ∷ []

-- `records.delete(key)`
unfoldable pub delete_record : String → Memory → Memory
delete_record key m = keep (λ r. not (has_record_key key r)) m

abbrev pub plain_record : StepGuardKey → StepStatus → Option String → MemoryRecord
plain_record key status reason = record {
  key = record_key key;
  step_key = key.step_key;
  status = status;
  failure_kind = none;
  error_code = none;
  reason = reason;
}

-- `mapResult`
abbrev pub map_result : StepGuardKey → StepResult → MemoryRecord
map_result key result = record (plain_record key (result_status result) none) {
  failure_kind = result_kind result none;
  error_code = result_code result none;
}

unfoldable pub memory_finish : StepGuardKey → Result Fault StepResult → Remote Memory GuardResult
memory_finish key (ok result) m = (ok (executed result), set_record (map_result key result) m)
memory_finish key (err e) m = (err e, delete_record (record_key key) m)

unfoldable pub memory_execute : StepGuardKey → Remote Memory StepResult → Remote Memory GuardResult
unfolding memory_finish
memory_execute key operation m =
    let done = operation (set_record (plain_record key StepStatus.running none) m) in
    memory_finish key done.0 done.1

-- `runOnce` on the record that is there.
unfoldable pub memory_admit :
    StepGuardKey → Remote Memory StepResult → Option MemoryRecord → Remote Memory GuardResult
unfolding memory_execute
memory_admit key operation none m = memory_execute key operation m
memory_admit key operation (some existing) m =
    if is_terminal_step_for_retry key.step_key existing.status
    then (ok (already_terminal existing.status), m)
    else if same_step_status existing.status StepStatus.running
    then (ok busy, m)
    else memory_execute key operation m

unfoldable pub memory_run_once : StepGuardKey → Remote Memory StepResult → Remote Memory GuardResult
unfolding memory_admit
memory_run_once key operation m = memory_admit key operation (find_record key m) m

unfoldable pub memory_mark_skipped : StepGuardKey → String → Remote Memory (Unit {0})
memory_mark_skipped key reason m = elim (find_record key m) [
  | none ↦ (ok tt, set_record (plain_record key StepStatus.skipped (some reason)) m)
  | some existing ↦
      if is_terminal_step_for_retry key.step_key existing.status
      then (ok tt, m)
      else if same_step_status existing.status StepStatus.running
      then (err (step_is_running key.step_key), m)
      else (ok tt, set_record (plain_record key StepStatus.skipped (some reason)) m)
]

abbrev memory_step_record : MemoryRecord → StepRecord
memory_step_record r = record {
  step_key = r.step_key;
  status = r.status;
  failure_kind = r.failure_kind;
  error_code = r.error_code;
}

unfoldable pub memory_list : String → ℕ → Memory → List StepRecord
memory_list run_id attempt m =
    let prefix = append run_id (append ":" (append (decimal attempt) ":")) in
    map memory_step_record (keep (λ r. starts_with r.key prefix) m)

-- What a record says of a step.
abbrev pub record_view : StepGuardKey → Option MemoryRecord → StepView
record_view key none = open_step
record_view key (some r) =
    if is_terminal_step_for_retry key.step_key r.status
    then ended_step r.status
    else if same_step_status r.status StepStatus.running
    then held_step
    else open_step

abbrev pub memory_view : StepGuardKey → Memory → StepView
memory_view key m = record_view key (find_record key m)
