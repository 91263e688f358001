-- ===== src/Scenarios/Operations.antt =====
-- The operations of apps/api/src/run.controller.ts on concrete runs.
use code_host.Prelude.{◌≤◌, true, false, [], ◌∷◌, none, some, count, ◌≡◌, refl, arith}
use code_host.Prelude.Result.{ok}
use code_host.RunStatus.{
  not_scheduled, queued, executing, failed, cancel_requested, rejected_by_capacity, cleaned,
  pending, holds_execution_lock, can_retry_run,
}
use code_host.Database.Tables.{RunRow, waiting, World}
use code_host.Database.Capacity.{is_active, admit}
use code_host.Database.Counting.{HasUniqueIds, IsWithinCapacity}
use code_host.Store.{find_run}
use code_host.Outbox.{find_outbox}
use code_host.Workflow.{detect}
use code_host.Api.{
  is_cancellable_run_status, has_retry_capacity, answer_of, new_outbox,
  create_workflow_outbox_dedupe_key,
}
use code_host.Api.Cancel.{cancel}
use code_host.Api.Cancel.Outcomes.{
  cleanup_key, delivery_of, state_of, cancel-accepted, cancel_silently_rejected,
}
use code_host.Api.Retry.{retry}
use code_host.Api.Retry.Accepted.{retry_answer, IsRetryable, retry-accepted}
use code_host.Scenarios.Data.{run_row, world_with}

abbrev one_run : RunRow → World
one_run row = world_with (row ∷ []) []

one_unique : (row : RunRow) → HasUniqueIds (one_run row).runs
one_unique row id = ground arith

executing_within : IsWithinCapacity (one_run (run_row "r1" executing)).runs
unfolding holds_execution_lock
executing_within = record {
  unique = one_unique (run_row "r1" executing);
  active = ground arith;
  waiting = ground arith;
}

may_cancel : is_cancellable_run_status executing ≡ true
unfolding is_cancellable_run_status
may_cancel = ground arith

cancel-accepted_example :
    ((cancel 3 "r1" (one_run (run_row "r1" executing))).0
      ≡ ok (record (answer_of (run_row "r1" executing)) {
        status = cancel_requested;
        cleanup_status = pending;
      }))
    × (state_of (find_run "r1" (cancel 3 "r1" (one_run (run_row "r1" executing))).1)
        ≡ some (
          admit (one_run (run_row "r1" executing)).runs (some executing) cancel_requested,
          pending,
        ))
    × (delivery_of (
          find_outbox
            (cleanup_key (run_row "r1" executing))
            (cancel 3 "r1" (one_run (run_row "r1" executing))).1)
        ≡ some (waiting, none))
cancel-accepted_example =
    cancel-accepted 3 "r1" (one_run (run_row "r1" executing)) (run_row "r1" executing) refl
      may_cancel

abbrev behind_another : World
behind_another = world_with (run_row "r1" queued ∷ run_row "r0" executing ∷ []) []

another_is_active : 1 ≤ count is_active behind_another.runs
unfolding holds_execution_lock
another_is_active = ground arith

cancel_silently_rejected_example :
    ((cancel 3 "r1" behind_another).0
      ≡ ok (record (answer_of (run_row "r1" queued)) {
        status = cancel_requested;
        cleanup_status = pending;
      }))
    × (state_of (find_run "r1" (cancel 3 "r1" behind_another).1)
        ≡ some (rejected_by_capacity, pending))
cancel_silently_rejected_example =
    cancel_silently_rejected 3 "r1" behind_another (run_row "r1" queued) refl refl another_is_active

abbrev failed_run : RunRow
failed_run = record (run_row "r1" failed) { cleanup_status = cleaned }

failed_within : IsWithinCapacity (one_run failed_run).runs
unfolding holds_execution_lock
failed_within = record {
  unique = one_unique failed_run;
  active = ground arith;
  waiting = ground arith;
}

may_retry : IsRetryable 3 failed_run false (one_run failed_run)
unfolding can_retry_run has_retry_capacity holds_execution_lock
may_retry = record {
  unique = one_unique failed_run;
  found = refl;
  eligible = refl;
  room = ground arith;
  small = omega arith;
  fresh = refl;
}

retry-accepted_example :
    ((retry 3 3 failed_run false (one_run failed_run)).0 ≡ ok (retry_answer failed_run))
    × (find_run "r1" (retry 3 3 failed_run false (one_run failed_run)).1
        ≡ some (record failed_run {
          status = queued;
          current_attempt = 2;
          cleanup_status = not_scheduled;
          updated_at = 100;
        }))
    × ((retry 3 3 failed_run false (one_run failed_run)).1.outbox
        ≡ new_outbox failed_run 2 detect 100 ∷ [])
unfolding new_outbox create_workflow_outbox_dedupe_key
retry-accepted_example = retry-accepted 3 3 failed_run false (one_run failed_run) may_retry
