-- ===== src/Api/Retry/Outcomes.antt =====
-- What `retry` of apps/api/src/run.controller.ts leaves behind.
use code_host.Prelude.{
  ℕ, ◌+◌, Bool, any, count, ◌==◌, ◌||◌, not, inl, inr, refl, Bool-cases, Option-cases,
}
use code_host.RunStatus.{queued, not_scheduled, same_status, same_cleanup}
use code_host.Workflow.{detect}
use code_host.Database.Tables.{RunRow, OutboxRow, World}
use code_host.Database.Effects.{Effect, pure, modify, ◌>>◌}
use code_host.Database.Capacity.{is_active, is_queued, update_status}
use code_host.Database.Counting.{IsWithinCapacity, update_status-IsWithinCapacity}
use code_host.Database.Keeps.{transaction-keeps, bind-keeps}
use code_host.Store.{find_run}
use code_host.Outbox.{has_key}
use code_host.Api.{RunAnswer, new_outbox, audit, is_unchanged, has_retry_capacity}
use code_host.Api.Retry.{
  retried, retry_details, is_retry_eligible, insert_outbox, start_attempt, retry_current,
  read_retry, retry,
}
use code_host.Api.Cancel.Bounds.{count-unchanged_le}

abbrev Bounded : World → Type 0
Bounded w = IsWithinCapacity w.runs

abbrev queued_again : RunRow → World → World
queued_again current w = record w {
  runs =
      update_status (is_unchanged current) queued (retried (current.current_attempt + 1) w.now)
        w.runs;
}

queued_again-Bounded : (current : RunRow) (w : World) → Bounded w → Bounded (queued_again current w)
unfolding retried
queued_again-Bounded current w c =
    update_status-IsWithinCapacity (is_unchanged current) queued
      (retried (current.current_attempt + 1) w.now) w.runs
      (count-unchanged_le current w.runs c.unique) (λ r. refl) c

insert_outbox-Bounded : (row : OutboxRow) (w : World) → Bounded w → Bounded (insert_outbox row w).1
unfolding insert_outbox
insert_outbox-Bounded row w c = elim (Bool-cases (any (has_key row.dedupe_key) w.outbox)) [
  | inl there ↦ rw there c
  | inr absent ↦ rw absent c
]

start_attempt-Bounded :
    (user : ℕ) (current : RunRow) (w : World) → Bounded w → Bounded (start_attempt user current w).1
unfolding start_attempt
start_attempt-Bounded user current w c =
    elim (Bool-cases (count (is_unchanged current) w.runs == 1)) [
      | inr other ↦ rw other c
      | inl one ↦
          let answer : RunAnswer = record {
            id = current.id;
            status = queued;
            current_attempt = current.current_attempt + 1;
            cleanup_status = not_scheduled;
          } in
          let rest : Effect RunAnswer =
            modify (audit user "RUN_RETRIED" current (retry_details current)) >> pure answer in
          rw one (
            bind-keeps Bounded
              (insert_outbox (new_outbox current (current.current_attempt + 1) detect w.now))
              (λ _. rest)
              (insert_outbox-Bounded
                (new_outbox current (current.current_attempt + 1) detect w.now))
              (λ _ v b. b) (queued_again current w) (queued_again-Bounded current w c))
    ]

read_retry-Bounded :
    (max user : ℕ) (row : RunRow) (confirmed : Bool) (w : World)
    → Bounded w
    → Bounded (read_retry max user row confirmed w).1
unfolding read_retry retry_current
read_retry-Bounded max user row confirmed w c = elim (Option-cases (find_run row.id w)) [
  | inl absent ↦ rw (absent, read_retry) c
  | inr (current, found) ↦
      rw (found, read_retry)
        (elim (Bool-cases (
          not (same_status current.status row.status)
          || (not (same_cleanup current.cleanup_status row.cleanup_status)
              || not (current.current_attempt == row.current_attempt)))) [
                | inl changed ↦ rw changed c
                | inr same ↦ elim (Bool-cases (is_retry_eligible current confirmed)) [
                  | inr closed ↦ rw same (rw closed c)
                  | inl eligible ↦
                      elim (Bool-cases (
                        has_retry_capacity (count is_active w.runs) (count is_queued w.runs) max)) [
                          | inr full ↦ rw same (rw eligible (rw full c))
                          | inl room ↦
                              rw same
                                (rw eligible (rw room (start_attempt-Bounded user current w c)))
                        ]
                ]
              ])
]

-- If run ids are unique, at most one run is active and at most three wait, then so it is after any
-- retry, however it ends and whatever queue the configuration allows.
pub retry-IsWithinCapacity :
    (max user : ℕ) (row : RunRow) (confirmed : Bool) (w : World)
    → IsWithinCapacity w.runs
    → IsWithinCapacity (retry max user row confirmed w).1.runs
unfolding retry
retry-IsWithinCapacity max user row confirmed w c =
    elim (Bool-cases (is_retry_eligible row confirmed)) [
      | inr closed ↦ rw closed c
      | inl eligible ↦ rw eligible (
          transaction-keeps Bounded (read_retry max user row confirmed)
            (read_retry-Bounded max user row confirmed) w c)
    ]
