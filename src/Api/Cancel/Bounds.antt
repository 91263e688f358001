-- ===== src/Api/Cancel/Bounds.antt =====
-- `cancel` of apps/api/src/run.controller.ts keeps the bounds on active and waiting runs.
use code_host.Prelude.{
  ℕ, ◌≤◌, String, Bool, true, List, any, count, eq_refl, ==-refl, ◌≡◌, ◌↔◌, ◌⊎◌, inl, inr, refl,
  arith, Bool-cases, Option-cases,
}
use code_host.Prelude.Result.{ok}
use code_host.RunStatus.{
  RunStatus, reporting, cancel_requested, cancelled, same_status, status_index, allows,
}
use code_host.Workflow.{cleanup}
use code_host.Database.Tables.{RunRow, World}
use code_host.Database.Counting.{
  HasUniqueIds, IsWithinCapacity, update_status-IsWithinCapacity, count-le,
}
use code_host.Database.Keeps.{transaction-keeps}
use code_host.Store.{has_id, find_run}
use code_host.Outbox.{has_key}
use code_host.Api.{is_cancellable_run_status, create_workflow_outbox_dedupe_key, is_unchanged}
use code_host.Api.Cancel.{
  cancelling, enqueue_cleanup, request_cancel, cancel_current, read_cancel, cancel,
}

-- The API cancels from the statuses that the transition table lets move to CANCEL_REQUESTED, and from
-- REPORTING, which the table does not.
pub cancellable_iff :
    (s : RunStatus) (c : Bool)
    → (is_cancellable_run_status s ≡ true)
      ↔ ((allows s cancel_requested c ≡ true) ⊎ (s ≡ reporting))
unfolding is_cancellable_run_status allows
cancellable_iff s c = ground arith

pub unchanged-id : (current r : RunRow) → is_unchanged current r ≡ true → has_id current.id r ≡ true
unchanged-id current r h = ground arith

pub is_unchanged_self : (r : RunRow) → is_unchanged r r ≡ true
is_unchanged_self r = ground (
  arith,
  eq_refl r.id,
  eq_refl r.head_sha,
  ==-refl r.current_attempt,
  ==-refl (status_index r.status),
)

pub count-unchanged_le :
    (current : RunRow) (runs : List RunRow)
    → HasUniqueIds runs
    → count (is_unchanged current) runs ≤ 1
count-unchanged_le current runs unique = omega (
  arith,
  unique current.id,
  count-le (is_unchanged current) (has_id current.id) (unchanged-id current) runs,
)

abbrev Bounded : World → Type 0
Bounded w = IsWithinCapacity w.runs

request_cancel-Bounded :
    (current : RunRow) (w : World) → Bounded w → Bounded (request_cancel current w).1
unfolding request_cancel cancelling
request_cancel-Bounded current w c =
    update_status-IsWithinCapacity (is_unchanged current) cancel_requested (cancelling w.now) w.runs
      (count-unchanged_le current w.runs c.unique) (λ r. refl) c

pub enqueue_cleanup-runs :
    (current : RunRow) (w : World) → (enqueue_cleanup current w).1.runs ≡ w.runs
unfolding enqueue_cleanup
enqueue_cleanup-runs current w =
    elim (Bool-cases (
      any (has_key (create_workflow_outbox_dedupe_key current.id cleanup current.current_attempt))
        w.outbox)) [ inl there ↦ rw there refl | inr absent ↦ rw absent refl ]

pub enqueue_cleanup-ok : (current : RunRow) (w : World) → (enqueue_cleanup current w).0 ≡ ok tt
unfolding enqueue_cleanup
enqueue_cleanup-ok current w =
    elim (Bool-cases (
      any (has_key (create_workflow_outbox_dedupe_key current.id cleanup current.current_attempt))
        w.outbox)) [ inl there ↦ rw there refl | inr absent ↦ rw absent refl ]

cancel_current-Bounded :
    (user : ℕ) (current : RunRow) (w : World)
    → Bounded w
    → Bounded (cancel_current user current w).1
unfolding cancel_current
cancel_current-Bounded user current w c = elim (Bool-cases (same_status current.status cancelled)) [
  | inl done ↦ rw done c
  | inr other ↦ elim (Bool-cases (same_status current.status cancel_requested)) [
    | inl asked ↦
        rw other
          (rw asked (rw (enqueue_cleanup-ok current w) (rw (enqueue_cleanup-runs current w) c)))
    | inr running ↦ elim (Bool-cases (is_cancellable_run_status current.status)) [
      | inr closed ↦ rw other (rw running (rw closed c))
      | inl open_run ↦ rw other (
          rw running (
            rw open_run (
              rw (enqueue_cleanup-ok current (request_cancel current w).1) (
                rw (enqueue_cleanup-runs current (request_cancel current w).1)
                  (request_cancel-Bounded current w c)))))
    ]
  ]
]

read_cancel-Bounded :
    (user : ℕ) (id : String) (w : World) → Bounded w → Bounded (read_cancel user id w).1
unfolding read_cancel
read_cancel-Bounded user id w c = elim (Option-cases (find_run id w)) [
  | inl absent ↦ rw (absent, read_cancel) c
  | inr (row, found) ↦ rw (found, read_cancel) (cancel_current-Bounded user row w c)
]

-- If run ids are unique, at most one run is active and at most three wait, then so it is after any
-- cancellation, however it ends.
pub cancel-IsWithinCapacity :
    (user : ℕ) (id : String) (w : World)
    → IsWithinCapacity w.runs
    → IsWithinCapacity (cancel user id w).1.runs
unfolding cancel
cancel-IsWithinCapacity user id =
    transaction-keeps Bounded (read_cancel user id) (read_cancel-Bounded user id)
