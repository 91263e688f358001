-- ===== src/Api/Cancel/Outcomes.antt =====
-- What `cancel` of apps/api/src/run.controller.ts leaves behind.
use code_host.Prelude.{
  ℕ, ◌≤◌, String, true, false, List, [], ◌∷◌, ◌++◌, Option, none, some, find?, count, eq_refl,
  if◌then◌else◌, ◌≡◌, inl, inr, ◌∙◌, refl, ap, arith, Option-cases, find?-update, find?-append,
  find?-none-any, find?-some-any,
}
use mathlib.Core.Option
use code_host.Prelude.Result.{ok}
use code_host.RunStatus.{
  RunStatus, queued, cancel_requested, cancelled, rejected_by_capacity, CleanupStatus, pending,
  same_status,
}
use code_host.Workflow.{cleanup}
use code_host.Database.Tables.{RunRow, OutboxRow, OutboxStatus, waiting, World}
use code_host.Database.Capacity.{is_active, admit, update_status}
use code_host.Store.{has_id, find_run}
use code_host.Outbox.{has_key, find_outbox}
use code_host.Guard.Leases.{find?-update_self}
use code_host.Api.{
  is_cancellable_run_status, create_workflow_outbox_dedupe_key, new_outbox, is_unchanged, answer_of,
}
use code_host.Api.Cancel.{
  cancelling, renewed, enqueue_cleanup, request_cancel, cancel_current, read_cancel, cancel,
}
use code_host.Api.Cancel.Bounds.{is_unchanged_self, enqueue_cleanup-runs, enqueue_cleanup-ok}

abbrev pub cleanup_key : RunRow → String
cleanup_key current = create_workflow_outbox_dedupe_key current.id cleanup current.current_attempt

abbrev pub delivery_of : Option OutboxRow → Option (OutboxStatus × Option ℕ)
delivery_of = Option.map (λ r. (r.status, r.lease_until))

new_outbox-key :
    (current : RunRow) (now : ℕ)
    → has_key (cleanup_key current) (new_outbox current current.current_attempt cleanup now) ≡ true
unfolding new_outbox
new_outbox-key current now = eq_refl (cleanup_key current)

find-added :
    (current : RunRow) (w : World)
    → find_outbox (cleanup_key current) w ≡ none
    → find?
        (has_key (cleanup_key current))
        (w.outbox ++ new_outbox current current.current_attempt cleanup w.now ∷ [])
      ≡ some (new_outbox current current.current_attempt cleanup w.now)
find-added current w absent =
    find?-append (has_key (cleanup_key current)) w.outbox
      (new_outbox current current.current_attempt cleanup w.now ∷ []) absent
    ∙ (rw (new_outbox-key current w.now) refl)

new_outbox-delivery :
    (current : RunRow) (now : ℕ)
    → delivery_of (some (new_outbox current current.current_attempt cleanup now))
      ≡ some (waiting, none)
unfolding new_outbox
new_outbox-delivery current now = refl

-- The cleanup's row waits, whether it was there before or not.
enqueue_cleanup-row :
    (current : RunRow) (w : World)
    → delivery_of (find_outbox (cleanup_key current) (enqueue_cleanup current w).1)
      ≡ some (waiting, none)
unfolding enqueue_cleanup renewed
enqueue_cleanup-row current w = elim (Option-cases (find_outbox (cleanup_key current) w)) [
  | inl absent ↦
      rw (find?-none-any (has_key (cleanup_key current)) w.outbox absent)
        (ap delivery_of (find-added current w absent) ∙ new_outbox-delivery current w.now)
  | inr (row, found) ↦ rw (find?-some-any (has_key (cleanup_key current)) w.outbox found) (
      ap delivery_of (
        find?-update_self (has_key (cleanup_key current)) (renewed w.now) (λ a. refl) w.outbox
          found))
]

abbrev pub state_of : Option RunRow → Option (RunStatus × CleanupStatus)
state_of = Option.map (λ r. (r.status, r.cleanup_status))

find-cancelling :
    (id : String) (row : RunRow) (w : World)
    → find_run id w ≡ some row
    → find_run id (request_cancel row w).1
      ≡ some (record (cancelling w.now row) {
        status = admit w.runs (some row.status) cancel_requested;
      })
unfolding request_cancel update_status cancelling
find-cancelling id row w found =
    find?-update (has_id id) (is_unchanged row)
      (λ r. record (cancelling w.now r) { status = admit w.runs (some r.status) cancel_requested })
      (λ a _. refl) w.runs
    ∙ ap
        (Option.map (λ r.
          if is_unchanged row r
          then record (cancelling w.now r) {
            status = admit w.runs (some r.status) cancel_requested;
          }
          else r))
        found
    ∙ (rw (is_unchanged_self row) refl)

request_cancel-row :
    (id : String) (row : RunRow) (w : World)
    → find_run id w ≡ some row
    → state_of (find_run id (request_cancel row w).1)
      ≡ some (admit w.runs (some row.status) cancel_requested, pending)
unfolding cancelling
request_cancel-row id row w found = ap state_of (find-cancelling id row w found)

not_cancelled :
    (s : RunStatus) → is_cancellable_run_status s ≡ true → same_status s cancelled ≡ false
unfolding is_cancellable_run_status
not_cancelled s h = ground arith

not_asked :
    (s : RunStatus) → is_cancellable_run_status s ≡ true → same_status s cancel_requested ≡ false
unfolding is_cancellable_run_status
not_asked s h = ground arith

cancel_current-accepted :
    (user : ℕ) (row : RunRow) (w : World)
    → is_cancellable_run_status row.status ≡ true
    → ((cancel_current user row w).0
        ≡ ok (record (answer_of row) { status = cancel_requested; cleanup_status = pending }))
      × ((cancel_current user row w).1.runs ≡ (request_cancel row w).1.runs)
      × ((cancel_current user row w).1.outbox
          ≡ (enqueue_cleanup row (request_cancel row w).1).1.outbox)
unfolding cancel_current
cancel_current-accepted user row w open_run =
    let done = enqueue_cleanup-ok row (request_cancel row w).1 in
    (
      rw (not_cancelled row.status open_run)
          (rw (not_asked row.status open_run) (rw open_run (rw done refl))),
      rw (not_cancelled row.status open_run) (
          rw (not_asked row.status open_run)
            (rw open_run (rw done (enqueue_cleanup-runs row (request_cancel row w).1)))),
      rw (not_cancelled row.status open_run)
          (rw (not_asked row.status open_run) (rw open_run (rw done refl))),
    )

-- A run in a status that may be cancelled: the answer is CANCEL_REQUESTED with a PENDING cleanup, the run
-- has a PENDING cleanup and the status that the capacity triggers admit for CANCEL_REQUESTED, and the
-- outbox has the cleanup's row of the attempt, waiting and without a lease.
pub cancel-accepted :
    (user : ℕ) (id : String) (w : World) (row : RunRow)
    → find_run id w ≡ some row
    → is_cancellable_run_status row.status ≡ true
    → ((cancel user id w).0
        ≡ ok (record (answer_of row) { status = cancel_requested; cleanup_status = pending }))
      × (state_of (find_run id (cancel user id w).1)
          ≡ some (admit w.runs (some row.status) cancel_requested, pending))
      × (delivery_of (find_outbox (cleanup_key row) (cancel user id w).1) ≡ some (waiting, none))
unfolding cancel
cancel-accepted user id w row found open_run =
    let (answer, runs, outbox) = cancel_current-accepted user row w open_run in
    (
      rw (found, read_cancel) (rw answer refl),
      rw (found, read_cancel)
          (rw answer (
            ap (λ rows. state_of (find? (has_id id) rows)) runs
            ∙ request_cancel-row id row w found)),
      rw (found, read_cancel)
          (rw answer (
            ap (λ rows. delivery_of (find? (has_key (cleanup_key row)) rows)) outbox
            ∙ enqueue_cleanup-row row (request_cancel row w).1)),
    )

admit-cancel_requested :
    (runs : List RunRow)
    → 1 ≤ count is_active runs
    → admit runs (some queued) cancel_requested ≡ rejected_by_capacity
unfolding admit
admit-cancel_requested runs busy = ground arith

queued_is_cancellable : is_cancellable_run_status queued ≡ true
unfolding is_cancellable_run_status
queued_is_cancellable = ground arith

-- While another run is active, cancelling a QUEUED run is answered with CANCEL_REQUESTED, but leaves the
-- run REJECTED_BY_CAPACITY, with a PENDING cleanup.
pub cancel_silently_rejected :
    (user : ℕ) (id : String) (w : World) (row : RunRow)
    → find_run id w ≡ some row
    → row.status ≡ queued
    → 1 ≤ count is_active w.runs
    → ((cancel user id w).0
        ≡ ok (record (answer_of row) { status = cancel_requested; cleanup_status = pending }))
      × (state_of (find_run id (cancel user id w).1) ≡ some (rejected_by_capacity, pending))
cancel_silently_rejected user id w row found waits busy =
    let (answer, state, outbox) =
      cancel-accepted user id w row found (rw waits queued_is_cancellable) in
    (
      answer,
      state
          ∙ ap (λ s. some (s, pending))
              (ap (λ s. admit w.runs (some s) cancel_requested) waits
                ∙ admit-cancel_requested w.runs busy),
    )
