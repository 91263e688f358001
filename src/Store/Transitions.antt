-- ===== src/Store/Transitions.antt =====
-- `transitionRun` of apps/worker/src/workflow/db-adapter.ts, with the capacity triggers under it.
use code_host.Prelude.{
  ℕ, ◌≤◌, String, Bool, true, List, Option, some, find?, count, str_eq, ◌==◌, ◌&&◌, if◌then◌else◌,
  ◌≡◌, ◌∙◌, refl, ap, arith, Option-cases, inl, inr, find?-update, find?-holds,
}
use mathlib.Core.Option
use code_host.Prelude.Result.{ok, err}
use code_host.RunStatus.{
  RunStatus, queued, planning, rejected_by_capacity, cleaned, same_status, same_cleanup, allows,
}
use code_host.RunStatus.Lifecycle.{is_valid-text}
use code_host.Database.Tables.{RunRow, World}
use code_host.Database.Effects.{stale_run_identity, invalid_run_transition}
use code_host.Database.Capacity.{is_active, admit, update_status}
use code_host.Database.Counting.{
  HasUniqueIds, IsWithinCapacity, update_status-IsWithinCapacity, count_of_unique, count-le,
}
use code_host.Database.Keeps.{transaction-keeps}
use code_host.Store.{
  RunIdentity, has_id, find_run, unmoved, transitioned, write_transition, read_transition,
  transition_run,
}

pub unmoved-id :
    (k : RunIdentity) (row r : RunRow) → unmoved k row r ≡ true → has_id k.run_id r ≡ true
unmoved-id k row r h = ground arith

-- What `transitionRun` did, as the transaction decides it once the row is read.
abbrev pub permitted : RunIdentity → RunStatus → RunRow → Bool
permitted k to row =
    (row.current_attempt == k.attempt && str_eq row.head_sha k.head_sha)
    && allows row.status to (same_cleanup row.cleanup_status cleaned)

pub same_status_refl : (s : RunStatus) → same_status s s ≡ true
same_status_refl s = ground arith

one_unmoved :
    (k : RunIdentity) (row : RunRow) (w : World)
    → HasUniqueIds w.runs
    → find_run k.run_id w ≡ some row
    → (row.current_attempt == k.attempt && str_eq row.head_sha k.head_sha) ≡ true
    → count (unmoved k row) w.runs ≡ 1
one_unmoved k row w unique found current =
    count_of_unique (has_id k.run_id) (unmoved k row) (unmoved-id k row) w.runs found
      (unique k.run_id)
    ∙ ground (arith, same_status_refl row.status, find?-holds (has_id k.run_id) w.runs found)

-- What `transitionRun` decides, with its write as the code states it.
pub transition_run-decides :
    (k : RunIdentity) (to : RunStatus) (reason : Option String) (w : World) (row : RunRow)
    → HasUniqueIds w.runs
    → find_run k.run_id w ≡ some row
    → transition_run k to reason w ≡ (
        if permitted k to row
        then (
          ok tt,
          record w {
            runs = update_status (unmoved k row) to (transitioned to reason w.now) w.runs;
          },
        )
        else if row.current_attempt == k.attempt && str_eq row.head_sha k.head_sha
        then (err (invalid_run_transition row.status to), w)
        else (err (stale_run_identity k.run_id), w))
unfolding transition_run
transition_run-decides k to reason w row unique found =
    rw (found, read_transition)
      (rw (is_valid-text row.status to (same_cleanup row.cleanup_status cleaned))
        (ground (arith, one_unmoved k row w unique found)))

count-unmoved_le :
    (k : RunIdentity) (row : RunRow) (w : World)
    → HasUniqueIds w.runs
    → count (unmoved k row) w.runs ≤ 1
count-unmoved_le k row w unique =
    omega
      (arith, unique k.run_id, count-le (unmoved k row) (has_id k.run_id) (unmoved-id k row) w.runs)

transitioned-id :
    (to : RunStatus) (reason : Option String) (now : ℕ) (r : RunRow)
    → (transitioned to reason now r).id ≡ r.id
unfolding transitioned
transitioned-id to reason now r = refl

write_transition-IsWithinCapacity :
    (k : RunIdentity) (to : RunStatus) (reason : Option String) (row : RunRow) (w : World)
    → IsWithinCapacity w.runs
    → IsWithinCapacity (write_transition k to reason row w).1.runs
unfolding write_transition
write_transition-IsWithinCapacity k to reason row w c = ground (
  arith,
  update_status-IsWithinCapacity (unmoved k row) to (transitioned to reason w.now) w.runs
      (count-unmoved_le k row w c.unique) (transitioned-id to reason w.now) c,
)

read_transition-IsWithinCapacity :
    (k : RunIdentity) (to : RunStatus) (reason : Option String) (w : World)
    → IsWithinCapacity w.runs
    → IsWithinCapacity (read_transition k to reason w).1.runs
unfolding read_transition
read_transition-IsWithinCapacity k to reason w c = elim (Option-cases (find_run k.run_id w)) [
  | inl absent ↦ rw (absent, read_transition) c
  | inr (row, found) ↦
      rw (found, read_transition) (write_transition-IsWithinCapacity k to reason row w c)
]

-- If run ids are unique, at most one run is active and at most three wait, then so it is after any
-- call of `transitionRun`, however it ends.
pub transition_run-IsWithinCapacity :
    (k : RunIdentity) (to : RunStatus) (reason : Option String) (w : World)
    → IsWithinCapacity w.runs
    → IsWithinCapacity (transition_run k to reason w).1.runs
unfolding transition_run
transition_run-IsWithinCapacity k to reason =
    transaction-keeps (λ v. IsWithinCapacity v.runs) (read_transition k to reason)
      (read_transition-IsWithinCapacity k to reason)

find_updated :
    (k : RunIdentity) (to : RunStatus) (reason : Option String) (w : World) (row : RunRow)
    → find_run k.run_id w ≡ some row
    → unmoved k row row ≡ true
    → find?
        (has_id k.run_id)
        (update_status (unmoved k row) to (transitioned to reason w.now) w.runs)
      ≡ some
          (record (transitioned to reason w.now row) { status = admit w.runs (some row.status) to })
unfolding update_status transitioned
find_updated k to reason w row found current =
    find?-update (has_id k.run_id) (unmoved k row)
      (λ r. record (transitioned to reason w.now r) { status = admit w.runs (some r.status) to })
      (λ a _. refl) w.runs
    ∙ ap
        (Option.map (λ r.
          if unmoved k row r
          then record (transitioned to reason w.now r) { status = admit w.runs (some r.status) to }
          else r))
        found
    ∙ (rw current refl)

-- With unique run ids, a permitted transition leaves the run with the status that the capacity
-- triggers admit, and with its start, end, verdict and error code written for the status that was
-- asked for.
pub transition_run-row :
    (k : RunIdentity) (to : RunStatus) (reason : Option String) (w : World) (row : RunRow)
    → HasUniqueIds w.runs
    → find_run k.run_id w ≡ some row
    → permitted k to row ≡ true
    → find_run k.run_id (transition_run k to reason w).1
      ≡ some
          (record (transitioned to reason w.now row) { status = admit w.runs (some row.status) to })
transition_run-row k to reason w row unique found allowed =
    let current : unmoved k row row ≡ true =
      ground (arith, same_status_refl row.status, find?-holds (has_id k.run_id) w.runs found) in
    rw (transition_run-decides k to reason w row unique found)
      (rw allowed (find_updated k to reason w row found current))

queued_to_planning : (c : Bool) → allows queued planning c ≡ true
unfolding allows
queued_to_planning c = refl

admit_rejects :
    (runs : List RunRow)
    → 1 ≤ count is_active runs
    → admit runs (some queued) planning ≡ rejected_by_capacity
unfolding admit
admit_rejects runs busy = ground arith

-- While another run is active, a queued run's move to PLANNING, asked for with its current attempt and
-- head, succeeds for the caller and leaves the run REJECTED_BY_CAPACITY.
pub planning_silently_rejected :
    (k : RunIdentity) (reason : Option String) (w : World) (row : RunRow)
    → HasUniqueIds w.runs
    → find_run k.run_id w ≡ some row
    → (row.current_attempt == k.attempt && str_eq row.head_sha k.head_sha) ≡ true
    → row.status ≡ queued
    → 1 ≤ count is_active w.runs
    → ((transition_run k planning reason w).0 ≡ ok tt)
      × (Option.map (λ r. r.status) (find_run k.run_id (transition_run k planning reason w).1)
          ≡ some rejected_by_capacity)
planning_silently_rejected k reason w row unique found current waiting busy =
    let allowed : permitted k planning row ≡ true =
      rw waiting (rw current (queued_to_planning _)) in
    (
      rw (transition_run-decides k planning reason w row unique found) (rw allowed refl),
      ap (Option.map (λ r. r.status))
            (transition_run-row k planning reason w row unique found allowed)
          ∙ (rw waiting (rw (admit_rejects w.runs busy) refl)),
    )
