-- ===== src/Store/Outcomes.antt =====
-- `transitionRun` of apps/worker/src/workflow/db-adapter.ts: the run that it leaves, column by column.
use code_host.Prelude.{
  ℕ, String, Bool, true, [], ◌∷◌, Option, none, some, is_some, any, count, update, str_eq, ◌==◌,
  leb, ◌&&◌, ◌||◌, not, if◌then◌else◌, ◌≡◌, ◌∙◌, refl, ap, arith, Bool-cases, inl, inr, find?-holds,
}
use code_host.Prelude.Result.{ok, err}
use code_host.Prelude.Text.{clip}
use code_host.RunStatus.{
  RunStatus, queued, planning, passed, failed, incomplete, cancelled, rejected_by_capacity,
  same_status, holds_execution_lock, is_terminal_run_status,
}
use code_host.Database.Tables.{RunRow, World}
use code_host.Database.Effects.{stale_run_identity, invalid_run_transition}
use code_host.Database.Capacity.{is_active, is_queued, admit, update_status}
use code_host.Database.Counting.{HasUniqueIds, update-only}
use code_host.Store.{
  RunIdentity, has_id, find_run, unmoved, started_at_of, verdict_of, error_code_of, transitioned,
  transition_run,
}
use code_host.Store.Transitions.{unmoved-id, same_status_refl, permitted, transition_run-decides}

-- No room for the status under the triggers: another run is active, or three others wait.
abbrev is_refused : RunStatus → RunRow → World → Bool
is_refused to row w =
    (holds_execution_lock to
      && not (holds_execution_lock row.status)
      && leb 1 (count is_active w.runs))
    || (same_status to queued
        && not (same_status row.status queued)
        && leb 3 (count is_queued w.runs))

-- The run after a move, column by column.
abbrev pub moved_row : RunStatus → Option String → World → RunRow → RunRow
moved_row to reason w row = record row {
  status = if is_refused to row w then rejected_by_capacity else to;
  updated_at = w.now;
  started_at =
      if same_status to planning && not (is_some row.started_at)
      then some w.now
      else row.started_at;
  finished_at =
      if any (same_status to) (passed ∷ failed ∷ incomplete ∷ cancelled ∷ rejected_by_capacity ∷ [])
      then some w.now
      else row.finished_at;
  verdict =
      if any (same_status to) (passed ∷ failed ∷ incomplete ∷ []) then some to else row.verdict;
  error_code = elim reason [ none ↦ row.error_code | some text ↦ some (clip 128 text) ];
}

admit-refused :
    (to : RunStatus) (row : RunRow) (w : World)
    → admit w.runs (some row.status) to ≡ (if is_refused to row w then rejected_by_capacity else to)
unfolding admit
admit-refused to row w = ground arith

terminal-moved :
    (to : RunStatus)
    → is_terminal_run_status to
      ≡ any (same_status to) (passed ∷ failed ∷ incomplete ∷ cancelled ∷ rejected_by_capacity ∷ [])
unfolding is_terminal_run_status
terminal-moved to = refl

started-moved :
    (to : RunStatus) (now : ℕ) (before : Option ℕ)
    → started_at_of to now before
      ≡ (if same_status to planning && not (is_some before) then some now else before)
started-moved to now none = ground arith
started-moved to now (some at) = ground arith

verdict-moved :
    (to : RunStatus) (before : Option RunStatus)
    → verdict_of to before
      ≡ (if any (same_status to) (passed ∷ failed ∷ incomplete ∷ []) then some to else before)
verdict-moved to before = ground arith

error_code-moved :
    (reason before : Option String)
    → error_code_of reason before ≡ elim reason [ none ↦ before | some text ↦ some (clip 128 text) ]
error_code-moved none before = refl
error_code-moved (some text) before = refl

finished-moved :
    (to : RunStatus) (now : ℕ) (before : Option ℕ)
    → (if is_terminal_run_status to then some now else before) ≡ (
        if any
          (same_status to)
          (passed ∷ failed ∷ incomplete ∷ cancelled ∷ rejected_by_capacity ∷ [])
        then some now
        else before)
finished-moved to now before = ap (λ ends. if ends then some now else before) (terminal-moved to)

-- A row with other columns of a move.
abbrev with_columns :
    RunRow → ℕ → RunStatus → Option ℕ → Option ℕ → Option RunStatus → Option String → RunRow
with_columns row now status started_at finished_at verdict error_code = record row {
  status = status;
  updated_at = now;
  started_at = started_at;
  finished_at = finished_at;
  verdict = verdict;
  error_code = error_code;
}

written-columns :
    (to : RunStatus) (reason : Option String) (w : World) (row : RunRow)
    → record (transitioned to reason w.now row) { status = admit w.runs (some row.status) to }
      ≡ moved_row to reason w row
unfolding transitioned
written-columns to reason w row = λ i.
    with_columns row w.now (admit-refused to row w i) (started-moved to w.now row.started_at i)
      (finished-moved to w.now row.finished_at i) (verdict-moved to row.verdict i)
      (error_code-moved reason row.error_code i)

update-moved :
    (k : RunIdentity) (to : RunStatus) (reason : Option String) (w : World) (row : RunRow)
    → HasUniqueIds w.runs
    → find_run k.run_id w ≡ some row
    → permitted k to row ≡ true
    → update_status (unmoved k row) to (transitioned to reason w.now) w.runs
      ≡ update (has_id k.run_id) (λ _. moved_row to reason w row) w.runs
unfolding update_status
update-moved k to reason w row unique found allowed =
    let reached : unmoved k row row ≡ true =
      ground (arith, same_status_refl row.status, find?-holds (has_id k.run_id) w.runs found) in
    update-only (has_id k.run_id) (unmoved k row) (unmoved-id k row)
      (λ r. record (transitioned to reason w.now r) { status = admit w.runs (some r.status) to })
      w.runs found (unique k.run_id) reached
    ∙ ap (λ moved. update (has_id k.run_id) (λ _. moved) w.runs) (written-columns to reason w row)

-- On a run that is there, with unique run ids, `transitionRun` writes exactly if the writer's
-- attempt and head are the run's own and the table allows the move under the run's cleanup status;
-- else it throws, a stale identity or an invalid transition, and changes nothing. A write changes no
-- other run and nothing else. The run gets the status that was asked for, or REJECTED_BY_CAPACITY if it
-- was not active before and would be beside another active run, or would wait beside three others; its
-- start is set once, by the move to PLANNING, its end by a terminal status, its verdict by PASSED, FAILED
-- and INCOMPLETE, and its error code by a reason, cut to 128 characters.
pub transition_run-outcome :
    (k : RunIdentity) (to : RunStatus) (reason : Option String) (w : World) (row : RunRow)
    → HasUniqueIds w.runs
    → find_run k.run_id w ≡ some row
    → transition_run k to reason w ≡ (
        if permitted k to row
        then (
          ok tt,
          record w { runs = update (has_id k.run_id) (λ _. moved_row to reason w row) w.runs },
        )
        else if row.current_attempt == k.attempt && str_eq row.head_sha k.head_sha
        then (err (invalid_run_transition row.status to), w)
        else (err (stale_run_identity k.run_id), w))
transition_run-outcome k to reason w row unique found = elim (Bool-cases (permitted k to row)) [
  | inl allowed ↦
      transition_run-decides k to reason w row unique found
      ∙ (rw allowed (
          ap (λ runs. (ok tt, record w { runs = runs }))
            (update-moved k to reason w row unique found allowed)))
  | inr refused ↦ transition_run-decides k to reason w row unique found ∙ (rw refused refl)
]
