-- ===== src/Guard/Promises.antt =====
-- DatabaseStepGuard of apps/worker/src/workflow/db-adapter.ts against what a guard promises.
use code_host.Prelude.{
  ℕ, suc, String, true, [], ◌∷◌, ◌++◌, Option, none, some, update, ◌&&◌, if◌then◌else◌, ◌≡◌, inl,
  inr, refl, sym, ap, ◌∙◌, arith, Bool-cases, Option-cases, find?-append, find?-holds,
}
use code_host.Prelude.Result.{Result, ok, err}
use code_host.Workflow.{StepStatus, same_step_status, StepResult}
use code_host.Database.Tables.{StepRow, World}
use code_host.Database.Effects.{Fault, continue}
use code_host.Guard.{
  StepGuardKey, GuardResult, executed, already_terminal, busy, is_terminal_step_for_retry,
  result_status, is_row_of, find_row, is_live, has_token, is_held, Admission, admitted,
  admitted_row, fresh_row, admit_step, finished_row, retryable_row, persist_step, release_step,
  beats, operate, after_admission, run_once,
}
use code_host.Guard.Leases.{HasUniqueSteps, is_row_of-fresh, find?-update_self}
use code_host.Guard.Writes.{holder_writes, holder_releases}
use code_host.Guard.Spec.{StepView, open_step, held_step, ended_step, settled_view, spec_run_once}
use code_host.Guard.Refinement.{result_not_running}
use code_host.Guard.Admissions.{
  inserted-HasUniqueSteps, updated-HasUniqueSteps, admitted-held, admit-absent, admit-ended,
  admit-held, admit-again, admitted-key,
}

-- What a row says of its step.
abbrev pub row_view : StepGuardKey → ℕ → Option StepRow → StepView
row_view key now none = open_step
row_view key now (some row) =
    if is_terminal_step_for_retry key.step_key row.status
    then ended_step row.status
    else if same_step_status row.status StepStatus.running && is_live row.lease_until now
    then held_step
    else open_step

abbrev pub step_view : StepGuardKey → World → StepView
step_view key w = row_view key w.now (find_row key w)

module _ (key : StepGuardKey) where
  abbrev pub observed : Result Fault GuardResult × World → Result Fault GuardResult × StepView
  observed done = (done.0, step_view key done.1)

  finished-view :
      (result : StepResult) (later now : ℕ) (row : StepRow)
      → row_view key later (some (finished_row result now row))
        ≡ settled_view key.step_key (result_status result)
  unfolding finished_row settled_view
  finished-view result later now row = rw (result_not_running result) refl

  retryable-view :
      (now : ℕ) (row : StepRow) → row_view key now (some (retryable_row row)) ≡ open_step
  unfolding retryable_row is_terminal_step_for_retry
  retryable-view now row = ground arith

  module _ (token : String) (w : World) (row : StepRow) (unique : HasUniqueSteps w.run_steps)
      (found : find_row key w ≡ some row) (held : is_held key token row ≡ true) where
    held-token : has_token token row.lease_token ≡ true
    held-token = ground arith

    persisted :
        (result : StepResult)
        → after_admission key token [] (λ v. (ok result, v)) admitted w
          ≡ (ok (executed result), (persist_step key token result w).1)
    unfolding after_admission operate beats
    persisted result = rw (holder_writes key token result w row unique found held).0 refl

    -- The operation of an admitted step, without a beat in between.
    operated-spec :
        (r : Result Fault StepResult)
        → observed (after_admission key token [] (λ v. (r, v)) admitted w)
          ≡ spec_run_once key.step_key r open_step
    unfolding spec_run_once after_admission operate beats release_step
    operated-spec (ok result) =
        let (answers, writes) = holder_writes key token result w row unique found held in
        ap observed (persisted result)
        ∙ ap (λ o. (ok (executed result), row_view key (persist_step key token result w).1.now o))
            writes
        ∙ ap (λ v. (ok (executed result), v))
            (finished-view result (persist_step key token result w).1.now w.now row)
    operated-spec (err e) =
        ap (λ o. (err e, row_view key w.now o)) (holder_releases key token w row found held-token)
        ∙ ap (λ v. (err e, v)) (retryable-view w.now row)

module _ (key : StepGuardKey) (token : String) (r : Result Fault StepResult) (w : World)
    (unique : HasUniqueSteps w.run_steps) where
  abbrev go : Result Fault Admission × World → Result Fault GuardResult × World
  go a = continue a.0 (after_admission key token [] (λ v. (r, v))) a.1

  found-spec :
      (row : StepRow)
      → find_row key w ≡ some row
      → observed key (go (admit_step key token w))
        ≡ spec_run_once key.step_key r (row_view key w.now (some row))
  unfolding spec_run_once after_admission
  found-spec row found = elim (Bool-cases (is_terminal_step_for_retry key.step_key row.status)) [
    | inl ended ↦
        ap (λ a. observed key (go a)) (admit-ended key token w row found ended)
        ∙ ap (λ o. (ok (already_terminal row.status), row_view key w.now o)) found
        ∙ (rw ended refl)
    | inr again ↦
        elim (Bool-cases
          (same_step_status row.status StepStatus.running && is_live row.lease_until w.now)) [
            | inl held ↦
                ap (λ a. observed key (go a)) (admit-held key token w row found again held)
                ∙ ap (λ o. (ok busy, row_view key w.now o)) found
                ∙ (rw again (rw held refl))
            | inr idle ↦
                ap (λ a. observed key (go a)) (admit-again key token w row found again idle)
                ∙ operated-spec key token
                    (record w {
                      run_steps = update (is_row_of key) (admitted_row token w.now) w.run_steps;
                    })
                    (admitted_row token w.now row) (updated-HasUniqueSteps key token w unique)
                    (find?-update_self (is_row_of key) (admitted_row token w.now)
                      (admitted-key key token w.now) w.run_steps found)
                    (admitted-held key token w unique row
                      (find?-holds (is_row_of key) w.run_steps found))
                    r
                ∙ (rw again (rw idle refl))
          ]
  ]

  absent-spec :
      find_row key w ≡ none
      → observed key (go (admit_step key token w)) ≡ spec_run_once key.step_key r open_step
  absent-spec absent =
      let row = admitted_row token w.now (fresh_row key) in
      ap (λ a. observed key (go a)) (admit-absent key token w absent)
      ∙ operated-spec key token (record w { run_steps = w.run_steps ++ row ∷ [] }) row
          (inserted-HasUniqueSteps key token w unique absent)
          (find?-append (is_row_of key) w.run_steps (row ∷ []) absent
            ∙ (rw (is_row_of-fresh key token w.now) refl))
          (admitted-held key token w unique (fresh_row key)
            (sym (admitted-key key token w.now (fresh_row key)) ∙ is_row_of-fresh key token w.now))
          r

module _ (random : ℕ → String) (key : StepGuardKey) where
  -- DatabaseStepGuard keeps the same promise as InMemoryStepGuard, where step rows have unique keys: a step
  -- whose row has ended is answered with its status, one whose row is RUNNING under a live lease is busy, and any
  -- other is executed and ends as its result says, or is open again if its operation throws. The operation leaves
  -- the database alone and ends before the first beat of the lease.
  pub run_once-refines :
      (r : Result Fault StepResult) (w : World)
      → HasUniqueSteps w.run_steps
      → observed key (run_once random [] key (λ v. (r, v)) w)
        ≡ spec_run_once key.step_key r (step_view key w)
  unfolding run_once
  run_once-refines r w unique =
      let drawn = record w { draws = suc w.draws } in
      elim (Option-cases (find_row key w)) [
        | inl absent ↦
            absent-spec key (random w.draws) r drawn unique absent
            ∙ ap (λ o. spec_run_once key.step_key r (row_view key w.now o)) (sym absent)
        | inr (row, found) ↦
            found-spec key (random w.draws) r drawn unique row found
            ∙ ap (λ o. spec_run_once key.step_key r (row_view key w.now o)) (sym found)
      ]
