-- ===== src/Guard/Writes.antt =====
-- Who may write the result of a step: DatabaseStepGuard of apps/worker/src/workflow/db-adapter.ts.
use code_host.Prelude.{
  ℕ, suc, String, Bool, true, false, List, some, count, ◌&&◌, if◌then◌else◌, ◌≡◌, ◌∙◌, refl, ap,
  arith, find?-update, find?-holds,
}
use mathlib.Core.Option
use code_host.Prelude.Result.{ok, err}
use code_host.Workflow.{StepResult}
use code_host.Database.Tables.{StepRow, World}
use code_host.Database.Effects.{Fault, step_lease_lost, Effect}
use code_host.Database.Counting.{count_of_unique, update-none}
use code_host.Guard.{
  StepGuardKey, executed, is_row_of, find_row, has_token, is_held, admitted, admit_step, beats,
  finished_row, persist_step, release_step, retryable_row, run_once, operate, after_admission,
}
use code_host.Guard.Leases.{HasUniqueSteps}

held-row :
    (key : StepGuardKey) (token : String) (r : StepRow)
    → is_held key token r ≡ true
    → is_row_of key r ≡ true
held-row key token r h = ground arith

-- The rows that a catch may release.
abbrev is_mine : StepGuardKey → String → StepRow → Bool
is_mine key token r = is_row_of key r && has_token token r.lease_token

mine-row :
    (key : StepGuardKey) (token : String) (r : StepRow)
    → is_mine key token r ≡ true
    → is_row_of key r ≡ true
mine-row key token r h = ground arith

finished-key :
    (key : StepGuardKey) (result : StepResult) (now : ℕ) (a : StepRow)
    → is_row_of key (finished_row result now a) ≡ is_row_of key a
unfolding finished_row
finished-key key result now a = refl

retryable-key :
    (key : StepGuardKey) (a : StepRow) → is_row_of key (retryable_row a) ≡ is_row_of key a
unfolding retryable_row
retryable-key key a = refl

-- Where step rows have unique keys, a worker whose lease was taken over (the row carries another
-- token, or none) writes nothing more: its result is refused with StepLeaseLostError, and its
-- error handler leaves the state as it is.
pub lost_lease_writes_nothing :
    (key : StepGuardKey) (token : String) (result : StepResult) (w : World) (row : StepRow)
    → HasUniqueSteps w.run_steps
    → find_row key w ≡ some row
    → has_token token row.lease_token ≡ false
    → (persist_step key token result w ≡ (err (step_lease_lost key.step_key), w))
      × (release_step key token w ≡ (ok tt, w))
unfolding persist_step release_step
lost_lease_writes_nothing key token result w row unique found lost =
    let none_held : count (is_held key token) w.run_steps ≡ 0 =
      count_of_unique (is_row_of key) (is_held key token) (held-row key token) w.run_steps found
        (unique key)
      ∙ (ground arith) in
    let none_mine : count (is_mine key token) w.run_steps ≡ 0 =
      count_of_unique (is_row_of key) (is_mine key token) (mine-row key token) w.run_steps found
        (unique key)
      ∙ (ground arith) in
    (
      rw none_held refl,
      λ i. (
        ok tt,
        record w {
          run_steps = update-none (is_mine key token) retryable_row w.run_steps none_mine i;
        },
      ),
    )

-- Where step rows have unique keys, a worker that holds the lease of a RUNNING row writes its
-- result: the row takes the result's status and failure and gives up the lease, and the caller is
-- told the result.
pub holder_writes :
    (key : StepGuardKey) (token : String) (result : StepResult) (w : World) (row : StepRow)
    → HasUniqueSteps w.run_steps
    → find_row key w ≡ some row
    → is_held key token row ≡ true
    → ((persist_step key token result w).0 ≡ ok (executed result))
      × (find_row key (persist_step key token result w).1 ≡ some (finished_row result w.now row))
unfolding persist_step
holder_writes key token result w row unique found held =
    let one_held : count (is_held key token) w.run_steps ≡ 1 =
      count_of_unique (is_row_of key) (is_held key token) (held-row key token) w.run_steps found
        (unique key)
      ∙ (rw held refl) in
    (
      rw one_held refl,
      rw one_held (
          find?-update (is_row_of key) (is_held key token) (finished_row result w.now)
            (λ a _. finished-key key result w.now a) w.run_steps
          ∙ ap (Option.map (λ a. if is_held key token a then finished_row result w.now a else a))
              found
          ∙ (rw held refl)),
    )

-- The holder's error handler puts the row back to be run again.
pub holder_releases :
    (key : StepGuardKey) (token : String) (w : World) (row : StepRow)
    → find_row key w ≡ some row
    → has_token token row.lease_token ≡ true
    → find_row key (release_step key token w).1 ≡ some (retryable_row row)
unfolding release_step
holder_releases key token w row found mine =
    find?-update (is_row_of key) (is_mine key token) retryable_row (λ a _. retryable-key key a)
      w.run_steps
    ∙ ap (Option.map (λ a. if is_mine key token a then retryable_row a else a)) found
    ∙ (rw (find?-holds (is_row_of key) w.run_steps found, mine) refl)

module _ (random : ℕ → String) (during : List (World → World)) where
  -- The token that `runOnce` draws, the state in which it asks to be admitted, and the state in which
  -- the operation starts.
  abbrev pub drawn_token : World → String
  drawn_token w = random w.draws

  abbrev pub after_draw : World → World
  after_draw w = record w { draws = suc w.draws }

  abbrev pub at_operation : StepGuardKey → World → World
  at_operation key w =
      (beats key (drawn_token w) during (admit_step key (drawn_token w) (after_draw w)).1).1

  -- If a step is admitted, its operation throws, and its row still carries the worker's token
  -- then, `runOnce` throws the same and leaves the row PENDING with the code STEP_RETRYABLE_ERROR,
  -- without a lease.
  pub run_once-throws :
      (key : StepGuardKey) (operation : Effect StepResult) (w : World) (fault : Fault)
      (row : StepRow)
      → (admit_step key (drawn_token w) (after_draw w)).0 ≡ ok admitted
      → (operation (at_operation key w)).0 ≡ err fault
      → find_row key (operation (at_operation key w)).1 ≡ some row
      → has_token (drawn_token w) row.lease_token ≡ true
      → ((run_once random during key operation w).0 ≡ err fault)
        × (find_row key (run_once random during key operation w).1 ≡ some (retryable_row row))
  unfolding run_once operate after_admission
  run_once-throws key operation w fault row admitted_first failed found mine = (
    rw admitted_first (rw failed refl),
    rw admitted_first (
        rw failed
          (holder_releases key (drawn_token w) (operation (at_operation key w)).1 row found mine)),
  )
