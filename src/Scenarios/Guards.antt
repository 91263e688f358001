-- ===== src/Scenarios/Guards.antt =====
-- The step guard of apps/worker/src/workflow/db-adapter.ts on concrete rows.
use code_host.Prelude.{◌+◌, ◌<◌, true, false, [], ◌∷◌, none, some, ◌≡◌, refl, arith}
use code_host.Prelude.Result.{ok, err}
use code_host.Workflow.{test, StepStatus, StepResult, step_passed}
use code_host.Database.Tables.{StepRow, World}
use code_host.Database.Effects.{step_lease_lost, thrown, Effect, pure, throw}
use code_host.Guard.{
  busy, stale_step_ms, is_terminal_step_for_retry, find_row, has_token, admitted, refused,
  admitted_row, fresh_row, admit_step, beats, persist_step, release_step,
}
use code_host.Guard.Leases.{HasUniqueSteps, admit_step-excludes}
use code_host.Guard.Writes.{lost_lease_writes_nothing, at_operation}
use code_host.Scenarios.Data.{step_row, world_with, demo_key, demo_token}

abbrev passed_row : StepRow
passed_row = step_row test StepStatus.passed none none

abbrev leased_row : StepRow
leased_row = step_row test StepStatus.running (some "token") (some 500)

abbrev passing : Effect StepResult
passing = pure (step_passed none)

abbrev with_row : StepRow → World
with_row row = world_with [] (row ∷ [])

passed_is_terminal : is_terminal_step_for_retry test StepStatus.passed ≡ true
unfolding is_terminal_step_for_retry
passed_is_terminal = refl

running_is_open : is_terminal_step_for_retry test StepStatus.running ≡ false
unfolding is_terminal_step_for_retry
running_is_open = refl

one_row : (row : StepRow) → HasUniqueSteps (row ∷ [])
one_row row key = ground arith

abbrev no_rows : World
no_rows = world_with [] []

abbrev after_admission_of : World → World
after_admission_of w = (admit_step (demo_key test) "token" w).1

admits_first : (admit_step (demo_key test) "token" no_rows).0 ≡ ok admitted
unfolding admit_step
admits_first = refl

same_now : (after_admission_of no_rows).now ≡ 100
unfolding admit_step
same_now = refl

later_but_soon : (after_admission_of no_rows).now < 100 + stale_step_ms
later_but_soon = rw same_now (omega arith)

admit_step-excludes_example :
    admit_step (demo_key test) "other" (after_admission_of no_rows)
    ≡ (ok (refused busy), after_admission_of no_rows)
admit_step-excludes_example =
    admit_step-excludes (demo_key test) "token" "other" no_rows (after_admission_of no_rows)
      admits_first refl later_but_soon

lost_lease_writes_nothing_example :
    (persist_step (demo_key test) "stale" (step_passed none) (with_row leased_row)
      ≡ (err (step_lease_lost test), with_row leased_row))
    × (release_step (demo_key test) "stale" (with_row leased_row) ≡ (ok tt, with_row leased_row))
lost_lease_writes_nothing_example =
    lost_lease_writes_nothing (demo_key test) "stale" (step_passed none) (with_row leased_row)
      leased_row (one_row leased_row) refl refl

abbrev failing : Effect StepResult
failing = throw (thrown "network")

admits_drawn : (admit_step (demo_key test) "token" (record no_rows { draws = 1 })).0 ≡ ok admitted
unfolding admit_step
admits_drawn = refl

abbrev started_row : StepRow
started_row = admitted_row "token" 100 (fresh_row (demo_key test))

finds_started :
    find_row (demo_key test) (at_operation demo_token [] (demo_key test) no_rows) ≡ some started_row
unfolding admit_step beats fresh_row admitted_row
finds_started = refl

started_has_token : has_token "token" started_row.lease_token ≡ true
unfolding admitted_row
started_has_token = refl
