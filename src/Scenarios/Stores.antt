-- ===== src/Scenarios/Stores.antt =====
-- The store of apps/worker/src/workflow/db-adapter.ts on concrete runs.
use code_host.Prelude.{
  ◌≤◌, true, [], ◌∷◌, none, some, count, str_eq, ◌≡◌, refl, arith, eq_iff, subst, Bool-cases, inl,
  inr,
}
use mathlib.Core.Option
use code_host.Prelude.Result.{ok}
use code_host.RunStatus.{
  queued, planning, executing, rejected_by_capacity, allows, holds_execution_lock,
}
use code_host.Database.Tables.{World}
use code_host.Database.Capacity.{is_active}
use code_host.Database.Counting.{HasUniqueIds}
use code_host.Store.{find_run, transition_run}
use code_host.Store.Transitions.{permitted, planning_silently_rejected}
use code_host.Store.Outcomes.{transition_run-outcome}
use code_host.Scenarios.Data.{run_row, world_with, demo_identity}

-- A run that waits, alone and behind one that is executed.
abbrev alone : World
alone = world_with (run_row "r1" queued ∷ []) []

abbrev behind : World
behind = world_with (run_row "r1" queued ∷ run_row "r0" executing ∷ []) []

alone_unique : HasUniqueIds alone.runs
alone_unique id = ground arith

behind_unique : HasUniqueIds behind.runs
behind_unique id = elim (Bool-cases (str_eq "r1" id)) [
  | inl same ↦
      subst (λ i. count (λ r. str_eq r.id i) behind.runs ≤ 1) ((eq_iff "r1" id).0 same)
        (omega arith)
  | inr other ↦ ground arith
]

one_is_active : 1 ≤ count is_active behind.runs
unfolding holds_execution_lock
one_is_active = ground arith

may_plan : permitted demo_identity planning (run_row "r1" queued) ≡ true
unfolding allows
may_plan = refl

transition_run-outcome_example : transition_run demo_identity planning none alone ≡ (
  ok tt,
  record alone {
    runs =
        record (run_row "r1" queued) { status = planning; updated_at = 100; started_at = some 100 }
        ∷ [];
  },
)
unfolding allows holds_execution_lock
transition_run-outcome_example =
    transition_run-outcome demo_identity planning none alone (run_row "r1" queued) alone_unique refl

planning_silently_rejected_example :
    ((transition_run demo_identity planning none behind).0 ≡ ok tt)
    × (Option.map
          (λ r. r.status)
          (find_run "r1" (transition_run demo_identity planning none behind).1)
        ≡ some rejected_by_capacity)
planning_silently_rejected_example =
    planning_silently_rejected demo_identity none behind (run_row "r1" queued) behind_unique refl
      refl refl one_is_active
