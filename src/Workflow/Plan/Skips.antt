-- ===== src/Workflow/Plan/Skips.antt =====
-- What apps/worker/src/workflow/plan.ts skips after a failure, and what it never skips.
use code_host.Prelude.{true, false, ◌≡◌, ◌≢◌, ◌⊎◌, inl, inr, arith, none, some, List}
use code_host.Workflow.{
  StepKey, detect, fetch, analyze, test, build, preview, health, assemble_review_input,
  agent_review, cleanup, application, StepRecord,
}
use code_host.Workflow.Plan.{
  run, skip, should_skip, next_step_action, has_failure, has_hard_failure_before_assemble,
  is_closing,
}
use code_host.Workflow.Plan.Order.{next_step_action-first}

-- `later` is skipped after an application failure of `gate`.
abbrev pub Gates : StepKey → StepKey → Type 0
Gates detect later =
    (later ≡ fetch)
    ⊎ (later ≡ analyze)
    ⊎ (later ≡ test)
    ⊎ (later ≡ build)
    ⊎ (later ≡ preview)
    ⊎ (later ≡ health)
Gates test later = (later ≡ build) ⊎ (later ≡ preview) ⊎ (later ≡ health)
Gates build later = (later ≡ preview) ⊎ (later ≡ health)
Gates preview later = later ≡ health
Gates _ later = ⊥

Gates-should_skip :
    (gate later : StepKey) (records : List StepRecord)
    → Gates gate later
    → has_failure records gate (some application) ≡ true
    → should_skip later records ≡ true
unfolding should_skip
Gates-should_skip detect later records g h = ground arith
Gates-should_skip test later records g h = ground arith
Gates-should_skip build later records g h = ground arith
Gates-should_skip preview later records g h = ground arith
Gates-should_skip _ later records g h = elim g [ ]

-- A run of a step that is not the cleanup again was not to be skipped.
run-should_skip :
    (records : List StepRecord) (key : StepKey)
    → next_step_action records ≡ some (run key)
    → (key ≡ cleanup) ⊎ (should_skip key records ≡ false)
run-should_skip records key h = elim (next_step_action-first records (run key) h) [
  | inl (again, e) ↦ inl (ground arith)
  | inr (first, e) ↦ inr (ground arith)
]

-- Once a gate has failed for the application the planner never runs a step behind it: build,
-- preview and health behind the tests, preview and health behind the build, health behind the
-- preview, and all steps from the fetch to the health check behind the detection.
pub gate_blocks :
    (records : List StepRecord) (gate later : StepKey)
    → Gates gate later
    → has_failure records gate (some application) ≡ true
    → next_step_action records ≢ some (run later)
gate_blocks records gate later g h e = elim (run-should_skip records later e) [
  | inl is_cleanup ↦ not_gated gate later g is_cleanup
  | inr not_skipped ↦ ground (arith, Gates-should_skip gate later records g h)
]
  where
    not_gated : (gate later : StepKey) → Gates gate later → later ≡ cleanup → ⊥
    not_gated detect later g e = ground arith
    not_gated test later g e = ground arith
    not_gated build later g e = ground arith
    not_gated preview later g e = ground arith
    not_gated _ later g e = g

hard_should_skip :
    (records : List StepRecord) (key : StepKey)
    → has_hard_failure_before_assemble records ≡ true
    → (is_closing key ≡ true) ⊎ (should_skip key records ≡ true)
unfolding should_skip
hard_should_skip records key h = ground arith

-- After a failure that is not the application's (a record before `assemble-review-input` that is
-- INCOMPLETE, or FAILED of another kind) the planner runs only the four closing steps.
pub hard_failure_closes :
    (records : List StepRecord) (key : StepKey)
    → has_hard_failure_before_assemble records ≡ true
    → next_step_action records ≡ some (run key)
    → is_closing key ≡ true
hard_failure_closes records key h e = elim (run-should_skip records key e) [
  | inl is_cleanup ↦ ground arith
  | inr not_skipped ↦ ground (arith, hard_should_skip records key)
]

-- Of the four closing steps the planner skips only the review, and it only after an assembly of
-- its input that FAILED.
pub closing_not_skipped :
    (records : List StepRecord) (key : StepKey)
    → next_step_action records ≡ some (skip key)
    → is_closing key ≡ true
    → (key ≡ agent_review) × (has_failure records assemble_review_input none ≡ true)
unfolding should_skip
closing_not_skipped records key e c = elim (next_step_action-first records (skip key) e) [
  | inl (again, e') ↦ ground arith
  | inr (first, e') ↦ skipped key c (ground arith)
]
  where
    skipped :
        (key : StepKey)
        → is_closing key ≡ true
        → should_skip key records ≡ true
        → (key ≡ agent_review) × (has_failure records assemble_review_input none ≡ true)
    skipped key c h = ground arith
