-- ===== src/Workflow/StateMachine/Outcomes.antt =====
-- What apps/worker/src/workflow/state-machine.ts answers.
use code_host.Prelude.{
  ℕ, ◌+◌, Bool, true, false, ◌≡◌, ◌≢◌, ◌↔◌, ◌⊎◌, refl, arith, none, List, [], ◌∷◌, All, any,
  if◌then◌else◌, ◌&&◌, ◌||◌, find?, not,
}
use code_host.Prelude.Result.{ok, err}
use code_host.RunStatus.{
  RunStatus, failed, incomplete, passed, cancelled, cleaned, cleanup_failed, allows, same_status,
  same_cleanup,
}
use code_host.RunStatus.Lifecycle.{is_valid-text, cancelled_needs_cleanup, can_retry_iff}
use code_host.Workflow.{
  report, same_step, StepStatus, same_step_status, is_application, RunSnapshot, StepRecord,
}
use code_host.Workflow.StateMachine.{
  transition_run, report_passed, derive_final_run_status, next_attempt,
}

same_status-eq : (a b : RunStatus) → same_status a b ≡ true → a ≡ b
same_status-eq a b h = ground arith

cancelled_confirmed :
    (from to : RunStatus) (c : Bool)
    → allows from to c ≡ true
    → same_status to cancelled ≡ true
    → c ≡ true
cancelled_confirmed from to c h e =
    let to_is : to ≡ cancelled = same_status-eq to cancelled e in
    ((cancelled_needs_cleanup from c).0 (rw to_is at h)).1

-- A snapshot takes a status exactly when it has it already or the table allows the move under its
-- own cleanup status; only its status changes. A refusal names the two statuses and gives no
-- further reason.
pub snapshot_transition-outcome :
    (run : RunSnapshot) (to : RunStatus)
    → transition_run run to ≡ (
        if same_status run.status to
          || allows run.status to (same_cleanup run.cleanup_status cleaned)
        then ok (record run { status = to })
        else err (record { from = run.status; to = to; reason = none }))
unfolding transition_run
snapshot_transition-outcome run to =
    rw (is_valid-text run.status to (same_cleanup run.cleanup_status cleaned)) (
      ground (
        arith,
        same_status-eq run.status to,
        cancelled_confirmed run.status to (same_cleanup run.cleanup_status cleaned),
      ))

no_failure :
    (steps : List StepRecord)
    → (any
          (λ r.
            same_step_status r.status StepStatus.incomplete
            || (same_step_status r.status StepStatus.failed && not (is_application r.failure_kind)))
          steps
        ≡ false)
    → (any (λ r. same_step_status r.status StepStatus.failed && is_application r.failure_kind) steps
        ≡ false)
    → All (λ r. (r.status ≢ StepStatus.failed) × (r.status ≢ StepStatus.incomplete)) steps
no_failure [] h k = tt
no_failure (r ∷ rs) h k = ground (arith, no_failure rs)

failure_seen :
    (steps : List StepRecord)
    → All (λ r. (r.status ≢ StepStatus.failed) × (r.status ≢ StepStatus.incomplete)) steps
    → (any
          (λ r.
            same_step_status r.status StepStatus.incomplete
            || (same_step_status r.status StepStatus.failed && not (is_application r.failure_kind)))
          steps
        ≡ false)
      × (any
            (λ r. same_step_status r.status StepStatus.failed && is_application r.failure_kind)
            steps
          ≡ false)
failure_seen [] h = (refl, refl)
failure_seen (r ∷ rs) (h, hs) = ground (arith, failure_seen rs hs)

-- The verdict on a list of records is PASSED exactly when the report's record passed and no record
-- is FAILED or INCOMPLETE.
pub derive_final-passed :
    (steps : List StepRecord)
    → (derive_final_run_status steps ≡ passed) ↔ (
        (report_passed (find? (λ r. same_step r.step_key report) steps) ≡ true)
        × All (λ r. (r.status ≢ StepStatus.failed) × (r.status ≢ StepStatus.incomplete)) steps)
unfolding derive_final_run_status
derive_final-passed steps = (
  λ h. (ground arith, no_failure steps (ground arith) (ground arith)),
  λ (reported, clean). let (hard, soft) = failure_seen steps clean in rw (reported, hard, soft),
)

no_hard_failure :
    (steps : List StepRecord)
    → (any
          (λ r.
            same_step_status r.status StepStatus.incomplete
            || (same_step_status r.status StepStatus.failed && not (is_application r.failure_kind)))
          steps
        ≡ false)
      ↔ All
          (λ r.
            (r.status ≢ StepStatus.incomplete)
            × ((r.status ≢ StepStatus.failed) ⊎ (is_application r.failure_kind ≡ true)))
          steps
no_hard_failure [] = (λ _. tt, λ _. refl)
no_hard_failure (r ∷ rs) =
    let (to, from) = no_hard_failure rs in
    (λ h. (ground arith, to (ground arith)), λ (a, all). ground (arith, from all))

-- The verdict on a list of records is FAILED exactly when the report's record passed, a failure of
-- the application is on record, no record is INCOMPLETE, and every record that FAILED is the
-- application's.
pub derive_final-failed :
    (steps : List StepRecord)
    → (derive_final_run_status steps ≡ failed) ↔ (
        (report_passed (find? (λ r. same_step r.step_key report) steps) ≡ true)
        × (any
              (λ r. same_step_status r.status StepStatus.failed && is_application r.failure_kind)
              steps
            ≡ true)
        × All
            (λ r.
              (r.status ≢ StepStatus.incomplete)
              × ((r.status ≢ StepStatus.failed) ⊎ (is_application r.failure_kind ≡ true)))
            steps)
unfolding derive_final_run_status
derive_final-failed steps = (
  λ h. (ground arith, ground arith, (no_hard_failure steps).0 (ground arith)),
  λ (reported, blamed, others). rw (reported, (no_hard_failure steps).1 others, blamed) refl,
)

-- A next attempt is granted exactly to a FAILED or INCOMPLETE run whose cleanup has ended, confirmed
-- or failed with a person's confirmation, and it is numbered one higher.
pub next_attempt-ok :
    (run : RunSnapshot) (manual : Bool) (n : ℕ)
    → (next_attempt run manual ≡ ok n) ↔ (
        (((run.status ≡ failed) ⊎ (run.status ≡ incomplete))
          × ((run.cleanup_status ≡ cleaned)
              ⊎ ((run.cleanup_status ≡ cleanup_failed) × (manual ≡ true))))
        × (n ≡ run.attempt + 1))
unfolding next_attempt
next_attempt-ok run manual n =
    let (to, from) = can_retry_iff run.status run.cleanup_status manual in
    (λ h. (to (ground arith), ground arith), λ (allowed, e). rw (from allowed, e))
