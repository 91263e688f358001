-- ===== src/Guard/Refinement.antt =====
-- The two guards of apps/worker/src/workflow/step-guard.ts and apps/worker/src/workflow/db-adapter.ts against what a
-- guard promises.
use code_host.Prelude.{
  false, [], ◌∷◌, Option, none, some, find?, eq_refl, if◌then◌else◌, ◌≡◌, inl, inr, refl, sym, ap,
  ◌∙◌, arith, Bool-cases, Option-cases, find?-update, find?-holds, find?-append, find?-none-any,
  find?-some-any,
}
use mathlib.Core.Option
use code_host.Prelude.Result.{Result, ok, err}
use code_host.Workflow.{
  StepStatus, same_step_status, StepResult, step_passed, step_failed, step_incomplete,
}
use code_host.Database.Effects.{Fault}
use code_host.Guard.{StepGuardKey, GuardResult, executed, is_terminal_step_for_retry, result_status}
use code_host.Guard.Spec.{StepView, open_step, spec_run_once}
use code_host.Guard.Memory.{
  MemoryRecord, Memory, record_key, has_record_key, find_record, set_record, delete_record,
  plain_record, map_result, memory_finish, memory_execute, memory_admit, memory_run_once,
  record_view, memory_view,
}

find_record-set :
    (r : MemoryRecord) (m : Memory) → find? (has_record_key r.key) (set_record r m) ≡ some r
unfolding set_record
find_record-set r m = elim (Option-cases (find? (has_record_key r.key) m)) [
  | inl absent ↦
      rw (find?-none-any (has_record_key r.key) m absent)
        (find?-append (has_record_key r.key) m (r ∷ []) absent ∙ (rw (eq_refl r.key) refl))
  | inr (a, found) ↦ rw (find?-some-any (has_record_key r.key) m found) (
      find?-update (has_record_key r.key) (has_record_key r.key) (λ _. r)
        (λ b is_b. eq_refl r.key ∙ sym is_b) m
      ∙ ap (Option.map (λ b. if has_record_key r.key b then r else b)) found
      ∙ (rw (find?-holds (has_record_key r.key) m found) refl))
]

find_record-delete :
    (key : StepGuardKey) (m : Memory) → find_record key (delete_record (record_key key) m) ≡ none
unfolding delete_record
find_record-delete key [] = refl
find_record-delete key (r ∷ m) = ground (arith, find_record-delete key m)

pub result_not_running :
    (r : StepResult) → same_step_status (result_status r) StepStatus.running ≡ false
result_not_running (step_passed details) = refl
result_not_running (step_failed kind code details) = refl
result_not_running (step_incomplete kind code details) = refl

module _ (key : StepGuardKey) where
  abbrev pub seen : Result Fault GuardResult × Memory → Result Fault GuardResult × StepView
  seen done = (done.0, memory_view key done.1)

  memory_finish-spec :
      (r : Result Fault StepResult) (m : Memory)
      → seen (memory_finish key r m) ≡ spec_run_once key.step_key r open_step
  unfolding memory_finish spec_run_once
  memory_finish-spec (ok result) m =
      ap (λ o. (ok (executed result), record_view key o))
        (find_record-set (map_result key result) m)
      ∙ (rw (result_not_running result) refl)
  memory_finish-spec (err e) m = ap (λ o. (err e, record_view key o)) (find_record-delete key m)

  memory_admit-refines :
      (r : Result Fault StepResult) (m : Memory) (o : Option MemoryRecord)
      → find_record key m ≡ o
      → seen (memory_admit key (λ records. (r, records)) o m)
        ≡ spec_run_once key.step_key r (record_view key o)
  unfolding memory_admit memory_execute spec_run_once
  memory_admit-refines r m none absent =
      memory_finish-spec r (set_record (plain_record key StepStatus.running none) m)
  memory_admit-refines r m (some a) found =
      let started =
        memory_finish-spec r (set_record (plain_record key StepStatus.running none) m) in
      elim (Bool-cases (is_terminal_step_for_retry key.step_key a.status)) [
        | inl ended ↦ rw ended (rw found (rw ended refl))
        | inr again ↦ rw again (elim (Bool-cases (same_step_status a.status StepStatus.running)) [
          | inl held ↦ rw held (rw found (rw again (rw held refl)))
          | inr idle ↦ rw idle started
        ])
      ]

  -- InMemoryStepGuard keeps the promise of a guard: a step that has ended is answered with its status, one
  -- that is held is busy, and any other is executed and ends as its result says, or stays open if its
  -- operation throws. The operation leaves the guard's records alone.
  pub memory_run_once-refines :
      (r : Result Fault StepResult) (m : Memory)
      → seen (memory_run_once key (λ records. (r, records)) m)
        ≡ spec_run_once key.step_key r (memory_view key m)
  unfolding memory_run_once
  memory_run_once-refines r m = memory_admit-refines r m (find_record key m) refl
