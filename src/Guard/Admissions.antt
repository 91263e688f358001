-- ===== src/Guard/Admissions.antt =====
-- What the first transaction of DatabaseStepGuard.runOnce (apps/worker/src/workflow/db-adapter.ts) answers and
-- writes, by the row that it finds.
use code_host.Prelude.{
  eq_iff, ℕ, String, Bool, true, false, List, [], ◌∷◌, ◌++◌, none, some, find?, count, update,
  eq_refl, ◌&&◌, ◌≡◌, inl, inr, refl, arith, Bool-cases, count-append, count-update,
}
use code_host.Prelude.Result.{ok}
use code_host.Workflow.{StepStatus, same_step_status}
use code_host.Database.Tables.{StepRow, World}
use code_host.Guard.{
  StepGuardKey, already_terminal, busy, is_terminal_step_for_retry, is_row_of, find_row, is_live,
  is_held, admitted, refused, admitted_row, fresh_row, admit_step,
}
use code_host.Guard.Leases.{HasUniqueSteps}

count-same {ℓ} :
    {A : Type ℓ} (p q : A → Bool) → ((a : A) → p a ≡ q a) → (xs : List A) → count p xs ≡ count q xs
count-same p q same [] = refl
count-same p q same (x ∷ xs) = ground (arith, same x, count-same p q same xs)

count-none :
    (key : StepGuardKey) (rows : List StepRow)
    → find? (is_row_of key) rows ≡ none
    → count (is_row_of key) rows ≡ 0
count-none key [] h = refl
count-none key (r ∷ rows) h = ground (arith, count-none key rows)

same_rows :
    (key other : StepGuardKey) (token : String) (now : ℕ)
    → is_row_of other (admitted_row token now (fresh_row key)) ≡ true
    → (r : StepRow) → is_row_of other r ≡ is_row_of key r
unfolding admitted_row fresh_row
same_rows key other token now h r = ground (arith, eq_iff key.run_id other.run_id)

module _ (key : StepGuardKey) (token : String) (w : World)
    (unique : HasUniqueSteps w.run_steps) where
  pub inserted-HasUniqueSteps :
      find_row key w ≡ none
      → HasUniqueSteps (w.run_steps ++ admitted_row token w.now (fresh_row key) ∷ [])
  inserted-HasUniqueSteps absent other =
      let row = admitted_row token w.now (fresh_row key) in
      elim (Bool-cases (is_row_of other row)) [
        | inl mine ↦ ground (
          arith,
          count-append (is_row_of other) w.run_steps (row ∷ []),
          count-same (is_row_of other) (is_row_of key) (same_rows key other token w.now mine)
              w.run_steps,
          count-none key w.run_steps absent,
        )
        | inr foreign ↦
            ground (arith, unique other, count-append (is_row_of other) w.run_steps (row ∷ []))
      ]

  pub updated-HasUniqueSteps :
      HasUniqueSteps (update (is_row_of key) (admitted_row token w.now) w.run_steps)
  unfolding admitted_row
  updated-HasUniqueSteps other = omega (
    arith,
    unique other,
    count-update (is_row_of other) (is_row_of key) (admitted_row token w.now) (λ a _. refl)
        w.run_steps,
  )

  pub admitted-held :
      (row : StepRow)
      → is_row_of key row ≡ true
      → is_held key token (admitted_row token w.now row) ≡ true
  unfolding admitted_row
  admitted-held row its = ground (arith, eq_refl token)

pub admitted-key :
    (key : StepGuardKey) (token : String) (now : ℕ) (r : StepRow)
    → is_row_of key (admitted_row token now r) ≡ is_row_of key r
unfolding admitted_row
admitted-key key token now r = refl

module _ (key : StepGuardKey) (token : String) (w : World) where
  pub admit-absent :
      find_row key w ≡ none
      → admit_step key token w ≡ (
        ok admitted,
        record w { run_steps = w.run_steps ++ admitted_row token w.now (fresh_row key) ∷ [] },
      )
  unfolding admit_step
  admit-absent absent = rw (absent, admit_step) refl

  module _ (row : StepRow) (found : find_row key w ≡ some row) where
    pub admit-ended :
        is_terminal_step_for_retry key.step_key row.status ≡ true
        → admit_step key token w ≡ (ok (refused (already_terminal row.status)), w)
    unfolding admit_step
    admit-ended ended = rw (found, admit_step) (rw ended refl)

    pub admit-held :
        is_terminal_step_for_retry key.step_key row.status ≡ false
        → (same_step_status row.status StepStatus.running && is_live row.lease_until w.now) ≡ true
        → admit_step key token w ≡ (ok (refused busy), w)
    unfolding admit_step
    admit-held again held = rw (found, admit_step) (rw again (rw held refl))

    pub admit-again :
        is_terminal_step_for_retry key.step_key row.status ≡ false
        → (same_step_status row.status StepStatus.running && is_live row.lease_until w.now) ≡ false
        → admit_step key token w ≡ (
          ok admitted,
          record w { run_steps = update (is_row_of key) (admitted_row token w.now) w.run_steps },
        )
    unfolding admit_step
    admit-again again idle = rw (found, admit_step) (rw again (rw idle refl))
