-- ===== src/Guard/Leases.antt =====
-- The leases of DatabaseStepGuard (apps/worker/src/workflow/db-adapter.ts): who may run a step,
-- and who may write its result.
use code_host.Prelude.{
  ℕ, suc, ◌+◌, ◌≤◌, ◌<◌, String, Bool, true, false, List, [], ◌∷◌, some, find?, count, update,
  eq_refl, ==-refl, ◌&&◌, if◌then◌else◌, ◌≡◌, inl, inr, refl, ap, ◌∙◌, arith, Bool-cases,
  Option-cases, find?-update, find?-holds, find?-append,
}
use mathlib.Core.Option
use code_host.Prelude.Result.{ok}
use code_host.Workflow.{step_index, StepStatus, same_step_status, StepResult}
use code_host.Database.Tables.{StepRow, World}
use code_host.Database.Effects.{Effect}
use code_host.Guard.{
  StepGuardKey, already_terminal, busy, stale_step_ms, is_terminal_step_for_retry, is_row_of,
  find_row, is_live, admitted, refused, admitted_row, fresh_row, admit_step, run_once,
}

-- No two rows have one key.
abbrev pub HasUniqueSteps : List StepRow → Type 0
HasUniqueSteps rows = (key : StepGuardKey) → count (is_row_of key) rows ≤ 1

module _ (random : ℕ → String) (during : List (World → World)) where
  -- `runOnce` on a step whose row has ended, other than a cleanup that FAILED or is INCOMPLETE,
  -- answers already-terminal with the row's status and changes nothing but the count of drawn
  -- tokens, whatever the operation is.
  pub run_once-terminal :
      (key : StepGuardKey) (operation : Effect StepResult) (w : World) (row : StepRow)
      → find_row key w ≡ some row
      → is_terminal_step_for_retry key.step_key row.status ≡ true
      → run_once random during key operation w
        ≡ (ok (already_terminal row.status), record w { draws = suc w.draws })
  unfolding run_once admit_step
  run_once-terminal key operation w row found ended = rw (found, admit_step) (rw ended)

  -- `runOnce` on a RUNNING row whose lease has not run out answers busy and changes nothing but
  -- the count of drawn tokens, whatever the operation is.
  pub run_once-busy :
      (key : StepGuardKey) (operation : Effect StepResult) (w : World) (row : StepRow)
      → find_row key w ≡ some row
      → is_terminal_step_for_retry key.step_key row.status ≡ false
      → (row.status ≡ StepStatus.running) × (is_live row.lease_until w.now ≡ true)
      → run_once random during key operation w ≡ (ok busy, record w { draws = suc w.draws })
  unfolding run_once admit_step
  run_once-busy key operation w row found open_step (running, live) =
      rw (found, admit_step) (rw open_step (rw running (rw live)))

pub is_row_of-fresh :
    (key : StepGuardKey) (token : String) (now : ℕ)
    → is_row_of key (admitted_row token now (fresh_row key)) ≡ true
unfolding admitted_row fresh_row
is_row_of-fresh key token now =
    ground (arith, eq_refl key.run_id, ==-refl key.attempt, ==-refl (step_index key.step_key))

pub find?-update_self {ℓ} :
    {A : Type ℓ} (p : A → Bool) (f : A → A)
    → ((a : A) → p (f a) ≡ p a)
    → (xs : List A) {a : A} → find? p xs ≡ some a
    → find? p (update p f xs) ≡ some (f a)
find?-update_self p f same xs {a} found =
    find?-update p p f (λ b _. same b) xs
    ∙ ap (Option.map (λ b. if p b then f b else b)) found
    ∙ (rw (find?-holds p xs found))

-- What an admission leaves in the key's row.
record IsAdmitted (token : String) (now : ℕ) (row : StepRow) : Type 0 where
  status : row.status ≡ StepStatus.running
  token_kept : row.lease_token ≡ some token
  until : row.lease_until ≡ some (now + stale_step_ms)

-- What an admission over an existing row says of it.
admit_step-guard :
    (key : StepGuardKey) (token : String) (w : World) (row : StepRow)
    → find_row key w ≡ some row
    → (admit_step key token w).0 ≡ ok admitted
    → (is_terminal_step_for_retry key.step_key row.status ≡ false)
      × ((same_step_status row.status StepStatus.running && is_live row.lease_until w.now) ≡ false)
unfolding admit_step
admit_step-guard key token w row found h =
    let h' = rw (found, admit_step) at h in
    elim (Bool-cases (is_terminal_step_for_retry key.step_key row.status)) [
      | inl ended ↦ cc (rw ended at h')
      | inr again ↦
          elim (Bool-cases
            (same_step_status row.status StepStatus.running && is_live row.lease_until w.now)) [
              | inl held ↦ cc (rw held at (rw again at h'))
              | inr idle ↦ (again, idle)
            ]
    ]

-- A row that is RUNNING under a live lease refuses.
admit_step-busy :
    (key : StepGuardKey) (token : String) (w : World) (row : StepRow)
    → find_row key w ≡ some row
    → row.status ≡ StepStatus.running
    → is_live row.lease_until w.now ≡ true
    → admit_step key token w ≡ (ok (refused busy), w)
unfolding admit_step is_terminal_step_for_retry
admit_step-busy key token w row found running live =
    rw (found, admit_step) (rw running (rw live (ground arith)))

admit_step-row :
    (key : StepGuardKey) (token : String) (w : World)
    → (admit_step key token w).0 ≡ ok admitted
    → (row : StepRow) × (find_row key (admit_step key token w).1 ≡ some row)
      × IsAdmitted token w.now row
unfolding admit_step admitted_row
admit_step-row key token w h = elim (Option-cases (find_row key w)) [
  | inl absent ↦ (
    admitted_row token w.now (fresh_row key),
    rw (absent, admit_step)
        (find?-append (is_row_of key) w.run_steps (admitted_row token w.now (fresh_row key) ∷ [])
            absent
          ∙ (rw (is_row_of-fresh key token w.now))),
    record { status = refl; token_kept = refl; until = refl },
  )
  | inr (row, found) ↦
      let (again, idle) = admit_step-guard key token w row found h in
      (
        admitted_row token w.now row,
        rw (found, admit_step)
            (rw again (
              rw idle (
                find?-update_self (is_row_of key) (admitted_row token w.now) (λ a. refl) w.run_steps
                  found))),
        record { status = refl; token_kept = refl; until = refl },
      )
]

-- From an admission until its lease runs out, no other admission of the step is granted, with
-- whatever token: it is refused as busy and changes nothing, as long as the step's row is as the
-- first admission left it.
pub admit_step-excludes :
    (key : StepGuardKey) (token other : String) (w later : World)
    → (admit_step key token w).0 ≡ ok admitted
    → find_row key later ≡ find_row key (admit_step key token w).1
    → later.now < w.now + stale_step_ms
    → admit_step key other later ≡ (ok (refused busy), later)
admit_step-excludes key token other w later h kept soon =
    let (row, found, a) = admit_step-row key token w h in
    admit_step-busy key other later row (kept ∙ found) a.status (rw a.until (ground arith))
