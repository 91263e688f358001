-- ===== src/Guard/Skips.antt =====
-- What `markSkipped` of DatabaseStepGuard (apps/worker/src/workflow/db-adapter.ts) leaves in the rows.
use code_host.Prelude.{
  ℕ, String, true, false, List, [], ◌∷◌, ◌++◌, some, find?, update, eq_refl, ==-refl, if◌then◌else◌,
  ◌≡◌, ◌∙◌, refl, sym, ap, arith, Bool-cases, Option-cases, inl, inr, find?-append,
  find?-append_some,
}
use code_host.Prelude.Result.{ok}
use code_host.Workflow.{StepKey, step_index, same_step, StepStatus, same_step_status}
use code_host.Workflow.Plan.Order.{same_step-eq}
use code_host.Database.Tables.{StepRow, World}
use code_host.Guard.{StepGuardKey, is_row_of, find_row, fresh_row, is_terminal_step_for_retry}
use code_host.Guard.Leases.{find?-update_self}
use code_host.Guard.Rows.{mark_skipped, skipped_row}

is_row_of-skipped :
    (key : StepGuardKey) (reason : String) (now : ℕ)
    → is_row_of key (skipped_row reason now (fresh_row key)) ≡ true
unfolding skipped_row fresh_row
is_row_of-skipped key reason now =
    ground (arith, eq_refl key.run_id, ==-refl key.attempt, ==-refl (step_index key.step_key))

is_terminal-skipped :
    (k : StepKey) (reason : String) (now : ℕ) (r : StepRow)
    → is_terminal_step_for_retry k (skipped_row reason now r).status ≡ true
unfolding is_terminal_step_for_retry skipped_row
is_terminal-skipped k reason now r = ground arith

-- Where `markSkipped` returns, the step has a row, and the row has ended.
pub mark_skipped-row :
    (key : StepGuardKey) (reason : String) (w : World)
    → (mark_skipped key reason w).0 ≡ ok tt
    → (row : StepRow) × (find_row key (mark_skipped key reason w).1 ≡ some row)
      × (is_terminal_step_for_retry key.step_key row.status ≡ true)
unfolding mark_skipped skipped_row
mark_skipped-row key reason w h = elim (Option-cases (find_row key w)) [
  | inl absent ↦ (
    skipped_row reason w.now (fresh_row key),
    rw (absent, mark_skipped)
        (find?-append (is_row_of key) w.run_steps (skipped_row reason w.now (fresh_row key) ∷ [])
            absent
          ∙ (rw (is_row_of-skipped key reason w.now) refl)),
    is_terminal-skipped key.step_key reason w.now (fresh_row key),
  )
  | inr (row, found) ↦ elim (Bool-cases (is_terminal_step_for_retry key.step_key row.status)) [
    | inl ended ↦ (row, rw (found, mark_skipped) (rw ended found), ended)
    | inr again ↦ elim (Bool-cases (same_step_status row.status StepStatus.running)) [
      | inl running ↦ cc (rw running at (rw again at (rw (found, mark_skipped) at h)))
      | inr idle ↦ (
        skipped_row reason w.now row,
        rw (found, mark_skipped)
            (rw again (
              rw idle (
                find?-update_self (is_row_of key) (skipped_row reason w.now) (λ a. refl) w.run_steps
                  found))),
        is_terminal-skipped key.step_key reason w.now row,
      )
    ]
  ]
]

other_row :
    (key other : StepGuardKey) (r : StepRow)
    → same_step other.step_key key.step_key ≡ false
    → is_row_of key r ≡ true
    → is_row_of other r ≡ false
other_row key other r apart h = ground (arith, same_step-eq r.step_key key.step_key)

-- A search for another step does not see the row that is added.
find_row-added :
    (other : StepGuardKey) (rows : List StepRow) (row : StepRow)
    → is_row_of other row ≡ false
    → find? (is_row_of other) (rows ++ row ∷ []) ≡ find? (is_row_of other) rows
find_row-added other rows row apart = elim (Option-cases (find? (is_row_of other) rows)) [
  | inl absent ↦ find?-append (is_row_of other) rows (row ∷ []) absent ∙ rw (apart, absent) refl
  | inr (found, there) ↦ find?-append_some (is_row_of other) rows (row ∷ []) there ∙ sym there
]

-- Nor the rows that are changed.
find_row-updated :
    (key other : StepGuardKey) (reason : String) (now : ℕ)
    → same_step other.step_key key.step_key ≡ false
    → (rows : List StepRow)
    → find? (is_row_of other) (update (is_row_of key) (skipped_row reason now) rows)
      ≡ find? (is_row_of other) rows
unfolding skipped_row
find_row-updated key other reason now apart [] = refl
find_row-updated key other reason now apart (r ∷ rs) = elim (Bool-cases (is_row_of key r)) [
  | inl there ↦
      rw (there, other_row key other r apart there) (find_row-updated key other reason now apart rs)
  | inr elsewhere ↦ rw elsewhere (
      ap (λ found. if is_row_of other r then some r else found)
        (find_row-updated key other reason now apart rs))
]

-- The rows of the other steps are left alone.
pub mark_skipped-others :
    (key other : StepGuardKey) (reason : String) (w : World)
    → same_step other.step_key key.step_key ≡ false
    → find_row other (mark_skipped key reason w).1 ≡ find_row other w
unfolding mark_skipped
mark_skipped-others key other reason w apart = elim (Option-cases (find_row key w)) [
  | inl absent ↦
      rw (absent, mark_skipped)
        (find_row-added other w.run_steps (skipped_row reason w.now (fresh_row key)) (
          other_row key other (skipped_row reason w.now (fresh_row key)) apart
            (is_row_of-skipped key reason w.now)))
  | inr (row, found) ↦ elim (Bool-cases (is_terminal_step_for_retry key.step_key row.status)) [
    | inl ended ↦ rw (found, mark_skipped) (rw ended refl)
    | inr again ↦ elim (Bool-cases (same_step_status row.status StepStatus.running)) [
      | inl running ↦ rw (found, mark_skipped) (rw again (rw running refl))
      | inr idle ↦
          rw (found, mark_skipped)
            (rw again (rw idle (find_row-updated key other reason w.now apart w.run_steps)))
    ]
  ]
]
