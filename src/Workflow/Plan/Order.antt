-- ===== src/Workflow/Plan/Order.antt =====
-- The order that apps/worker/src/workflow/plan.ts imposes on the steps, and how it ends.
use code_host.Prelude.{
  true, false, ◌≡◌, ◌↔◌, ◌⊎◌, inl, inr, refl, arith, none, some, List, [], ◌∷◌, All, any,
  Bool-cases, if◌then◌else◌,
}
use code_host.Workflow.{StepKey, cleanup, workflow_steps, same_step, StepRecord}
use code_host.Workflow.Plan.{
  StepAction, run, skip, record_of, is_failed_or_incomplete, is_settled, gate_failure, should_skip,
  next_from, next_step_action,
}

pub same_step-eq : (a b : StepKey) → same_step a b ≡ true → a ≡ b
same_step-eq a b h = ground arith

-- The steps of `keys` that come before `key`.
abbrev pub before : StepKey → List StepKey → List StepKey
before key [] = []
before key (k ∷ ks) = if same_step k key then [] else k ∷ before key ks

abbrev pub step_of : StepAction → StepKey
step_of (run key) = key
step_of (skip key) = key

-- An open step whose predecessors in `keys` are settled.
abbrev pub IsFirstOpen : List StepRecord → List StepKey → StepKey → Type 0
IsFirstOpen records keys key =
    (is_settled records key ≡ false) × All (λ k. is_settled records k ≡ true) (before key keys)

next_from-IsFirstOpen :
    (records : List StepRecord) (keys : List StepKey) (a : StepAction)
    → next_from records keys ≡ some a
    → IsFirstOpen records keys (step_of a)
      × (a ≡ (if should_skip (step_of a) records then skip (step_of a) else run (step_of a)))
unfolding next_from
next_from-IsFirstOpen records [] a h = ground arith
next_from-IsFirstOpen records (k ∷ ks) a h = elim (Bool-cases (is_settled records k)) [
  | inl settled ↦
      let ((unsettled, earlier), e) = next_from-IsFirstOpen records ks a (ground arith) in
      elim (Bool-cases (same_step k (step_of a))) [
        | inl same ↦ ground (arith, same_step-eq k (step_of a))
        | inr other ↦ ((unsettled, rw other (settled, earlier)), e)
      ]
  | inr unsettled ↦ ground arith
]

-- What the planner answers for a list of records: either the cleanup again, after a cleanup that
-- ended FAILED or INCOMPLETE, or the first step in the order of WORKFLOW_STEPS that is not settled,
-- with all before it settled; it is skipped exactly if `should_skip` says so.
pub next_step_action-first :
    (records : List StepRecord) (a : StepAction)
    → next_step_action records ≡ some a
    → ((is_failed_or_incomplete (record_of records cleanup) ≡ true) × (a ≡ run cleanup))
      ⊎ (IsFirstOpen records workflow_steps (step_of a)
          × (a ≡ (if should_skip (step_of a) records then skip (step_of a) else run (step_of a))))
unfolding next_step_action
next_step_action-first records a h =
    elim (Bool-cases (is_failed_or_incomplete (record_of records cleanup))) [
      | inl again ↦ inl (again, ground arith)
      | inr fresh ↦ inr (next_from-IsFirstOpen records workflow_steps a (ground arith))
    ]

next_from-none :
    (records : List StepRecord) (keys : List StepKey)
    → (next_from records keys ≡ none) ↔ All (λ k. is_settled records k ≡ true) keys
unfolding next_from
next_from-none records [] = (λ _. tt, λ _. refl)
next_from-none records (k ∷ ks) = elim (Bool-cases (is_settled records k)) [
  | inl settled ↦ (
    λ h. (settled, (next_from-none records ks).0 (rw (settled, next_from) at h)),
    λ a. rw settled ((next_from-none records ks).1 a.1),
  )
  | inr unsettled ↦ (λ h. ground arith, λ a. ground arith)
]

retry_unsettled :
    (records : List StepRecord)
    → is_failed_or_incomplete (record_of records cleanup) ≡ true
    → is_settled records cleanup ≡ false
unfolding is_settled
retry_unsettled records h = rw h refl

-- The planner has nothing left exactly when every step is settled: ended, and the cleanup with
-- another end than FAILED or INCOMPLETE.
pub next_step_action-none :
    (records : List StepRecord)
    → (next_step_action records ≡ none) ↔ All (λ k. is_settled records k ≡ true) workflow_steps
unfolding next_step_action
next_step_action-none records =
    elim (Bool-cases (is_failed_or_incomplete (record_of records cleanup))) [
      | inl again ↦ (
        λ h. ground arith,
        λ a. ground (arith, retry_unsettled records again, a.1.1.1.1.1.1.1.1.1.1.0),
      )
      | inr fresh ↦ (
        λ h. (next_from-none records workflow_steps).0 (rw fresh at h),
        λ a. rw fresh ((next_from-none records workflow_steps).1 a),
      )
    ]

next_from-run :
    (records : List StepRecord) (keys : List StepKey) (key : StepKey)
    → any (λ k. same_step k key) keys ≡ true
    → All (λ k. is_settled records k ≡ true) (before key keys)
    → is_settled records key ≡ false
    → should_skip key records ≡ false
    → next_from records keys ≡ some (run key)
unfolding next_from
next_from-run records [] key listed earlier open_still kept = ground arith
next_from-run records (k ∷ ks) key listed earlier open_still kept =
    elim (Bool-cases (same_step k key)) [
      | inl same ↦ ground (arith, same_step-eq k key)
      | inr other ↦
          let rest = rw other at earlier in
          rw (rest.0, next_from)
            (next_from-run records ks key (ground arith) rest.1 open_still kept)
    ]

should_skip-cleanup : (records : List StepRecord) → should_skip cleanup records ≡ false
unfolding should_skip gate_failure
should_skip-cleanup records = ground arith

-- When every step before the cleanup is settled and the cleanup is not, the cleanup is run, and never skipped.
pub next_step_action-cleanup :
    (records : List StepRecord)
    → All (λ k. is_settled records k ≡ true) (before cleanup workflow_steps)
    → is_settled records cleanup ≡ false
    → next_step_action records ≡ some (run cleanup)
unfolding next_step_action
next_step_action-cleanup records earlier open_still =
    elim (Bool-cases (is_failed_or_incomplete (record_of records cleanup))) [
      | inl again ↦ rw again refl
      | inr fresh ↦ rw fresh (
          next_from-run records workflow_steps cleanup refl earlier open_still
            (should_skip-cleanup records))
    ]
