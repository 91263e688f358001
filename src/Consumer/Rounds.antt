-- ===== src/Consumer/Rounds.antt =====
-- The loop of `advance` in apps/worker/src/workflow/consumer.ts ends: every round but the last skips
-- a step, and a skipped step is settled for good.
use code_host.Prelude.{
  ℕ, zero, suc, ◌≤◌, ◌<◌, String, Bool, true, false, List, [], ◌∷◌, Option, none, some, any, count,
  not, ◌≡◌, refl, arith, Bool-cases, Option-cases, inl, inr,
}
use code_host.Prelude.Result.{Result, ok, err}
use code_host.Workflow.{StepKey, workflow_steps, same_step, RunSnapshot, StepRecord, WorkflowJob}
use code_host.Workflow.Plan.{StepAction, run, skip, skipped_upstream, is_settled, next_step_action}
use code_host.Workflow.Plan.Order.{same_step-eq, next_step_action-first}
use code_host.Database.Tables.{World}
use code_host.Database.Effects.{Fault, loop_limit, Effect, throw, continue}
use code_host.Database.Counting.{count-le}
use code_host.Store.Syncs.{SyncInput}
use code_host.Guard.{StepGuardKey}
use code_host.Consumer.Interface.{Dependencies}
use code_host.Consumer.Syncs.{
  SyncRequest, status_context, step_status_request, enqueue_gitea_status, enqueue_gitea_sync,
  request_step_status,
}
use code_host.Consumer.Advance.{advance_within, round, advance}

-- What the loop needs of a step guard and a store: `list` reads the records and nothing else,
-- a sync changes no record, and `markSkipped`, where it returns, settles its step and no other.
pub record ReadsSteps (d : Dependencies) (view : String → ℕ → World → List StepRecord)
    : Type 0 where
  pub listed : (id : String) (n : ℕ) (w : World) → d.list id n w ≡ (ok (view id n w), w)
  pub syncs_keep :
      (input : SyncInput) (w : World) (id : String) (n : ℕ)
      → view id n (d.enqueue_gitea_sync input w).1 ≡ view id n w
  pub skip_settles :
      (key : StepGuardKey) (reason : String) (w : World)
      → (d.mark_skipped key reason w).0 ≡ ok tt
      → is_settled (view key.run_id key.attempt (d.mark_skipped key reason w).1) key.step_key ≡ true
  pub skip_keeps :
      (key : StepGuardKey) (reason : String) (w : World) (k : StepKey)
      → (d.mark_skipped key reason w).0 ≡ ok tt
      → same_step k key.step_key ≡ false
      → is_settled (view key.run_id key.attempt (d.mark_skipped key reason w).1) k
        ≡ is_settled (view key.run_id key.attempt w) k

-- The steps that are not settled yet.
abbrev pub open_steps : List StepRecord → ℕ
open_steps records = count (λ k. not (is_settled records k)) workflow_steps

module _ (key : StepKey) (old new : StepKey → Bool) (was_open : old key ≡ false)
    (settled : new key ≡ true)
    (others : (k : StepKey) → same_step k key ≡ false → new k ≡ old k) where
  still_open : (k : StepKey) → not (new k) ≡ true → not (old k) ≡ true
  still_open k h = elim (Bool-cases (same_step k key)) [
    | inl same ↦ ground (arith, same_step-eq k key)
    | inr other ↦ ground (arith, others k)
  ]

  count-settle :
      (keys : List StepKey)
      → any (λ k. same_step k key) keys ≡ true
      → suc (count (λ k. not (new k)) keys) ≤ count (λ k. not (old k)) keys
  count-settle [] h = ground arith
  count-settle (k ∷ ks) h = elim (Bool-cases (same_step k key)) [
    | inl same ↦
        ground
          (arith, same_step-eq k key, count-le (λ j. not (new j)) (λ j. not (old j)) still_open ks)
    | inr other ↦ ground (arith, others k, count-settle ks)
  ]

is_a_step : (key : StepKey) → any (λ k. same_step k key) workflow_steps ≡ true
is_a_step key = ground arith

-- The planner skips only what is open.
skip_is_open :
    (records : List StepRecord) (key : StepKey)
    → next_step_action records ≡ some (skip key)
    → is_settled records key ≡ false
skip_is_open records key h = elim (next_step_action-first records (skip key) h) [
  | inl (again, e) ↦ ground arith
  | inr ((unsettled, earlier), e) ↦ unsettled
]

-- Two ways to go on that agree after a success agree after a throw too.
continue-agree :
    (r : Result Fault (Unit {0})) (f g : Unit {0} → Effect (Unit {0})) (w : World)
    → (r ≡ ok tt → f tt w ≡ g tt w)
    → continue r f w ≡ continue r g w
continue-agree (ok a) f g w agree = agree refl
continue-agree (err e) f g w agree = refl

module _ (d : Dependencies) (view : String → ℕ → World → List StepRecord)
    (laws : ReadsSteps d view) where
  enqueue_gitea_sync-view :
      (run' : RunSnapshot) (request : SyncRequest) (w : World) (id : String) (n : ℕ)
      → view id n (enqueue_gitea_sync d run' request w).1 ≡ view id n w
  unfolding enqueue_gitea_sync
  enqueue_gitea_sync-view run' request w id n = elim (Option-cases run'.repository_full_name) [
    | inl no_repository ↦ rw no_repository refl
    | inr (full_name, repository) ↦ elim (Option-cases run'.pull_request_number) [
      | inl no_number ↦ rw repository (rw no_number refl)
      | inr (number, pull_request) ↦ rw repository (rw pull_request (laws.syncs_keep _ w id n))
    ]
  ]

  request_sync-view :
      (run' : RunSnapshot) (context : String) (r : Option StepRecord) (w : World) (id : String)
      (n : ℕ)
      → view id n (request_step_status d run' context r w).1 ≡ view id n w
  unfolding request_step_status
  request_sync-view run' context none w id n = refl
  request_sync-view run' context (some r) w id n =
      enqueue_gitea_sync-view run' (step_status_request run' context r) w id n

  enqueue_gitea_status-view :
      (run' : RunSnapshot) (key : StepKey) (w : World) (id : String) (n : ℕ)
      → view id n (enqueue_gitea_status d run' key w).1 ≡ view id n w
  unfolding enqueue_gitea_status
  enqueue_gitea_status-view run' key w id n = elim (Option-cases (status_context key)) [
    | inl no_context ↦ rw (no_context, enqueue_gitea_status) refl
    | inr (context, shown) ↦
        rw (shown, enqueue_gitea_status)
          (rw (laws.listed run'.id run'.attempt w) (request_sync-view run' context _ w id n))
  ]

  -- What two ways to go on agree on from fewer open steps, they agree on after a skip.
  skip_round :
      (run' : RunSnapshot) (job : WorkflowJob) (key : StepKey) (w : World) (f g : Effect (Unit {0}))
      → is_settled (view job.run_id job.attempt w) key ≡ false
      → ((v : World)
          → open_steps (view job.run_id job.attempt v) < open_steps (view job.run_id job.attempt w)
          → f v ≡ g v)
      → round d run' job f (view job.run_id job.attempt w) (some (skip key)) w
        ≡ round d run' job g (view job.run_id job.attempt w) (some (skip key)) w
  unfolding round
  skip_round run' job key w f g was_open agree =
      let k : StepGuardKey = record {
        run_id = job.run_id;
        attempt = job.attempt;
        step_key = key;
      } in
      let skipped = d.mark_skipped k skipped_upstream w in
      let shown = enqueue_gitea_status d run' key skipped.1 in
      continue-agree skipped.0 _ _ skipped.1 λ marked. continue-agree shown.0 _ _ shown.1 λ _.
        agree shown.1 (
          rw (enqueue_gitea_status-view run' key skipped.1 job.run_id job.attempt) (
            omega (
              arith,
              count-settle key (is_settled (view job.run_id job.attempt w))
                  (is_settled (view job.run_id job.attempt skipped.1)) was_open
                  (laws.skip_settles k skipped_upstream w marked)
                  (λ j. laws.skip_keeps k skipped_upstream w j marked) workflow_steps
                  (is_a_step key),
            )))

  -- With more rounds than open steps the loop ends by itself: what would happen when the rounds are
  -- used up makes no difference, and neither do further rounds.
  pub advance_within-fuel :
      (run' : RunSnapshot) (job : WorkflowJob) (s t : Effect (Unit {0})) (n m : ℕ) (w : World)
      → open_steps (view job.run_id job.attempt w) < n
      → open_steps (view job.run_id job.attempt w) < m
      → advance_within d s n run' job w ≡ advance_within d t m run' job w
  unfolding advance_within round
  advance_within-fuel run' job s t zero m w few enough = elim few [ ]
  advance_within-fuel run' job s t (suc n) zero w few enough = elim enough [ ]
  advance_within-fuel run' job s t (suc n) (suc m) w few enough =
      rw (laws.listed job.run_id job.attempt w) (
        go (next_step_action (view job.run_id job.attempt w)) refl
          (λ v p q. advance_within-fuel run' job s t n m v p q))
    where
      go :
          (a : Option StepAction)
          → next_step_action (view job.run_id job.attempt w) ≡ a
          → ((v : World)
              → open_steps (view job.run_id job.attempt v) < n
              → open_steps (view job.run_id job.attempt v) < m
              → advance_within d s n run' job v ≡ advance_within d t m run' job v)
          → round d run' job (advance_within d s n run' job) (view job.run_id job.attempt w) a w
            ≡ round d run' job (advance_within d t m run' job) (view job.run_id job.attempt w) a w
      go none e ih = refl
      go (some (run key)) e ih = refl
      go (some (skip key)) e ih =
          skip_round run' job key w (advance_within d s n run' job) (advance_within d t m run' job)
            (skip_is_open _ key e) (λ v fewer. ih v (omega arith) (omega arith))

  open_steps-le : (records : List StepRecord) → open_steps records ≤ 11
  open_steps-le records = ground arith

  -- The twelve rounds that `advance` has are enough: the loop never uses them up.
  pub advance_terminates :
      (run' : RunSnapshot) (job : WorkflowJob) (s : Effect (Unit {0})) (n : ℕ) (w : World)
      → 12 ≤ n
      → advance d run' job w ≡ advance_within d s n run' job w
  unfolding advance
  advance_terminates run' job s n w enough =
      advance_within-fuel run' job (throw loop_limit) s 12 n w
        (omega (arith, open_steps-le (view job.run_id job.attempt w)))
        (omega (arith, open_steps-le (view job.run_id job.attempt w)))
