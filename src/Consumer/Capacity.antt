-- ===== src/Consumer/Capacity.antt =====
-- The bounds of packages/db/drizzle/0005_run_capacity_triggers.sql under the worker: what a job of
-- apps/worker/src/workflow/consumer.ts does over the database keeps them.
use code_host.Prelude.{
  ℕ, suc, String, Bool, true, false, List, [], ◌∷◌, All, str_eq, ◌==◌, ◌&&◌, ◌||◌, not,
  if◌then◌else◌, ◌≡◌, refl, sym, subst, Bool-cases, Option-cases, inl, inr, count,
}
use code_host.Json.{Value, Fields}
use code_host.Workflow.{StepStatus, same_step_status, WorkflowJob, StepResult}
use code_host.Database.Tables.{RunRow, World}
use code_host.Database.Effects.{Fault, step_lease_lost, Effect, throw}
use code_host.Database.Counting.{IsWithinCapacity, update-IsWithinCapacity}
use code_host.Database.Keeps.{rethrow_after-keeps, bind-keeps}
use code_host.Store.{
  RunIdentity, is_current, update_current, find_run, get_run, set_cleanup_status, set_preview,
  set_execution_plan,
}
use code_host.Store.Transitions.{transition_run-IsWithinCapacity}
use code_host.Store.Frames.{enqueue_gitea_sync-same}
use code_host.Guard.{
  StepGuardKey, find_row, is_live, is_held, operate, after_admission, is_terminal_step_for_retry,
  Admission, admitted, refused, admit_step, heartbeat, beats, persist_step, release_step, run_once,
}
use code_host.Guard.Rows.{mark_skipped, list}
use code_host.Queue.{dispatch}
use code_host.Consumer.Interface.{ExecutionContext, ReportInput}
use code_host.Consumer.Advance.{handle}
use code_host.Consumer.Keeps.{KeptBy, EffectKeeps}
use code_host.Consumer.Keeps.Jobs.{handle-keeps}
use code_host.Consumer.Database.{Environment, database_dependencies}

abbrev pub Bounded : World → Type 0
Bounded w = IsWithinCapacity w.runs

-- A change of the state keeps the bounds.
abbrev pub EffectBounded : (World → World) → Type 0
EffectBounded change = (w : World) → Bounded w → Bounded (change w)

admit_step-runs :
    (key : StepGuardKey) (token : String) (w : World) → (admit_step key token w).1.runs ≡ w.runs
unfolding admit_step
admit_step-runs key token w = elim (Option-cases (find_row key w)) [
  | inl absent ↦ rw (absent, admit_step) refl
  | inr (row, found) ↦
      rw (found, admit_step)
        (elim (Bool-cases (is_terminal_step_for_retry key.step_key row.status)) [
          | inl ended ↦ rw ended refl
          | inr again ↦
              rw again
                (elim (Bool-cases (
                  same_step_status row.status StepStatus.running
                  && is_live row.lease_until w.now)) [
                    | inl held ↦ rw held refl
                    | inr idle ↦ rw idle refl
                  ])
        ])
]

mark_skipped-runs :
    (key : StepGuardKey) (reason : String) (w : World) → (mark_skipped key reason w).1.runs ≡ w.runs
unfolding mark_skipped
mark_skipped-runs key reason w = elim (Option-cases (find_row key w)) [
  | inl absent ↦ rw (absent, mark_skipped) refl
  | inr (row, found) ↦
      rw (found, mark_skipped)
        (elim (Bool-cases (is_terminal_step_for_retry key.step_key row.status)) [
          | inl ended ↦ rw ended refl
          | inr again ↦
              rw again (elim (Bool-cases (same_step_status row.status StepStatus.running)) [
                | inl running ↦ rw running refl
                | inr idle ↦ rw idle refl
              ])
        ])
]

beats-keeps :
    (P : World → Type 0)
    → ((key : StepGuardKey) (token : String) (w : World) → P w → P (heartbeat key token w).1)
    → (key : StepGuardKey) (token : String) (during : List (World → World))
    → All (λ change. (w : World) → P w → P (change w)) during
    → (w : World) → P w
    → P (beats key token during w).1
unfolding beats
beats-keeps P beat key token [] kept w p = p
beats-keeps P beat key token (change ∷ changes) kept w p =
    beats-keeps P beat key token changes kept.1 _ (beat key token _ (kept.0 w p))

module _ (e : Environment) where
  -- What the worker is put together from beside the database keeps the bounds.
  pub record KeepsBounds : Type 0 where
    pub others : All EffectBounded e.during
    pub execute : (context : ExecutionContext) → EffectKeeps Bounded (e.execute context)
    pub save_report :
        (k : RunIdentity) (input : ReportInput) → EffectKeeps Bounded (e.save_report k input)

  run_once-Bounded :
      (key : StepGuardKey) (operation : Effect StepResult)
      → All EffectBounded e.during
      → EffectKeeps Bounded operation
      → EffectKeeps Bounded (run_once e.random e.during key operation)
  unfolding run_once after_admission operate persist_step release_step heartbeat
  run_once-Bounded key operation others keeps w p =
      let token = e.random w.draws in
      bind-keeps Bounded (admit_step key token) (after_admission key token e.during operation)
        (λ v q. subst IsWithinCapacity (sym (admit_step-runs key token v)) q) go
        (record w { draws = suc w.draws }) p
    where
      persisted :
          (token : String) (all_held : Bool) (result : StepResult)
          → EffectKeeps Bounded (
              if all_held
              then persist_step key token result
              else throw (step_lease_lost key.step_key))
      persisted token false result v q = q
      persisted token true result v q =
          elim (Bool-cases (count (is_held key token) v.run_steps == 1)) [
            | inl one ↦ rw one q
            | inr other ↦ rw other q
          ]

      operated : (token : String) → EffectKeeps Bounded (operate key token e.during operation)
      operated token v q =
          bind-keeps Bounded operation
            (λ result.
              if (beats key token e.during v).0
              then persist_step key token result
              else throw (step_lease_lost key.step_key))
            keeps (persisted token (beats key token e.during v).0) (beats key token e.during v).1
            (beats-keeps Bounded (λ _ _ _ r. r) key token e.during others v q)

      go :
          (a : Admission)
          → EffectKeeps Bounded (after_admission key (e.random w.draws) e.during operation a)
      go (refused result) v q = q
      go admitted v q =
          rethrow_after-keeps Bounded (operate key (e.random w.draws) e.during operation)
            (release_step key (e.random w.draws)) (operated (e.random w.draws)) (λ _ r. r) v q

  update_current-Bounded :
      (k : RunIdentity) (f : ℕ → RunRow → RunRow) (stale : Fault)
      → ((now : ℕ) (r : RunRow) → ((f now r).id ≡ r.id) × ((f now r).status ≡ r.status))
      → EffectKeeps Bounded (update_current k f stale)
  update_current-Bounded k f stale same w p = elim (Bool-cases (count (is_current k) w.runs == 1)) [
    | inl one ↦ rw one (update-IsWithinCapacity (is_current k) (f w.now) w.runs (same w.now) p)
    | inr other ↦ rw other (update-IsWithinCapacity (is_current k) (f w.now) w.runs (same w.now) p)
  ]

  set_execution_plan-Bounded :
      (k : RunIdentity) (plan : Fields) → EffectKeeps Bounded (set_execution_plan k plan)
  unfolding set_execution_plan
  set_execution_plan-Bounded k plan w p = elim (Option-cases (find_run k.run_id w)) [
    | inl absent ↦ rw (absent, set_execution_plan) p
    | inr (row, found) ↦
        rw (found, set_execution_plan)
          (elim (Bool-cases
            (not (row.current_attempt == k.attempt) || not (str_eq row.head_sha k.head_sha))) [
              | inl stale ↦ rw stale p
              | inr fresh ↦
                  rw fresh (update-IsWithinCapacity (is_current k) _ w.runs (λ r. (refl, refl)) p)
            ])
  ]

  get_run-Bounded : (id : String) → EffectKeeps Bounded (get_run id)
  unfolding get_run
  get_run-Bounded id w p = elim (Option-cases (find_run id w)) [
    | inl absent ↦ rw (absent, get_run) p
    | inr (row, found) ↦ rw (found, get_run) p
  ]

  dispatch-Bounded : (job : WorkflowJob) → EffectKeeps Bounded (dispatch e.accepts job)
  unfolding dispatch
  dispatch-Bounded job w p = elim (Bool-cases (e.accepts job w)) [
    | inl taken ↦ rw taken p
    | inr refused_job ↦ rw refused_job p
  ]

  database-KeptBy : KeepsBounds → KeptBy Bounded (database_dependencies e)
  unfolding set_cleanup_status set_preview list
  database-KeptBy kept = record {
    get_run = get_run-Bounded;
    transition_run = transition_run-IsWithinCapacity;
    set_cleanup_status = λ k to code. update_current-Bounded k _ _ (λ now r. (refl, refl));
    set_preview = λ k url until. update_current-Bounded k _ _ (λ now r. (refl, refl));
    set_execution_plan = set_execution_plan-Bounded;
    save_report = kept.save_report;
    enqueue_gitea_sync =
        λ input w p. subst IsWithinCapacity (sym (enqueue_gitea_sync-same input w).0) p;
    run_once = λ key operation keeps. run_once-Bounded key operation kept.others keeps;
    mark_skipped =
        λ key reason w p. subst IsWithinCapacity (sym (mark_skipped-runs key reason w)) p;
    list = λ id n w p. p;
    execute = kept.execute;
    dispatch = dispatch-Bounded;
  }

-- Whatever job the worker handles, and however the job ends, at most one run is active, at most three
-- wait and no two have one id afterwards, if that held before and if the executor, the writing of
-- reports and what others do meanwhile keep it.
pub worker-IsWithinCapacity :
    (e : Environment) (payload : Value) (w : World)
    → KeepsBounds e
    → IsWithinCapacity w.runs
    → IsWithinCapacity (handle (database_dependencies e) payload w).1.runs
worker-IsWithinCapacity e payload w kept =
    handle-keeps Bounded (database_dependencies e) (database-KeptBy e kept) payload w
