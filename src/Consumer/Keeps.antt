-- ===== src/Consumer/Keeps.antt =====
-- A job of apps/worker/src/workflow/consumer.ts keeps what each of the operations it is given keeps,
-- however it ends.
pub mod Parts
pub mod Jobs
use code_host.Prelude.{
  ℕ, zero, suc, String, Bool, true, false, List, Option, none, some, if◌then◌else◌, Bool-cases,
  Option-cases, inl, inr, ◌⊎◌,
}
use code_host.Prelude.Text.{◌++◌ as append}
use code_host.Prelude.Result.{ok, err}
use code_host.Json.{Value, Fields, get, field, end, text}
use code_host.RunStatus.{
  RunStatus, cancelled, cleaned, cancel_requested, received, same_status, is_terminal_run_status,
  CleanupStatus,
}
use code_host.Workflow.{
  step_text, detect, build, preview, agent_review, StepStatus, same_step_status, StepKey,
  RunSnapshot, StepRecord, WorkflowJob, StepResult,
}
use code_host.Workflow.Plan.{record_of, next_step_action, StepAction, run, skip}
use code_host.Database.Tables.{World}
use code_host.Database.Effects.{Fault, run_not_admitted, Effect, pure, throw, ◌>>=◌, ◌>>◌}
use code_host.Database.Keeps.{bind-keeps}
use code_host.Store.{RunIdentity}
use code_host.Store.Syncs.{SyncInput}
use code_host.Guard.{StepGuardKey, GuardResult, executed, already_terminal, busy}
use code_host.Consumer.Interface.{
  identity_of, identity_of_run, Dependencies, ExecutionContext, ReportInput, when,
}
use code_host.Consumer.Finish.{
  phase_for_step, result_passed, run_is, enter_phase, move_to_step_phase, finish_run,
  finalize_report, cleanup_done, finalize_cleanup, dispatch_action, dispatch_next,
}
use code_host.Consumer.Syncs.{
  SyncRequest, status_context, enqueue_gitea_sync, request_step_status, enqueue_gitea_status,
  request_quality, quality_status_request, quality_comment_request, enqueue_quality_sync,
}
use code_host.Consumer.Details.{
  for_some, object_of, preview_input, details_report, is_fixture, persist_details,
  persist_step_details,
}
use code_host.Consumer.Advance.{handle}

module _ (P : World → Type 0) where
  abbrev pub EffectKeeps {ℓ} : {A : Type ℓ} → Effect A → Type 0
  EffectKeeps m = (w : World) → P w → P (m w).1

  pub record KeptBy (d : Dependencies) : Type 0 where
    pub get_run : (id : String) → EffectKeeps (d.get_run id)
    pub transition_run :
        (k : RunIdentity) (to : RunStatus) (reason : Option String)
        → EffectKeeps (d.transition_run k to reason)
    pub set_cleanup_status :
        (k : RunIdentity) (to : CleanupStatus) (code : Option String)
        → EffectKeeps (d.set_cleanup_status k to code)
    pub set_preview :
        (k : RunIdentity) (url : String) (until : ℕ) → EffectKeeps (d.set_preview k url until)
    pub set_execution_plan :
        (k : RunIdentity) (plan : Fields) → EffectKeeps (d.set_execution_plan k plan)
    pub save_report : (k : RunIdentity) (input : ReportInput) → EffectKeeps (d.save_report k input)
    pub enqueue_gitea_sync : (input : SyncInput) → EffectKeeps (d.enqueue_gitea_sync input)
    pub run_once :
        (key : StepGuardKey) (operation : Effect StepResult)
        → EffectKeeps operation
        → EffectKeeps (d.run_once key operation)
    pub mark_skipped :
        (key : StepGuardKey) (reason : String) → EffectKeeps (d.mark_skipped key reason)
    pub list : (id : String) (n : ℕ) → EffectKeeps (d.list id n)
    pub execute : (context : ExecutionContext) → EffectKeeps (d.execute context)
    pub dispatch : (job : WorkflowJob) → EffectKeeps (d.dispatch job)

  pub if-keeps {ℓ} :
      {A : Type ℓ} (b : Bool) (m n : Effect A)
      → EffectKeeps m
      → EffectKeeps n
      → EffectKeeps (if b then m else n)
  if-keeps true m n keeps rest = keeps
  if-keeps false m n keeps rest = rest

  pub when-keeps : (b : Bool) (m : Effect (Unit {0})) → EffectKeeps m → EffectKeeps (when b m)
  when-keeps true m keeps w p = keeps w p
  when-keeps false m keeps w p = p

  pub seq-keeps {ℓ} :
      {B : Type ℓ} (m : Effect (Unit {0})) (n : Effect B)
      → EffectKeeps m
      → EffectKeeps n
      → EffectKeeps (m >> n)
  seq-keeps m n keeps rest = bind-keeps P m (λ _. n) keeps (λ _. rest)
