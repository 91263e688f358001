-- ===== src/Database/Effects.antt =====
-- Code that reads and writes the state and may throw. What was written before a throw stays
-- written, unless it was written inside a transaction.
use code_host.Prelude.{String}
use code_host.Prelude.Result.{Result, ok, err}
use code_host.RunStatus.{RunStatus}
use code_host.Workflow.{StepKey}
use code_host.Database.Tables.{World}

-- What the code throws: a constructor for each `throw`, with what its message names.
pub data Fault : Type 0 where
  run_not_found : String → Fault
  stale_run_identity : String → Fault
  invalid_run_transition : RunStatus → RunStatus → Fault
  stale_run_transition : String → Fault
  stale_cleanup_identity : String → Fault
  stale_preview_identity : String → Fault
  stale_execution_plan : String → Fault
  stale_report_identity : String → Fault
  report_upsert_failed : Fault
  stale_gitea_sync : String → Fault
  stale_step_log : String → Fault
  step_log_missing : String → Fault
  step_lease_lost : StepKey → Fault
  step_is_running : StepKey → Fault
  step_out_of_order : StepKey → StepKey → Fault
  step_lease_busy : StepKey → Fault
  run_not_admitted : Fault
  cleanup_running : String → Fault
  queue_rejected : Fault
  conflict : String → Fault
  not_found : String → Fault
  forbidden : String → Fault
  loop_limit : Fault
  thrown : String → Fault

abbrev pub Effect {ℓ} : Type ℓ → Type ℓ
Effect A = World → Result Fault A × World

module _ {ℓ} {A : Type ℓ} where
  abbrev pub pure : A → Effect A
  pure a w = (ok a, w)

  abbrev pub throw : Fault → Effect A
  throw f w = (err f, w)

  abbrev pub gets : (World → A) → Effect A
  gets f w = (ok (f w), w)

abbrev pub modify : (World → World) → Effect (Unit {0})
modify f w = (ok tt, f w)

module _ {ℓ κ} {A : Type ℓ} {B : Type κ} where
  abbrev pub continue : Result Fault A → (A → Effect B) → Effect B
  continue (ok a) f w = f a w
  continue (err e) f w = (err e, w)

  infixl 5 ◌>>=◌
  abbrev pub ◌>>=◌ : Effect A → (A → Effect B) → Effect B
  ◌>>=◌ m f w = continue (m w).0 f (m w).1

module _ {ℓ} {B : Type ℓ} where
  infixl 5 ◌>>◌
  abbrev pub ◌>>◌ : Effect (Unit {0}) → Effect B → Effect B
  m >> k = m >>= λ _. k

module _ {ℓ} {A : Type ℓ} where
  abbrev pub settle : World → Result Fault A → World → Result Fault A × World
  settle before (ok a) after = (ok a, after)
  settle before (err e) after = (err e, before)

  -- `db.transaction(...)`: a throw inside undoes the writes.
  abbrev pub transaction : Effect A → Effect A
  transaction m w = settle w (m w).0 (m w).1

  -- `try { m } catch (error) { handler; throw error }`
  abbrev pub rethrow_after : Effect A → Effect (Unit {0}) → Effect A
  rethrow_after m handler w = after (m w).0 (m w).1
    where
      after : Result Fault A → World → Result Fault A × World
      after (ok a) w' = (ok a, w')
      after (err e) w' = (err e, (handler w').1)

  -- `try { m } catch (error) { handler(error) }`
  abbrev pub recover : Effect A → (Fault → Effect A) → Effect A
  recover m handler w = after (m w).0 (m w).1
    where
      after : Result Fault A → World → Result Fault A × World
      after (ok a) w' = (ok a, w')
      after (err e) w' = handler e w'
