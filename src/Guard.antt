-- ===== src/Guard.antt =====
-- DatabaseStepGuard of apps/worker/src/workflow/db-adapter.ts and `isTerminalStepForRetry` of
-- step-guard.ts: each step of an attempt runs under a lease in its row of `run_steps`.
-- The rows' `id` is their unique key, run, attempt and step. The advisory locks make the two
-- transactions of `runOnce` single steps; what others do meanwhile is `during` and the operation.
pub mod Leases
pub mod Rows
pub mod Skips
pub mod Writes
pub mod Spec
pub mod Memory
pub mod Refinement
pub mod Admissions
pub mod Promises
use code_host.Prelude.{
  ℕ, suc, ◌+◌, ◌*◌, String, Bool, true, false, List, [], ◌∷◌, ◌++◌, map, Option, none, some, find?,
  keep, count, update, str_eq, ◌==◌, ltb, ◌&&◌, ◌||◌, not, if◌then◌else◌,
}
use code_host.Prelude.Result.{Result, ok, err}
use code_host.Workflow.{
  StepKey, cleanup, same_step, StepStatus, same_step_status, FailureKind, StepRecord, StepResult,
  step_passed, step_failed, step_incomplete,
}
use code_host.Database.Tables.{StepRow, World}
use code_host.Database.Effects.{
  Fault, step_lease_lost, step_is_running, Effect, pure, throw, modify, continue, settle,
  transaction, rethrow_after, ◌>>=◌, ◌>>◌,
}

pub record StepGuardKey : Type 0 where
  pub run_id : String
  pub attempt : ℕ
  pub step_key : StepKey

pub data GuardResult : Type 0 where
  executed : StepResult → GuardResult
  already_terminal : StepStatus → GuardResult
  busy : GuardResult

abbrev pub stale_step_ms : ℕ
stale_step_ms = 20 * (60 * 1000)

unfoldable pub is_terminal_step_for_retry : StepKey → StepStatus → Bool
is_terminal_step_for_retry step_key status =
    if same_step step_key cleanup
      && (same_step_status status StepStatus.failed
          || same_step_status status StepStatus.incomplete)
    then false
    else same_step_status status StepStatus.passed
      || (same_step_status status StepStatus.failed
          || (same_step_status status StepStatus.skipped
              || (same_step_status status StepStatus.incomplete
                  || same_step_status status StepStatus.cancelled)))

abbrev pub is_row_of : StepGuardKey → StepRow → Bool
is_row_of key r =
    str_eq r.run_id key.run_id && (r.attempt == key.attempt && same_step r.step_key key.step_key)

abbrev pub find_row : StepGuardKey → World → Option StepRow
find_row key w = find? (is_row_of key) w.run_steps

abbrev pub has_token : String → Option String → Bool
has_token token none = false
has_token token (some t) = str_eq t token

-- The row of the key while it is RUNNING under the token.
abbrev pub is_held : StepGuardKey → String → StepRow → Bool
is_held key token r =
    is_row_of key r
    && (same_step_status r.status StepStatus.running && has_token token r.lease_token)

-- `leaseUntil !== null && leaseUntil.getTime() > now`
abbrev pub is_live : Option ℕ → ℕ → Bool
is_live none now = false
is_live (some until) now = ltb now until

unfoldable pub admitted_row : String → ℕ → StepRow → StepRow
admitted_row token now r = record r {
  status = StepStatus.running;
  started_at = some now;
  finished_at = none;
  lease_token = some token;
  lease_until = some (now + stale_step_ms);
  error_code = none;
  failure_kind = none;
}

-- A row with the defaults of the columns that the insert leaves out.
unfoldable pub fresh_row : StepGuardKey → StepRow
fresh_row key = record {
  run_id = key.run_id;
  attempt = key.attempt;
  step_key = key.step_key;
  status = StepStatus.pending;
  log_path = none;
  started_at = none;
  finished_at = none;
  lease_token = none;
  lease_until = none;
  failure_kind = none;
  error_code = none;
  expires_at = none;
}

pub data Admission : Type 0 where
  admitted : Admission
  refused : GuardResult → Admission

-- The first transaction of `runOnce`.
unfoldable pub admit_step : StepGuardKey → String → Effect Admission
unfolding admitted_row fresh_row
admit_step key token w = elim (find_row key w) [
  | none ↦
      pure admitted
        (record w { run_steps = w.run_steps ++ admitted_row token w.now (fresh_row key) ∷ [] })
  | some row ↦
      if is_terminal_step_for_retry key.step_key row.status
      then pure (refused (already_terminal row.status)) w
      else if same_step_status row.status StepStatus.running && is_live row.lease_until w.now
      then pure (refused busy) w
      else pure admitted
          (record w { run_steps = update (is_row_of key) (admitted_row token w.now) w.run_steps })
]

-- One beat of the `setInterval`: the lease is extended; false if it is no longer held.
unfoldable pub heartbeat : StepGuardKey → String → World → Bool × World
heartbeat key token w = (
  count (is_held key token) w.run_steps == 1,
  record w {
    run_steps =
        update (is_held key token) (λ r. record r { lease_until = some (w.now + stale_step_ms) })
          w.run_steps;
  },
)

-- What others do before each beat, and the beats; false once a beat has found the lease lost.
unfoldable pub beats : StepGuardKey → String → List (World → World) → World → Bool × World
unfolding heartbeat
beats key token [] w = (true, w)
beats key token (change ∷ changes) w =
    let (held, w') = heartbeat key token (change w) in
    let (all_held, w'') = beats key token changes w' in (held && all_held, w'')

-- `dbResult`, written over the row.
abbrev pub result_status : StepResult → StepStatus
result_status (step_passed details) = StepStatus.passed
result_status (step_failed kind code details) = StepStatus.failed
result_status (step_incomplete kind code details) = StepStatus.incomplete

abbrev pub result_kind : StepResult → Option FailureKind → Option FailureKind
result_kind (step_passed details) old = old
result_kind (step_failed kind code details) old = some kind
result_kind (step_incomplete kind code details) old = some kind

abbrev pub result_code : StepResult → Option String → Option String
result_code (step_passed details) old = old
result_code (step_failed kind code details) old = some code
result_code (step_incomplete kind code details) old = some code

pub finished_row : StepResult → ℕ → StepRow → StepRow
finished_row result now r = record r {
  status = result_status result;
  failure_kind = result_kind result r.failure_kind;
  error_code = result_code result r.error_code;
  finished_at = some now;
  lease_token = none;
  lease_until = none;
}

-- The second transaction of `runOnce`.
unfoldable pub persist_step : StepGuardKey → String → StepResult → Effect GuardResult
unfolding finished_row
persist_step key token result w =
    if count (is_held key token) w.run_steps == 1
    then pure (executed result) (record w {
      run_steps = update (is_held key token) (finished_row result w.now) w.run_steps;
    })
    else throw (step_lease_lost key.step_key) w

pub retryable_row : StepRow → StepRow
retryable_row r = record r {
  status = StepStatus.pending;
  failure_kind = none;
  error_code = some "STEP_RETRYABLE_ERROR";
  started_at = none;
  lease_token = none;
  lease_until = none;
}

-- The `catch` of `runOnce`: a row that still carries the token is to be run again.
unfoldable pub release_step : StepGuardKey → String → Effect (Unit {0})
unfolding retryable_row
release_step key token = modify λ w. record w {
  run_steps =
      update (λ r. is_row_of key r && has_token token r.lease_token) retryable_row w.run_steps;
}

-- After the admission: the operation under the heartbeat, then the second transaction.
unfoldable pub operate :
    StepGuardKey → String → List (World → World) → Effect StepResult → Effect GuardResult
operate key token during operation w =
    let (all_held, w') = beats key token during w in
    (operation >>= λ result.
    if all_held then persist_step key token result else throw (step_lease_lost key.step_key))
      w'

unfoldable pub after_admission :
    StepGuardKey
    → String
    → List (World → World)
    → Effect StepResult
    → Admission
    → Effect GuardResult
unfolding operate
after_admission key token during operation (refused result) = pure result
after_admission key token during operation admitted =
    rethrow_after (operate key token during operation) (release_step key token)

-- `random` stands for the random bytes of the lease tokens, `during` for what others do while the
-- operation runs.
module _ (random : ℕ → String) (during : List (World → World)) where
  unfoldable pub run_once : StepGuardKey → Effect StepResult → Effect GuardResult
  unfolding after_admission
  run_once key operation w =
      let token = random w.draws in
      (admit_step key token >>= after_admission key token during operation)
        (record w { draws = suc w.draws })
