-- ===== src/RunStatus.antt =====
-- packages/contracts/src/run-status.ts: the statuses of a run and of its cleanup, the table of
-- transitions, and the tests that the API and the worker share.
pub mod Lifecycle
use code_host.Prelude.{
  ℕ, String, Bool, true, false, List, [], ◌∷◌, Option, none, some, any, ◌==◌, ◌&&◌, ◌||◌, not,
  find?, str_eq, if◌then◌else◌, is_some,
}

pub data RunStatus : Type 0 where
  received queued planning executing analyzing reporting : RunStatus
  passed failed incomplete cancel_requested cancelled rejected_by_capacity : RunStatus

pub data CleanupStatus : Type 0 where
  not_scheduled pending cleaned cleanup_failed : CleanupStatus

-- The place in `RUN_STATUS_VALUES`.
abbrev pub status_index : RunStatus → ℕ
status_index received = 0
status_index queued = 1
status_index planning = 2
status_index executing = 3
status_index analyzing = 4
status_index reporting = 5
status_index passed = 6
status_index failed = 7
status_index incomplete = 8
status_index cancel_requested = 9
status_index cancelled = 10
status_index rejected_by_capacity = 11

-- `===` on run statuses.
abbrev pub same_status : RunStatus → RunStatus → Bool
same_status a b = status_index a == status_index b

abbrev pub cleanup_index : CleanupStatus → ℕ
cleanup_index not_scheduled = 0
cleanup_index pending = 1
cleanup_index cleaned = 2
cleanup_index cleanup_failed = 3

abbrev pub same_cleanup : CleanupStatus → CleanupStatus → Bool
same_cleanup a b = cleanup_index a == cleanup_index b

abbrev pub run_status_values : List RunStatus
run_status_values =
    received ∷ queued ∷ planning ∷ executing ∷ analyzing ∷ reporting ∷ passed ∷ failed ∷ incomplete
    ∷ cancel_requested ∷ cancelled ∷ rejected_by_capacity ∷ []

-- The string that the source uses for the status.
abbrev pub status_text : RunStatus → String
status_text received = "RECEIVED"
status_text queued = "QUEUED"
status_text planning = "PLANNING"
status_text executing = "EXECUTING"
status_text analyzing = "ANALYZING"
status_text reporting = "REPORTING"
status_text passed = "PASSED"
status_text failed = "FAILED"
status_text incomplete = "INCOMPLETE"
status_text cancel_requested = "CANCEL_REQUESTED"
status_text cancelled = "CANCELLED"
status_text rejected_by_capacity = "REJECTED_BY_CAPACITY"

-- `RunStatusSchema.safeParse(value)`
pub parse_status : String → Option RunStatus
parse_status value = find? (λ s. str_eq (status_text s) value) run_status_values

pub is_run_status : String → Bool
unfolding parse_status
is_run_status value = is_some (parse_status value)

abbrev pub execution_lock_statuses : List RunStatus
execution_lock_statuses = planning ∷ executing ∷ analyzing ∷ reporting ∷ cancel_requested ∷ []

abbrev pub terminal_run_statuses : List RunStatus
terminal_run_statuses = passed ∷ failed ∷ incomplete ∷ cancelled ∷ rejected_by_capacity ∷ []

abbrev pub run_status_transitions : RunStatus → List RunStatus
run_status_transitions received = queued ∷ rejected_by_capacity ∷ []
run_status_transitions queued = planning ∷ cancel_requested ∷ []
run_status_transitions planning = executing ∷ analyzing ∷ incomplete ∷ cancel_requested ∷ []
run_status_transitions executing = analyzing ∷ incomplete ∷ cancel_requested ∷ []
run_status_transitions analyzing = reporting ∷ incomplete ∷ cancel_requested ∷ []
run_status_transitions reporting = passed ∷ failed ∷ incomplete ∷ []
run_status_transitions passed = []
run_status_transitions failed = []
run_status_transitions incomplete = []
run_status_transitions cancel_requested = cancelled ∷ []
run_status_transitions cancelled = []
run_status_transitions rejected_by_capacity = []

-- `statuses.includes(status)`
abbrev pub includes : List RunStatus → RunStatus → Bool
includes statuses status = any (same_status status) statuses

-- The two tests of `isValidRunStatusTransition` on parsed statuses.
unfoldable pub allows : RunStatus → RunStatus → Bool → Bool
allows from to cleanup_confirmed =
    if same_status from cancel_requested && same_status to cancelled
    then cleanup_confirmed
    else includes (run_status_transitions from) to

-- A string that is no status makes the transition invalid.
pub is_valid_run_status_transition : String → String → Bool → Bool
is_valid_run_status_transition from to cleanup_confirmed = elim (parse_status from) [
  | none ↦ false
  | some f ↦ elim (parse_status to) [ none ↦ false | some t ↦ allows f t cleanup_confirmed ]
]

unfoldable pub is_terminal_run_status : RunStatus → Bool
is_terminal_run_status status = includes terminal_run_statuses status

unfoldable pub holds_execution_lock : RunStatus → Bool
holds_execution_lock status = includes execution_lock_statuses status

unfoldable pub can_retry_run : RunStatus → CleanupStatus → Bool → Bool
can_retry_run status cleanup_status manually_confirmed_cleanup_failure =
    if not (same_status status failed) && not (same_status status incomplete)
    then false
    else same_cleanup cleanup_status cleaned
      || (same_cleanup cleanup_status cleanup_failed && manually_confirmed_cleanup_failure)
