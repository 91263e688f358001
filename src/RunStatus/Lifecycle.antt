-- ===== src/RunStatus/Lifecycle.antt =====
-- How a run moves through the statuses of packages/contracts/src/run-status.ts.
use code_host.Prelude.{
  ℕ, ◌+◌, ◌≤◌, ◌<◌, Bool, true, false, ◌&&◌, ◌≡◌, ◌↔◌, ◌⊎◌, refl, arith, some, List, [], ◌∷◌,
  length,
}
use code_host.RunStatus.{
  RunStatus, received, queued, planning, executing, analyzing, reporting, failed, incomplete,
  cancel_requested, cancelled, CleanupStatus, cleaned, cleanup_failed, status_text, parse_status,
  allows, is_valid_run_status_transition, is_terminal_run_status, holds_execution_lock,
  can_retry_run,
}

parse_status-text : (s : RunStatus) → parse_status (status_text s) ≡ some s
unfolding parse_status
parse_status-text received = refl
parse_status-text _ = refl

-- On the strings of two statuses the transition test is the table's, with the exception for a
-- cancellation that waits for the cleanup.
pub is_valid-text :
    (from to : RunStatus) (confirmed : Bool)
    → is_valid_run_status_transition (status_text from) (status_text to) confirmed
      ≡ allows from to confirmed
unfolding is_valid_run_status_transition
is_valid-text from to confirmed =
    rw (parse_status-text from, is_valid_run_status_transition) (rw (parse_status-text to))

-- The rank of a status in the life of a run.
abbrev pub stage : RunStatus → ℕ
stage received = 0
stage queued = 1
stage planning = 2
stage executing = 3
stage analyzing = 4
stage reporting = 5
stage cancel_requested = 5
stage _ = 6

pub stage-allows :
    (from to : RunStatus) (c : Bool) → allows from to c ≡ true → stage from < stage to
unfolding allows
stage-allows received to c h = ground arith
stage-allows _ to c h = ground arith

-- A chain of allowed transitions, each with what was known of the cleanup at its time.
abbrev pub is_chain : RunStatus → List (RunStatus × Bool) → Bool
is_chain from [] = true
is_chain from ((to, c) ∷ rest) = allows from to c && is_chain to rest

abbrev pub last : RunStatus → List (RunStatus × Bool) → RunStatus
last from [] = from
last from ((to, c) ∷ rest) = last to rest

chain-stage :
    (from : RunStatus) (path : List (RunStatus × Bool))
    → is_chain from path ≡ true
    → stage from + length path ≤ stage (last from path)
chain-stage from [] h = omega arith
chain-stage from ((to, c) ∷ rest) h = ground (arith, stage-allows from to c, chain-stage to rest)

stage-le : (s : RunStatus) → stage s ≤ 6
stage-le received = omega arith
stage-le _ = omega arith

-- A chain of transitions that the table allows has at most six.
pub chain_bounded :
    (from : RunStatus) (path : List (RunStatus × Bool))
    → is_chain from path ≡ true
    → length path ≤ 6
chain_bounded from path h = omega (arith, chain-stage from path h, stage-le (last from path))

-- A successor under a confirmed cleanup, where there is one.
a_successor : RunStatus → RunStatus
a_successor received = queued
a_successor queued = planning
a_successor cancel_requested = cancelled
a_successor _ = incomplete

a_successor_allowed :
    (s : RunStatus) → is_terminal_run_status s ≡ false → allows s (a_successor s) true ≡ true
unfolding is_terminal_run_status allows a_successor
a_successor_allowed received h = refl
a_successor_allowed _ h = ground arith

terminal_stuck :
    (s t : RunStatus) (c : Bool) → is_terminal_run_status s ≡ true → allows s t c ≡ false
unfolding is_terminal_run_status allows
terminal_stuck received t c h = ground arith
terminal_stuck _ t c h = ground arith

-- The terminal statuses are exactly those that the table lets no transition leave.
pub terminal_iff_stuck :
    (s : RunStatus)
    → (is_terminal_run_status s ≡ true) ↔ ((t : RunStatus) (c : Bool) → allows s t c ≡ false)
terminal_iff_stuck s = (
  λ h t c. terminal_stuck s t c h,
  λ h. ground (arith, h (a_successor s) true, a_successor_allowed s),
)

-- A transition to CANCELLED is allowed exactly from CANCEL_REQUESTED with a confirmed cleanup.
pub cancelled_needs_cleanup :
    (from : RunStatus) (c : Bool)
    → (allows from cancelled c ≡ true) ↔ ((from ≡ cancel_requested) × (c ≡ true))
unfolding allows
cancelled_needs_cleanup from c = ground arith

-- A run that may be retried is terminal, holds no execution lock, and its cleanup has ended: it is
-- confirmed, or it failed and a person confirmed it.
pub can_retry_iff :
    (s : RunStatus) (k : CleanupStatus) (manual : Bool)
    → (can_retry_run s k manual ≡ true) ↔ (
        ((s ≡ failed) ⊎ (s ≡ incomplete))
        × ((k ≡ cleaned) ⊎ ((k ≡ cleanup_failed) × (manual ≡ true))))
unfolding can_retry_run
can_retry_iff s k manual = ground arith

pub lock_not_terminal :
    (s : RunStatus) → holds_execution_lock s ≡ true → is_terminal_run_status s ≡ false
unfolding holds_execution_lock is_terminal_run_status
lock_not_terminal s h = ground arith
