-- ===== src/Store/Snapshots.antt =====
-- What `getRun` of apps/worker/src/workflow/db-adapter.ts reads, and how it follows the writes of a
-- run that is cleaned up and cancelled.
use code_host.Prelude.{
  String, true, List, Option, some, find?, count, str_eq, ◌==◌, ◌&&◌, if◌then◌else◌, ◌≡◌, ◌∙◌, refl,
  ap, arith, Bool-cases, Option-cases, inl, inr, find?-update, count-update,
}
use mathlib.Core.Option
use code_host.Prelude.Result.{ok}
use code_host.RunStatus.{RunStatus, CleanupStatus, cancel_requested, cancelled, cleaned, allows}
use code_host.Workflow.{RunSnapshot}
use code_host.Database.Tables.{RunRow, RepositoryRow, PullRequestRow, World}
use code_host.Database.Capacity.{admit}
use code_host.Database.Counting.{count_of_unique, HasUniqueIds}
use code_host.Store.{
  RunIdentity, has_id, is_current, find_run, cleanup_row, as_run_snapshot, join_run, get_run,
  transitioned, transition_run, set_cleanup_status,
}
use code_host.Store.Transitions.{permitted, transition_run-decides, transition_run-row}

-- What a snapshot says of the row that it is read from.
pub record IsSnapshotOf (row : RunRow) (run' : RunSnapshot) : Type 0 where
  pub id : run'.id ≡ row.id
  pub status : run'.status ≡ row.status
  pub attempt : run'.attempt ≡ row.current_attempt
  pub head_sha : run'.head_sha ≡ row.head_sha

as_run_snapshot-reads :
    (row : RunRow) (repository : RepositoryRow) (pull_request : PullRequestRow) (run' : RunSnapshot)
    → some (as_run_snapshot row repository pull_request) ≡ some run'
    → IsSnapshotOf row run'
unfolding as_run_snapshot
as_run_snapshot-reads row repository pull_request run' e = record {
  id = cc e;
  status = cc e;
  attempt = cc e;
  head_sha = cc e;
}

pub join_run-snapshot :
    (w : World) (row : RunRow) (run' : RunSnapshot)
    → join_run w row ≡ some run'
    → IsSnapshotOf row run'
unfolding join_run
join_run-snapshot w row run' joined =
    elim (Option-cases (find? (λ p. str_eq p.id row.repository_id) w.repositories)) [
      | inl no_repository ↦ cc (rw (no_repository, join_run) at joined)
      | inr (repository, r) ↦
          elim (Option-cases (find? (λ p. str_eq p.id row.pull_request_id) w.pull_requests)) [
            | inl no_pull_request ↦ cc (rw no_pull_request at (rw (r, join_run) at joined))
            | inr (pull_request, q) ↦
                as_run_snapshot-reads row repository pull_request run'
                  (rw q at (rw (r, join_run) at joined))
          ]
    ]

-- The joins of a row that points at the same repository and pull request.
join_run-same :
    (w : World) (row other : RunRow) (run' : RunSnapshot)
    → join_run w row ≡ some run'
    → other.repository_id ≡ row.repository_id
    → other.pull_request_id ≡ row.pull_request_id
    → (again : RunSnapshot) × (join_run w other ≡ some again) × IsSnapshotOf other again
unfolding join_run
join_run-same w row other run' joined same_repository same_pull_request =
    elim (Option-cases (find? (λ p. str_eq p.id row.repository_id) w.repositories)) [
      | inl no_repository ↦ cc (rw (no_repository, join_run) at joined)
      | inr (repository, r) ↦
          elim (Option-cases (find? (λ p. str_eq p.id row.pull_request_id) w.pull_requests)) [
            | inl no_pull_request ↦ cc (rw no_pull_request at (rw (r, join_run) at joined))
            | inr (pull_request, q) ↦ (
              as_run_snapshot other repository pull_request,
              rw (ap (λ i. find? (λ p. str_eq p.id i) w.repositories) same_repository ∙ r, join_run)
                  (rw (ap (λ i. find? (λ p. str_eq p.id i) w.pull_requests) same_pull_request ∙ q)
                    refl),
              as_run_snapshot-reads other repository pull_request _ refl,
            )
          ]
    ]

pub get_run-row :
    (id : String) (w : World) (run' : RunSnapshot)
    → get_run id w ≡ (ok (some run'), w)
    → (row : RunRow) × (find_run id w ≡ some row) × (join_run w row ≡ some run')
unfolding get_run
get_run-row id w run' read = elim (Option-cases (find_run id w)) [
  | inl absent ↦ cc (ap (λ r. r.0) (rw (absent, get_run) at read))
  | inr (row, found) ↦ (row, found, cc (ap (λ r. r.0) (rw (found, get_run) at read)))
]

abbrev pub run_ends_in : String → World → Option (RunStatus × CleanupStatus)
run_ends_in id w = Option.map (λ r. (r.status, r.cleanup_status)) (find_run id w)

has_id-current : (k : RunIdentity) (r : RunRow) → is_current k r ≡ true → has_id k.run_id r ≡ true
has_id-current k r h = ground arith

-- The row after `setCleanupStatus`, and what else of the runs it keeps.
pub set_cleanup_status-row :
    (k : RunIdentity) (to : CleanupStatus) (code : Option String) (w : World) (row : RunRow)
    → HasUniqueIds w.runs
    → find_run k.run_id w ≡ some row
    → is_current k row ≡ true
    → ((set_cleanup_status k to code w).0 ≡ ok tt)
      × (find_run k.run_id (set_cleanup_status k to code w).1
          ≡ some (cleanup_row to code w.now row))
      × HasUniqueIds (set_cleanup_status k to code w).1.runs
unfolding set_cleanup_status
set_cleanup_status-row k to code w row unique found current =
    let one : count (is_current k) w.runs ≡ 1 =
      count_of_unique (has_id k.run_id) (is_current k) (has_id-current k) w.runs found
        (unique k.run_id)
      ∙ (rw current refl) in
    (
      rw one refl,
      rw one (
          find?-update (has_id k.run_id) (is_current k) (cleanup_row to code w.now) (λ a _. refl)
            w.runs
          ∙ ap (Option.map (λ a. if is_current k a then cleanup_row to code w.now a else a)) found
          ∙ (rw current refl)),
      rw one (λ id. omega (
        arith,
        unique id,
        count-update (has_id id) (is_current k) (cleanup_row to code w.now) (λ a _. refl) w.runs,
      )),
    )

set_cleanup_status-joins :
    (k : RunIdentity) (to : CleanupStatus) (code : Option String) (w : World) (r : RunRow)
    → join_run (set_cleanup_status k to code w).1 r ≡ join_run w r
unfolding set_cleanup_status join_run
set_cleanup_status-joins k to code w r = elim (Bool-cases (count (is_current k) w.runs == 1)) [
  | inl one ↦ rw one refl
  | inr other ↦ rw other refl
]

-- A run is read again after its cleanup status was written.
pub read_after_cleanup :
    (k : RunIdentity) (to : CleanupStatus) (code : Option String) (w : World) (row : RunRow)
    (run' : RunSnapshot)
    → join_run w row ≡ some run'
    → find_run k.run_id (set_cleanup_status k to code w).1 ≡ some (cleanup_row to code w.now row)
    → (again : RunSnapshot) × (get_run k.run_id (set_cleanup_status k to code w).1
        ≡ (ok (some again), (set_cleanup_status k to code w).1))
      × IsSnapshotOf (cleanup_row to code w.now row) again
unfolding get_run
read_after_cleanup k to code w row run' joined found' =
    let (again, joined', snapshot) =
      join_run-same w row (cleanup_row to code w.now row) run' joined refl refl in
    (
      again,
      rw (found', get_run)
          (rw (set_cleanup_status-joins k to code w (cleanup_row to code w.now row), get_run)
            (rw joined' refl)),
      snapshot,
    )

cancelled_allowed : allows cancel_requested cancelled true ≡ true
unfolding allows
cancelled_allowed = ground arith

admit-cancelled : (runs : List RunRow) → admit runs (some cancel_requested) cancelled ≡ cancelled
unfolding admit
admit-cancelled runs = ground arith

-- The move to CANCELLED of a run that is to be cancelled and is CLEANED.
pub cancel_cleaned :
    (k : RunIdentity) (reason : Option String) (w : World) (row : RunRow)
    → HasUniqueIds w.runs
    → find_run k.run_id w ≡ some row
    → (row.current_attempt == k.attempt && str_eq row.head_sha k.head_sha) ≡ true
    → row.status ≡ cancel_requested
    → row.cleanup_status ≡ cleaned
    → ((transition_run k cancelled reason w).0 ≡ ok tt)
      × (run_ends_in k.run_id (transition_run k cancelled reason w).1 ≡ some (cancelled, cleaned))
unfolding transitioned
cancel_cleaned k reason w row unique found current cancelling clean =
    let allowed : permitted k cancelled row ≡ true =
      rw current (rw cancelling (rw clean cancelled_allowed)) in
    (
      rw (transition_run-decides k cancelled reason w row unique found) (rw allowed refl),
      ap (Option.map (λ r. (r.status, r.cleanup_status)))
            (transition_run-row k cancelled reason w row unique found allowed)
          ∙ (rw cancelling (rw clean (rw (admit-cancelled w.runs) refl))),
    )
