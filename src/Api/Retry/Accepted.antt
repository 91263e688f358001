-- ===== src/Api/Retry/Accepted.antt =====
-- The attempt that `retry` of apps/api/src/run.controller.ts starts.
use code_host.Prelude.{
  ℕ, ◌+◌, ◌≤◌, String, Bool, true, false, List, [], ◌∷◌, ◌++◌, none, some, find?, any, count, ◌==◌,
  ==-refl, ◌||◌, not, if◌then◌else◌, ◌≡◌, ◌∙◌, refl, ap, arith, find?-update, find?-none-any,
}
use mathlib.Core.Option
use code_host.Prelude.Result.{ok}
use code_host.Prelude.Text.{◌++◌ as append, decimal}
use code_host.RunStatus.{
  RunStatus, queued, not_scheduled, same_status, same_cleanup, status_index, cleanup_index,
}
use code_host.Workflow.{detect, job_payload}
use code_host.Database.Tables.{RunRow, waiting, World}
use code_host.Database.Capacity.{is_active, is_queued, admit, update_status}
use code_host.Database.Counting.{HasUniqueIds, count_of_unique}
use code_host.Store.{has_id, find_run}
use code_host.Outbox.{has_key, find_outbox}
use code_host.Api.{
  RunAnswer, create_workflow_outbox_dedupe_key, new_outbox, audit, is_unchanged, has_retry_capacity,
}
use code_host.Api.Retry.{
  retried, retry_details, is_retry_eligible, insert_outbox, start_attempt, retry_current,
  read_retry, retry,
}
use code_host.Api.Cancel.Bounds.{is_unchanged_self, unchanged-id}

abbrev pub detect_key : RunRow → String
detect_key row = create_workflow_outbox_dedupe_key row.id detect (row.current_attempt + 1)

-- A run that is as the user saw it, whose retry is allowed, and for which there is room in a queue of at
-- most three.
pub record IsRetryable (max : ℕ) (row : RunRow) (confirmed : Bool) (w : World) : Type 0 where
  pub unique : HasUniqueIds w.runs
  pub found : find_run row.id w ≡ some row
  pub eligible : is_retry_eligible row confirmed ≡ true
  pub room : has_retry_capacity (count is_active w.runs) (count is_queued w.runs) max ≡ true
  pub small : max ≤ 3
  pub fresh : find_outbox (detect_key row) w ≡ none

admit-queued :
    (max : ℕ) (s : RunStatus) (runs : List RunRow)
    → has_retry_capacity (count is_active runs) (count is_queued runs) max ≡ true
    → max ≤ 3
    → admit runs (some s) queued ≡ queued
unfolding admit has_retry_capacity
admit-queued max s runs room small = ground arith

one_unchanged :
    (row : RunRow) (w : World)
    → HasUniqueIds w.runs
    → find_run row.id w ≡ some row
    → count (is_unchanged row) w.runs ≡ 1
one_unchanged row w unique found =
    count_of_unique (has_id row.id) (is_unchanged row) (unchanged-id row) w.runs found
      (unique row.id)
    ∙ (rw (is_unchanged_self row) refl)

find-retried :
    (row : RunRow) (w : World)
    → find_run row.id w ≡ some row
    → admit w.runs (some row.status) queued ≡ queued
    → find?
        (has_id row.id)
        (update_status (is_unchanged row) queued (retried (row.current_attempt + 1) w.now) w.runs)
      ≡ some (record (retried (row.current_attempt + 1) w.now row) { status = queued })
unfolding update_status retried
find-retried row w found admitted =
    find?-update (has_id row.id) (is_unchanged row)
      (λ r. record (retried (row.current_attempt + 1) w.now r) {
        status = admit w.runs (some r.status) queued;
      })
      (λ a _. refl) w.runs
    ∙ ap
        (Option.map (λ r.
          if is_unchanged row r
          then record (retried (row.current_attempt + 1) w.now r) {
            status = admit w.runs (some r.status) queued;
          }
          else r))
        found
    ∙ (rw (is_unchanged_self row) (rw admitted refl))

first_row-key :
    (row : RunRow) (now : ℕ)
    → (new_outbox row (row.current_attempt + 1) detect now).dedupe_key ≡ detect_key row
unfolding new_outbox
first_row-key row now = refl

abbrev pub retry_answer : RunRow → RunAnswer
retry_answer row = record {
  id = row.id;
  status = queued;
  current_attempt = row.current_attempt + 1;
  cleanup_status = not_scheduled;
}

as_seen :
    (row : RunRow)
    → (not (same_status row.status row.status)
        || (not (same_cleanup row.cleanup_status row.cleanup_status)
            || not (row.current_attempt == row.current_attempt)))
      ≡ false
as_seen row = ground (
  arith,
  ==-refl row.current_attempt,
  ==-refl (status_index row.status),
  ==-refl (cleanup_index row.cleanup_status),
)

no_first_row :
    (row : RunRow) (w : World)
    → find_outbox (detect_key row) w ≡ none
    → any (has_key (new_outbox row (row.current_attempt + 1) detect w.now).dedupe_key) w.outbox
      ≡ false
no_first_row row w fresh =
    rw (first_row-key row w.now) (find?-none-any (has_key (detect_key row)) w.outbox fresh)

retry-world :
    (max user : ℕ) (row : RunRow) (confirmed : Bool) (w : World)
    → IsRetryable max row confirmed w
    → retry max user row confirmed w ≡ (
      ok (retry_answer row),
      audit user "RUN_RETRIED" row (retry_details row) (record w {
        runs =
            update_status
              (is_unchanged row)
              queued
              (retried (row.current_attempt + 1) w.now)
              w.runs;
        outbox = w.outbox ++ new_outbox row (row.current_attempt + 1) detect w.now ∷ [];
      }),
    )
unfolding retry read_retry retry_current start_attempt insert_outbox
retry-world max user row confirmed w m = rw m.eligible (
    rw (m.found, read_retry)
      (rw (as_seen row) (
        rw m.eligible (
          rw m.room
            (rw (one_unchanged row w m.unique m.found) (rw (no_first_row row w m.fresh) refl))))))

-- A retry that is allowed and has room starts the next attempt: the run is QUEUED with the attempt's
-- number, and its verdict, its start and end, its cleanup's state, time and error, its preview and its
-- error code are those of a run that has not begun, while its namespace, plan and all else stay. The outbox
-- has one new row, PENDING at once and without a lease or an attempt, with the job of the detect step.
pub retry-accepted :
    (max user : ℕ) (row : RunRow) (confirmed : Bool) (w : World)
    → IsRetryable max row confirmed w
    → ((retry max user row confirmed w).0
        ≡ ok (record {
          id = row.id;
          status = queued;
          current_attempt = row.current_attempt + 1;
          cleanup_status = not_scheduled;
        }))
      × (find_run row.id (retry max user row confirmed w).1
          ≡ some (record row {
            status = queued;
            current_attempt = row.current_attempt + 1;
            verdict = none;
            started_at = none;
            finished_at = none;
            cleanup_at = none;
            cleanup_status = not_scheduled;
            cleanup_error = none;
            preview_host = none;
            preview_expires_at = none;
            error_code = none;
            updated_at = w.now;
          }))
      × ((retry max user row confirmed w).1.outbox
          ≡ w.outbox
            ++ record {
              run_id = row.id;
              attempt = row.current_attempt + 1;
              step_key = detect;
              queue_name = "platform.workflow";
              payload = job_payload (record {
                run_id = row.id;
                attempt = row.current_attempt + 1;
                head_sha = row.head_sha;
                step_key = detect;
              });
              status = waiting;
              available_at = w.now;
              published_at = none;
              attempts = 0;
              lease_until = none;
              dedupe_key =
                  append row.id
                    (append ":" (append "detect" (append ":" (decimal (row.current_attempt + 1)))));
              last_error = none;
            }
              ∷ [])
unfolding retried new_outbox create_workflow_outbox_dedupe_key
retry-accepted max user row confirmed w m =
    let done = retry-world max user row confirmed w m in
    (
      ap (λ r. r.0) done,
      ap (λ r. find_run row.id r.1) done
          ∙ find-retried row w m.found (admit-queued max row.status w.runs m.room m.small),
      ap (λ r. r.1.outbox) done,
    )
