-- ===== src/Webhook/Runs.antt =====
-- The run that the transaction of apps/api/src/webhook.service.ts makes of a new event.
use code_host.Prelude.{
  ℕ, suc, String, true, false, List, [], ◌∷◌, ◌++◌, Option, none, some, find?, any, count, str_eq,
  eq_refl, if◌then◌else◌, ◌≡◌, inl, inr, refl, ap, ◌∙◌, arith, Bool, Bool-cases, find?-append, leb,
  ◌||◌, update, any-false-find?,
}
use code_host.Prelude.Result.{Result, ok}
use code_host.Prelude.Text.{◌++◌ as append, clip, decimal}
use code_host.RunStatus.{
  RunStatus, queued, rejected_by_capacity, not_scheduled, includes, same_status,
  holds_execution_lock,
}
use code_host.Workflow.{detect, parse_workflow_job, job_payload}
use code_host.Workflow.Jobs.{parse-payload}
use code_host.Database.Tables.{RunRow, waiting, event_processed, World}
use code_host.Database.Effects.{Fault}
use code_host.Database.Capacity.{is_active, is_queued, admit}
use code_host.Outbox.{has_key, find_outbox}
use code_host.Api.{create_workflow_outbox_dedupe_key, new_outbox, job_of}
use code_host.Api.Retry.{insert_outbox}
use code_host.Webhook.Rows.{
  active_run_statuses, WebhookResult, created, duplicate, Delivery, has_delivery, mark_processed,
}
use code_host.Webhook.Service.{
  is_run_of, capacity_status, without_dashes, first_plan, new_run, insert_run, first_job,
  create_run, run_for,
}

active-includes : (s : RunStatus) → includes active_run_statuses s ≡ holds_execution_lock s
unfolding holds_execution_lock
active-includes s = refl

count-active :
    (runs : List RunRow)
    → count (λ r. includes active_run_statuses r.status) runs ≡ count is_active runs
count-active [] = refl
count-active (r ∷ runs) = ground (arith, active-includes r.status, count-active runs)

-- The triggers store the status that the service decides on.
admit-capacity_status :
    (runs : List RunRow) → admit runs none (capacity_status runs) ≡ capacity_status runs
unfolding admit capacity_status
admit-capacity_status runs = ground (arith, count-active runs)

unfoldable pub find_run_of : String → String → String → World → Option RunRow
find_run_of repository_id pull_request_id head_sha w =
    find? (is_run_of repository_id pull_request_id head_sha) w.runs

-- A drawn id that no run has yet, and no job in the outbox.
pub record IsFreshId (id : String) (w : World) : Type 0 where
  pub run : any (λ r. str_eq r.id id) w.runs ≡ false
  pub job : any (has_key (create_workflow_outbox_dedupe_key id detect 1)) w.outbox ≡ false

module _ (random : ℕ → String) (d : Delivery) (repository_id pull_request_id : String)
    (w : World) where
  abbrev pub decided : RunStatus
  decided = capacity_status w.runs

  abbrev pub made : RunRow
  made = new_run (random w.draws) repository_id pull_request_id d.event.head_sha decided w.now

  abbrev pub drawn : World
  drawn = record w { draws = suc w.draws }

  insert_run-made :
      any (λ r. str_eq r.id (random w.draws)) w.runs ≡ false
      → insert_run made drawn ≡ (ok made, record drawn { runs = w.runs ++ made ∷ [] })
  unfolding insert_run new_run
  insert_run-made free = rw free (rw (admit-capacity_status w.runs) refl)

  first_job-made :
      any (has_key (create_workflow_outbox_dedupe_key (random w.draws) detect 1)) w.outbox ≡ false
      → first_job decided made (record drawn { runs = w.runs ++ made ∷ [] }) ≡ (
        ok tt,
        record drawn {
          runs = w.runs ++ made ∷ [];
          outbox =
              if same_status decided queued
              then w.outbox ++ new_outbox made 1 detect w.now ∷ []
              else w.outbox;
        },
      )
  unfolding first_job insert_outbox new_outbox new_run
  first_job-made free = elim (Bool-cases (same_status decided queued)) [
    | inl waits ↦ rw waits (rw free refl)
    | inr rejected ↦ rw rejected refl
  ]

  -- The end of the transaction, with the status that the service decides on.
  abbrev ended_with : RunStatus → Result Fault WebhookResult × World
  ended_with s =
      let row = new_run (random w.draws) repository_id pull_request_id d.event.head_sha s w.now in
      (
        ok (created (random w.draws) s),
        mark_processed d.delivery_id (record drawn {
          runs = w.runs ++ row ∷ [];
          outbox =
              if same_status s queued
              then w.outbox ++ new_outbox row 1 detect w.now ∷ []
              else w.outbox;
        }),
      )

  run_for-made :
      find_run_of repository_id pull_request_id d.event.head_sha w ≡ none
      → IsFreshId (random w.draws) w
      → run_for random d repository_id pull_request_id w ≡ ended_with decided
  unfolding find_run_of run_for create_run
  run_for-made absent fresh =
      rw (absent, run_for) (rw (insert_run-made fresh.run) (rw (first_job-made fresh.job) refl))

  -- What the transaction leaves, column by column; `full` says that there is no room for the run.
  abbrev pub ended_as : Bool → Result Fault WebhookResult × World
  ended_as full = (
    ok (created (random w.draws) (if full then rejected_by_capacity else queued)),
    record w {
      draws = suc w.draws;
      runs =
          w.runs
          ++ record {
            id = random w.draws;
            repository_id = repository_id;
            pull_request_id = pull_request_id;
            head_sha = d.event.head_sha;
            trigger = "gitea-webhook";
            status = if full then rejected_by_capacity else queued;
            verdict = none;
            created_at = w.now;
            updated_at = w.now;
            namespace = some (append "pr-run-" (clip 12 (without_dashes (random w.draws))));
            preview_host = none;
            execution_plan = first_plan;
            workflow_version = "0.1.0";
            current_attempt = 1;
            started_at = none;
            finished_at = none;
            cleanup_at = none;
            cleanup_status = not_scheduled;
            cleanup_error = none;
            preview_expires_at = none;
            error_code = none;
          }
            ∷ [];
      outbox =
          if full
          then w.outbox
          else w.outbox
            ++ record {
              run_id = random w.draws;
              attempt = 1;
              step_key = detect;
              queue_name = "platform.workflow";
              payload = job_payload (record {
                run_id = random w.draws;
                attempt = 1;
                head_sha = d.event.head_sha;
                step_key = detect;
              });
              status = waiting;
              available_at = w.now;
              published_at = none;
              attempts = 0;
              lease_until = none;
              dedupe_key =
                  append (random w.draws) (append ":" (append "detect" (append ":" (decimal 1))));
              last_error = none;
            }
              ∷ [];
      webhook_events =
          update (has_delivery d.delivery_id)
            (λ e. record e { status = event_processed; processed_at = some w.now })
            w.webhook_events;
    },
  )

  ended-columns :
      (full : Bool) → ended_with (if full then rejected_by_capacity else queued) ≡ ended_as full
  unfolding new_run new_outbox mark_processed create_workflow_outbox_dedupe_key
  ended-columns true = refl
  ended-columns false = refl

  decided-room : decided ≡ (
      if leb 1 (count is_active w.runs) || leb 3 (count is_queued w.runs)
      then rejected_by_capacity
      else queued)
  unfolding capacity_status
  decided-room = ground (arith, count-active w.runs)

  -- A head that has no run yet gets one, under the drawn id: the answer and the new row, of which every column
  -- is told, have the status REJECTED_BY_CAPACITY if a run is active or three wait, and QUEUED otherwise. The
  -- outbox gets the row of its first job, PENDING at once, just if the run is QUEUED; the event of the delivery
  -- becomes PROCESSED at that time, and nothing else changes.
  pub run_for-creates :
      find_run_of repository_id pull_request_id d.event.head_sha w ≡ none
      → IsFreshId (random w.draws) w
      → run_for random d repository_id pull_request_id w
        ≡ ended_as (leb 1 (count is_active w.runs) || leb 3 (count is_queued w.runs))
  run_for-creates absent fresh =
      run_for-made absent fresh
      ∙ ap ended_with decided-room
      ∙ ended-columns (leb 1 (count is_active w.runs) || leb 3 (count is_queued w.runs))

  made-is_run_of : is_run_of repository_id pull_request_id d.event.head_sha made ≡ true
  unfolding new_run
  made-is_run_of =
      ground (arith, eq_refl repository_id, eq_refl pull_request_id, eq_refl d.event.head_sha)

  processed-unchanged :
      (id : String) (v : World)
      → ((mark_processed id v).runs ≡ v.runs) × ((mark_processed id v).outbox ≡ v.outbox)
  unfolding mark_processed
  processed-unchanged id v = (refl, refl)

  -- A head gets one run: when another delivery of the same head of the same pull request comes later, while the
  -- runs are as the first left them, it is answered as a duplicate with the first one's run, and only its own
  -- event is marked.
  pub run_for-once :
      (other : Delivery) (later : World)
      → find_run_of repository_id pull_request_id d.event.head_sha w ≡ none
      → IsFreshId (random w.draws) w
      → other.event.head_sha ≡ d.event.head_sha
      → later.runs ≡ (run_for random d repository_id pull_request_id w).1.runs
      → run_for random other repository_id pull_request_id later
        ≡ (ok (duplicate (some (random w.draws))), mark_processed other.delivery_id later)
  unfolding find_run_of run_for new_run mark_processed
  run_for-once other later absent fresh same_head same_runs =
      let kept : later.runs ≡ w.runs ++ made ∷ [] =
        same_runs ∙ ap (λ r. r.1.runs) (run_for-made absent fresh) in
      let found : find? (is_run_of repository_id pull_request_id d.event.head_sha) later.runs
          ≡ some made =
        ap (find? (is_run_of repository_id pull_request_id d.event.head_sha)) kept
        ∙ find?-append (is_run_of repository_id pull_request_id d.event.head_sha) w.runs (made ∷ [])
            absent
        ∙ (rw made-is_run_of refl) in
      let found_by_other : find? (is_run_of repository_id pull_request_id other.event.head_sha)
            later.runs
          ≡ some made =
        ap (λ sha. find? (is_run_of repository_id pull_request_id sha) later.runs) same_head
        ∙ found in
      rw (found_by_other, run_for) refl

  -- A run that is QUEUED is not lost: its row in the outbox holds a payload that the worker reads as the
  -- first job of the run, if the run's id and the head are not empty.
  pub run_for-queues :
      find_run_of repository_id pull_request_id d.event.head_sha w ≡ none
      → IsFreshId (random w.draws) w
      → decided ≡ queued
      → str_eq (random w.draws) "" ≡ false
      → str_eq d.event.head_sha "" ≡ false
      → (find_outbox
            (create_workflow_outbox_dedupe_key (random w.draws) detect 1)
            (run_for random d repository_id pull_request_id w).1
          ≡ some (new_outbox made 1 detect w.now))
        × (parse_workflow_job (new_outbox made 1 detect w.now).payload
            ≡ some (job_of made 1 detect))
  unfolding mark_processed new_outbox new_run
  run_for-queues absent fresh waits some_id some_head =
      let key = create_workflow_outbox_dedupe_key (random w.draws) detect 1 in
      (
        rw (run_for-made absent fresh) (
            rw waits (
              find?-append (has_key key) w.outbox (new_outbox made 1 detect w.now ∷ [])
                (any-false-find? (has_key key) w.outbox fresh.job)
              ∙ (rw (eq_refl key) refl))),
        parse-payload (job_of made 1 detect) ∙ (rw some_id (rw some_head refl)),
      )
