-- ===== src/Webhook/Capacity.antt =====
-- The runs that the transaction of apps/api/src/webhook.service.ts leaves, against the triggers of
-- packages/db/drizzle/0005_run_capacity_triggers.sql.
use code_host.Prelude.{
  ℕ, suc, String, false, List, [], ◌∷◌, find?, any, count, str_eq, ◌≡◌, inl, inr, refl, arith,
  Bool-cases, Option-cases,
}
use code_host.RunStatus.{RunStatus}
use code_host.Database.Tables.{RunRow, WebhookEventRow, World}
use code_host.Database.Effects.{Effect, pure, modify, ◌>>=◌, ◌>>◌}
use code_host.Database.Counting.{IsWithinCapacity, insert-IsWithinCapacity}
use code_host.Database.Keeps.{bind-keeps}
use code_host.Webhook.Rows.{
  WebhookResult, created, Delivery, has_delivery, redelivered, insert_event, set_event_repository,
  mark_processed, upsert_repository, upsert_pull_request,
}
use code_host.Webhook.Service.{
  is_run_of, capacity_status, new_run, insert_run, first_job, create_run, run_for, receive_new,
  receive,
}

abbrev pub Bounded : World → Type 0
Bounded w = IsWithinCapacity w.runs

count-zero_of_any :
    (id : String) (runs : List RunRow)
    → any (λ r. str_eq r.id id) runs ≡ false
    → count (λ r. str_eq r.id id) runs ≡ 0
count-zero_of_any id [] h = refl
count-zero_of_any id (r ∷ runs) h = ground (arith, count-zero_of_any id runs)

insert_run-Bounded : (row : RunRow) (w : World) → Bounded w → Bounded (insert_run row w).1
unfolding insert_run
insert_run-Bounded row w c = elim (Bool-cases (any (λ r. str_eq r.id row.id) w.runs)) [
  | inl taken ↦ rw taken c
  | inr free ↦
      rw free
        (insert-IsWithinCapacity w.runs row row.status (count-zero_of_any row.id w.runs free) c)
]

first_job-runs :
    (decided : RunStatus) (row : RunRow) (w : World) → (first_job decided row w).1.runs ≡ w.runs
unfolding first_job
first_job-runs decided row w = ground arith

processed-runs : (id : String) (w : World) → (mark_processed id w).runs ≡ w.runs
unfolding mark_processed
processed-runs id w = refl

subst-runs : (w v : World) → v.runs ≡ w.runs → Bounded w → Bounded v
subst-runs w v same c = rw same c

module _ (random : ℕ → String) (d : Delivery) where
  answer_created : RunStatus → RunRow → Effect WebhookResult
  answer_created decided stored =
      first_job decided stored
      >> (modify (mark_processed d.delivery_id) >> pure (created stored.id stored.status))

  answer_created-Bounded :
      (decided : RunStatus) (stored : RunRow) (w : World)
      → Bounded w
      → Bounded (answer_created decided stored w).1
  unfolding answer_created
  answer_created-Bounded decided stored =
      bind-keeps Bounded (first_job decided stored)
        (λ _. modify (mark_processed d.delivery_id) >> pure (created stored.id stored.status))
        (λ w c. subst-runs w (first_job decided stored w).1 (first_job-runs decided stored w) c)
        (λ _ w c. subst-runs w (mark_processed d.delivery_id w) (processed-runs d.delivery_id w) c)

  create_run-Bounded :
      (repository_id pull_request_id : String) (w : World)
      → Bounded w
      → Bounded (create_run random d repository_id pull_request_id w).1
  unfolding create_run answer_created
  create_run-Bounded repository_id pull_request_id w c =
      let decided = capacity_status w.runs in
      let row =
        new_run (random w.draws) repository_id pull_request_id d.event.head_sha decided w.now in
      bind-keeps Bounded (insert_run row) (answer_created decided) (insert_run-Bounded row)
        (answer_created-Bounded decided) (record w { draws = suc w.draws }) c

  run_for-Bounded :
      (repository_id pull_request_id : String) (w : World)
      → Bounded w
      → Bounded (run_for random d repository_id pull_request_id w).1
  unfolding run_for
  run_for-Bounded repository_id pull_request_id w c =
      elim (Option-cases
        (find? (is_run_of repository_id pull_request_id d.event.head_sha) w.runs)) [
          | inl absent ↦ rw (absent, run_for) (create_run-Bounded repository_id pull_request_id w c)
          | inr (run, found) ↦
              rw (found, run_for)
                (subst-runs w (mark_processed d.delivery_id w) (processed-runs d.delivery_id w) c)
        ]

  upsert_repository-runs : (w : World) → (upsert_repository random d w).1.runs ≡ w.runs
  unfolding upsert_repository
  upsert_repository-runs w = ground arith

  upsert_pull_request-runs :
      (repository_id : String) (w : World)
      → (upsert_pull_request random d repository_id w).1.runs ≡ w.runs
  unfolding upsert_pull_request
  upsert_pull_request-runs repository_id w = ground arith

  redelivered-runs : (row : WebhookEventRow) (w : World) → (redelivered d row w).1.runs ≡ w.runs
  unfolding redelivered
  redelivered-runs row w = ground arith

  receive_new-Bounded : (w : World) → Bounded w → Bounded (receive_new random d w).1
  unfolding receive_new insert_event set_event_repository
  receive_new-Bounded w c =
      bind-keeps Bounded (upsert_repository random d)
        (λ repository_id.
          modify (set_event_repository d.delivery_id repository_id)
          >> (upsert_pull_request random d repository_id >>= run_for random d repository_id))
        (λ v b. subst-runs v (upsert_repository random d v).1 (upsert_repository-runs v) b)
        (λ repository_id v b.
          bind-keeps Bounded (upsert_pull_request random d repository_id)
            (run_for random d repository_id)
            (λ u a.
              subst-runs u (upsert_pull_request random d repository_id u).1
                (upsert_pull_request-runs repository_id u) a)
            (λ pull_request_id u a. run_for-Bounded repository_id pull_request_id u a)
            (set_event_repository d.delivery_id repository_id v) b)
        (insert_event d w) c

  pub receive-Bounded : (w : World) → Bounded w → Bounded (receive random d w).1
  unfolding receive
  receive-Bounded w c = elim (Option-cases (find? (has_delivery d.delivery_id) w.webhook_events)) [
    | inl absent ↦ rw (absent, receive) (receive_new-Bounded w c)
    | inr (row, found) ↦
        rw (found, receive) (subst-runs w (redelivered d row w).1 (redelivered-runs row w) c)
  ]
