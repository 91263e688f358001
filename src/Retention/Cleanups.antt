-- ===== src/Retention/Cleanups.antt =====
-- What `queueExpiredCleanup` of apps/worker/src/retention.ts does to the outbox and to the runs.
use code_host.Prelude.{
  ℕ, ◌≤◌, ◌<◌, String, Bool, true, false, List, [], ◌∷◌, some, find?, any, keep, take, update,
  str_eq, eq_iff, leb, ◌&&◌, if◌then◌else◌, ◌≡◌, inl, inr, refl, ap, ◌∙◌, arith, Bool-cases,
  find?-append_some, find?-update, find?-holds, find?-some-any,
}
use mathlib.Core.Option
use code_host.Workflow.{cleanup}
use code_host.Database.Tables.{RunRow, OutboxRow, World}
use code_host.Database.Counting.{IsWithinCapacity, update-IsWithinCapacity}
use code_host.Store.{has_id}
use code_host.Outbox.{has_key, find_outbox}
use code_host.Outbox.Publication.{is_claimable}
use code_host.Api.{new_outbox}
use code_host.Api.Cancel.{renewed}
use code_host.Retention.{
  attempts_of, max_cleanup_retries, is_cleanup_candidate, cleanup_key, exceeded, is_renewable,
  upsert_cleanup, queue_cleanup, queue_cleanups, queue_expired_cleanup,
}

renewed-key : (now : ℕ) (r : OutboxRow) → (renewed now r).dedupe_key ≡ r.dedupe_key
unfolding renewed
renewed-key now r = refl

renewing : RunRow → OutboxRow → Bool
renewing run r = has_key (cleanup_key run) r && is_renewable r

find-renewed :
    (run : RunRow) (key : String) (w : World) (row : OutboxRow)
    → find_outbox key w ≡ some row
    → find? (has_key key) (update (renewing run) (renewed w.now) w.outbox)
      ≡ some (if renewing run row then renewed w.now row else row)
find-renewed run key w row found =
    find?-update (has_key key) (renewing run) (renewed w.now)
      (λ a _. ap (λ k. str_eq k key) (renewed-key w.now a)) w.outbox
    ∙ ap (Option.map (λ r. if renewing run r then renewed w.now r else r)) found

upsert_cleanup-other :
    (run : RunRow) (key : String) (w : World) (row : OutboxRow)
    → find_outbox key w ≡ some row
    → str_eq (cleanup_key run) key ≡ false
    → find_outbox key (upsert_cleanup run w).1 ≡ some row
unfolding upsert_cleanup renewing
upsert_cleanup-other run key w row found other =
    let keyed = find?-holds (has_key key) w.outbox found in
    let left : renewing run row ≡ false = ground (
      arith,
      eq_iff row.dedupe_key key,
      eq_iff row.dedupe_key (cleanup_key run),
      eq_iff (cleanup_key run) key,
    ) in
    elim (Bool-cases (any (has_key (cleanup_key run)) w.outbox)) [
      | inl there ↦ rw there (find-renewed run key w row found ∙ (rw left refl))
      | inr absent ↦ rw absent (
          find?-append_some (has_key key) w.outbox
            (new_outbox run run.current_attempt cleanup w.now ∷ []) found)
    ]

queue_cleanup-spent :
    (run : RunRow) (key : String) (w : World) (row : OutboxRow)
    → find_outbox key w ≡ some row
    → max_cleanup_retries ≤ row.attempts
    → find_outbox key (queue_cleanup run w).1 ≡ some row
unfolding queue_cleanup
queue_cleanup-spent run key w row found spent =
    elim (Bool-cases (leb max_cleanup_retries (attempts_of (find_outbox (cleanup_key run) w)))) [
      | inl exceeds ↦ rw exceeds found
      | inr room ↦ elim (Bool-cases (str_eq (cleanup_key run) key)) [
        | inr other ↦ rw room (upsert_cleanup-other run key w row found other)
        | inl same ↦
            let here =
              (ap (λ k. find_outbox k w) ((eq_iff (cleanup_key run) key).0 same)) ∙ found in
            let short = rw here at room in ground arith
      ]
    ]

queue_cleanups-spent :
    (runs : List RunRow) (key : String) (w : World) (row : OutboxRow)
    → find_outbox key w ≡ some row
    → max_cleanup_retries ≤ row.attempts
    → find_outbox key (queue_cleanups runs w).1 ≡ some row
unfolding queue_cleanups
queue_cleanups-spent [] key w row found spent = found
queue_cleanups-spent (run ∷ runs) key w row found spent =
    queue_cleanups-spent runs key (queue_cleanup run w).1 row
      (queue_cleanup-spent run key w row found spent) spent

-- A job that was taken up three times is not queued again: a sweep leaves its row of the outbox as it is.
pub queue_expired_cleanup-spent :
    (key : String) (w : World) (row : OutboxRow)
    → find_outbox key w ≡ some row
    → max_cleanup_retries ≤ row.attempts
    → find_outbox key (queue_expired_cleanup w).1 ≡ some row
unfolding queue_expired_cleanup
queue_expired_cleanup-spent key w row found spent =
    queue_cleanups-spent (take 100 (keep (is_cleanup_candidate w.now) w.runs)) key w row found spent

exceeded-same :
    (attempts now : ℕ) (r : RunRow)
    → ((exceeded attempts now r).id ≡ r.id) × ((exceeded attempts now r).status ≡ r.status)
unfolding exceeded
exceeded-same attempts now r = (refl, refl)

upsert_cleanup-runs : (run : RunRow) (w : World) → (upsert_cleanup run w).1.runs ≡ w.runs
unfolding upsert_cleanup
upsert_cleanup-runs run w = ground arith

queue_cleanup-IsWithinCapacity :
    (run : RunRow) (w : World)
    → IsWithinCapacity w.runs
    → IsWithinCapacity (queue_cleanup run w).1.runs
unfolding queue_cleanup
queue_cleanup-IsWithinCapacity run w c =
    let attempts = attempts_of (find_outbox (cleanup_key run) w) in
    elim (Bool-cases (leb max_cleanup_retries attempts)) [
      | inl exceeds ↦ rw exceeds (
          update-IsWithinCapacity (has_id run.id) (exceeded attempts w.now) w.runs
            (exceeded-same attempts w.now) c)
      | inr room ↦ rw room (rw (upsert_cleanup-runs run w) c)
    ]

queue_cleanups-IsWithinCapacity :
    (runs : List RunRow) (w : World)
    → IsWithinCapacity w.runs
    → IsWithinCapacity (queue_cleanups runs w).1.runs
unfolding queue_cleanups
queue_cleanups-IsWithinCapacity [] w c = c
queue_cleanups-IsWithinCapacity (run ∷ runs) w c =
    queue_cleanups-IsWithinCapacity runs (queue_cleanup run w).1
      (queue_cleanup-IsWithinCapacity run w c)

-- If run ids are unique, at most one run is active and at most three wait, then so it is after a sweep.
pub queue_expired_cleanup-IsWithinCapacity :
    (w : World) → IsWithinCapacity w.runs → IsWithinCapacity (queue_expired_cleanup w).1.runs
unfolding queue_expired_cleanup
queue_expired_cleanup-IsWithinCapacity w c =
    queue_cleanups-IsWithinCapacity (take 100 (keep (is_cleanup_candidate w.now) w.runs)) w c

-- A cleanup that was delivered or that failed less than three times is queued again: its row of the outbox may
-- be claimed by the publisher at once, with the attempts that it has had.
pub queue_cleanup-renews :
    (run : RunRow) (w : World) (row : OutboxRow)
    → find_outbox (cleanup_key run) w ≡ some row
    → row.attempts < max_cleanup_retries
    → is_renewable row ≡ true
    → (find_outbox (cleanup_key run) (queue_cleanup run w).1 ≡ some (renewed w.now row))
      × (is_claimable w.now (renewed w.now row) ≡ true)
      × ((renewed w.now row).attempts ≡ row.attempts)
unfolding queue_cleanup upsert_cleanup renewing renewed
queue_cleanup-renews run w row found few renewable =
    let room : leb max_cleanup_retries row.attempts ≡ false = ground arith in
    let there = find?-some-any (has_key (cleanup_key run)) w.outbox found in
    let mine : renewing run row ≡ true =
      ground (arith, find?-holds (has_key (cleanup_key run)) w.outbox found) in
    (
      rw found
          (rw room (rw there (find-renewed run (cleanup_key run) w row found ∙ (rw mine refl)))),
      ground arith,
      refl,
    )
