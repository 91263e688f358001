-- ===== src/Gitea/Leases.antt =====
-- The leases of apps/worker/src/gitea/sync.ts: who publishes a row, and what the publication leaves in it.
use code_host.Prelude.{
  ℕ, suc, ◌+◌, ◌≤◌, String, Option, true, false, none, some, find?, count, update, ==-refl,
  if◌then◌else◌, ◌≡◌, refl, ap, sym, subst, ◌∙◌, arith, find?-update, find?-holds,
}
use mathlib.Core.Option
use code_host.Prelude.Result.{Result, ok, err}
use code_host.Prelude.Text.{clip}
use code_host.Database.Tables.{synced, SyncRow, World}
use code_host.Database.Effects.{Fault}
use code_host.Database.Counting.{update-none}
use code_host.Guard.Leases.{find?-update_self}
use code_host.Gitea.{Server}
use code_host.Gitea.Exchange.{Written, on_comment, on_status, repository_parts, write_artifact}
use code_host.Gitea.Publisher.{
  lease_ms, SyncKey, is_sync, may_claim, find_sync, claimed_sync, claim, failed_sync, synced_row,
  is_held_sync, mark_synced, fail_sync, finish, publish_claimed, publish,
}

claim-closed :
    (key : SyncKey) (w : World) (row : SyncRow)
    → find_sync key w ≡ some row
    → may_claim w.now row ≡ false
    → claim key w ≡ (none, w)
unfolding claim
claim-closed key w row found closed = rw (found, claim) (rw closed refl)

abbrev pub claimed_world : SyncKey → World → World
claimed_world key w = record w {
  gitea_syncs = update (is_sync key) (claimed_sync (w.now + lease_ms)) w.gitea_syncs;
}

abbrev leased_row : World → SyncRow → SyncRow
leased_row w row = record row { lease_until = some (w.now + lease_ms) }

claim-open :
    (key : SyncKey) (w : World) (row : SyncRow)
    → find_sync key w ≡ some row
    → may_claim w.now row ≡ true
    → claim key w ≡ (some (leased_row w row), claimed_world key w)
unfolding claim
claim-open key w row found free = rw (found, claim) (rw free refl)

find_sync-claimed :
    (key : SyncKey) (w : World) (row : SyncRow)
    → find_sync key w ≡ some row
    → find_sync key (claimed_world key w) ≡ some (claimed_sync (w.now + lease_ms) row)
unfolding claimed_sync
find_sync-claimed key w row found =
    find?-update_self (is_sync key) (claimed_sync (w.now + lease_ms)) (λ a. refl) w.gitea_syncs
      found

-- From a claim until its lease runs out, no other publisher claims the row, and a refused claim changes
-- nothing, as long as the row is as the first claim left it.
pub claim-excludes :
    (key : SyncKey) (w later : World) (row : SyncRow)
    → find_sync key w ≡ some row
    → may_claim w.now row ≡ true
    → find_sync key later ≡ find_sync key (claim key w).1
    → later.now ≤ w.now + lease_ms
    → claim key later ≡ (none, later)
unfolding claimed_sync
claim-excludes key w later row found free same soon =
    let kept = (rw (claim-open key w row found free) at same) ∙ find_sync-claimed key w row found in
    claim-closed key later (claimed_sync (w.now + lease_ms) row) kept (ground arith)

synced_row-key :
    (key : SyncKey) (written : Written) (now : ℕ) (r : SyncRow)
    → is_sync key (synced_row written now r) ≡ is_sync key r
unfolding synced_row
synced_row-key key (on_comment id) now r = refl
synced_row-key key (on_status id) now r = refl

-- The id that Gitea answered, where it is a comment's, and where it is a status's.
abbrev pub comment_of : Written → SyncRow → Option ℕ
comment_of (on_comment id) row = some id
comment_of (on_status id) row = row.comment_id

abbrev pub status_of : Written → SyncRow → Option ℕ
status_of (on_comment id) row = row.external_status_id
status_of (on_status id) row = some id

synced-columns :
    (written : Written) (now until : ℕ) (row : SyncRow)
    → synced_row written now (claimed_sync until row) ≡ record row {
      sync_status = synced;
      synced_at = some now;
      attempts = suc row.attempts;
      lease_until = none;
      last_sync_error = none;
      comment_id = comment_of written row;
      external_status_id = status_of written row;
    }
unfolding synced_row claimed_sync
synced-columns (on_comment id) now until row = refl
synced-columns (on_status id) now until row = refl

finish-lost :
    (message : Fault → String) (key : SyncKey) (until attempts : ℕ) (result : Result Fault Written)
    (v : World)
    → count (is_held_sync key until) v.gitea_syncs ≡ 0
    → finish message key until attempts result v ≡ v
unfolding finish mark_synced fail_sync
finish-lost message key until attempts (ok written) v lost =
    rw (update-none (is_held_sync key until) (synced_row written v.now) v.gitea_syncs lost) refl
finish-lost message key until attempts (err e) v lost =
    rw
      (update-none (is_held_sync key until) (failed_sync (clip 512 (message e)) attempts v.now)
        v.gitea_syncs lost)
      refl

module _ {G : Type 0} (server : Server G) (message : Fault → String) (meanwhile : World → World)
    (key : SyncKey) (full_name : String) (number : ℕ) where
  -- A row that is SYNCED, not yet due, or under another publisher's lease is not published: neither the
  -- database nor Gitea changes.
  pub publish_sync-skips :
      (w : World) (g : G) (row : SyncRow)
      → find_sync key w ≡ some row
      → may_claim w.now row ≡ false
      → publish server message meanwhile key full_name number w g ≡ (w, g)
  unfolding publish publish_claimed
  publish_sync-skips w g row found closed =
      rw (claim-closed key w row found closed, publish_claimed) refl

  module _ (w : World) (g : G) (row : SyncRow) (found : find_sync key w ≡ some row)
      (free : may_claim w.now row ≡ true) where
    abbrev answer : Result Fault Written
    answer = (write_artifact server (leased_row w row) number (repository_parts full_name) g).0

    publish-finish :
        (publish server message meanwhile key full_name number w g).0
        ≡ finish message key
            (w.now + lease_ms)
            row.attempts
            answer
            (meanwhile (claimed_world key w))
    unfolding publish publish_claimed
    publish-finish = rw (claim-open key w row found free) refl

    -- What a write of the row under its lease leaves.
    find_sync-written :
        (f : SyncRow → SyncRow) (v : World)
        → ((r : SyncRow) → is_sync key (f r) ≡ is_sync key r)
        → find_sync key v ≡ some (claimed_sync (w.now + lease_ms) row)
        → find? (is_sync key) (update (is_held_sync key (w.now + lease_ms)) f v.gitea_syncs)
          ≡ some (f (claimed_sync (w.now + lease_ms) row))
    unfolding claimed_sync
    find_sync-written f v same held =
        find?-update (is_sync key) (is_held_sync key (w.now + lease_ms)) f (λ a _. same a)
          v.gitea_syncs
        ∙ ap (Option.map (λ r. if is_held_sync key (w.now + lease_ms) r then f r else r)) held
        ∙ (rw (find?-holds (is_sync key) v.gitea_syncs held, ==-refl (w.now + lease_ms)) refl)

    abbrev after_claim : World
    after_claim = meanwhile (claim key w).1

    claimed-world : claimed_world key w ≡ (claim key w).1
    claimed-world = ap (λ r. r.1) (sym (claim-open key w row found free))

    -- A row that was due and is as the claim left it when Gitea has answered is SYNCED at that time, with
    -- the id of the comment or of the status that Gitea answered, without a lease or an error, and one more
    -- attempt counted; nothing else of it changes.
    pub publish-syncs :
        (written : Written)
        → answer ≡ ok written
        → find_sync key after_claim ≡ find_sync key (claim key w).1
        → find_sync key (publish server message meanwhile key full_name number w g).0
          ≡ some (record row {
            sync_status = synced;
            synced_at = some after_claim.now;
            attempts = suc row.attempts;
            lease_until = none;
            last_sync_error = none;
            comment_id = comment_of written row;
            external_status_id = status_of written row;
          })
    unfolding finish mark_synced
    publish-syncs written answered =
        subst
          (λ v.
            find_sync key (meanwhile v) ≡ find_sync key v
            → find_sync key (publish server message meanwhile key full_name number w g).0
              ≡ some (record row {
                sync_status = synced;
                synced_at = some (meanwhile v).now;
                attempts = suc row.attempts;
                lease_until = none;
                last_sync_error = none;
                comment_id = comment_of written row;
                external_status_id = status_of written row;
              }))
          claimed-world
          (λ kept.
            let now = (meanwhile (claimed_world key w)).now in
            rw publish-finish (
              rw answered (
                find_sync-written (synced_row written now) (meanwhile (claimed_world key w))
                  (synced_row-key key written now) (kept ∙ find_sync-claimed key w row found)
                ∙ ap some (synced-columns written now (w.now + lease_ms) row))))

    -- A publisher that lost its lease while Gitea answered writes nothing more to the database, however Gitea
    -- has answered.
    pub lost_sync_lease_writes_nothing :
        count (is_held_sync key (w.now + lease_ms)) (meanwhile (claimed_world key w)).gitea_syncs
          ≡ 0
        → (publish server message meanwhile key full_name number w g).0
          ≡ meanwhile (claimed_world key w)
    lost_sync_lease_writes_nothing lost = rw publish-finish (
        finish-lost message key (w.now + lease_ms) row.attempts answer
          (meanwhile (claimed_world key w)) lost)
