-- ===== src/Scenarios/Comments.antt =====
-- The publisher of apps/worker/src/gitea/sync.ts with a Gitea that has room for one comment.
use code_host.Prelude.{
  ℕ, zero, suc, ◌+◌, ◌≤◌, ◌*◌, String, List, [], ◌∷◌, Option, none, some, count, take, drop, ◌≡◌,
  inl, refl, arith,
}
use code_host.Prelude.Result.{Result, ok, err}
use code_host.Database.Tables.{SyncRow, to_sync, synced, World}
use code_host.Database.Effects.{Fault, thrown}
use code_host.Gitea.{is_segment, IssueComment, Server, refuse, collect_pages}
use code_host.Gitea.Exchange.{
  write_artifact, first_line, on_comment, write_comment, repository_parts,
}
use code_host.Gitea.Paging.{IsRead, collect_pages-all}
use code_host.Gitea.Settled.{IsPosted, posted, not_posted, IsPatched, patched, IsSettled, has_id}
use code_host.Gitea.Comments.{KeepsComments, write_comment-IsSettled, write_comment-again}
use code_host.Gitea.Publisher.{SyncKey, find_sync, claimed_sync, claim, publish}
use code_host.Gitea.Leases.{claimed_world, publish-syncs, lost_sync_lease_writes_nothing}
use code_host.Scenarios.Data.{world_with}

-- The body of the comment, if there is one.
abbrev OneComment : Type 0
OneComment = Option String

abbrev comment_with : String → IssueComment
comment_with body = record { id = 1; body = body }

abbrev kept_comments : String → String → ℕ → OneComment → List IssueComment
kept_comments owner repository n none = []
kept_comments owner repository n (some body) = comment_with body ∷ []

abbrev page_of : ℕ → List IssueComment → List IssueComment
page_of zero cs = cs
page_of (suc k) cs = take 50 (drop (50 * k) cs)

abbrev post_one : String → OneComment → Result Fault IssueComment × OneComment
post_one body none = (ok (comment_with body), some body)
post_one body (some old) = (err (thrown "full"), some old)

abbrev patch_one : String → OneComment → Result Fault IssueComment × OneComment
patch_one body none = (err (thrown "not found"), none)
patch_one body (some old) = (ok (comment_with body), some body)

abbrev one_comment_server : Server OneComment
one_comment_server = record {
  comment_page =
      λ owner repository n at g. (ok (page_of at (kept_comments owner repository n g)), g);
  post_comment = λ owner repository n body g. post_one body g;
  patch_comment = λ id body g. patch_one body g;
  status_page = λ owner repository sha at g. (ok [], g);
  post_status = λ r. refuse "no statuses";
}

keeps_one : KeepsComments one_comment_server kept_comments
keeps_one = record {
  unique = unique;
  lists = λ owner repository n g. record { reads = λ k. refl; answers = λ k. inl refl };
  posts = posts;
  patches = patches;
}
  where
    unique :
        (owner repository : String) (n : ℕ) (g : OneComment) (id : ℕ)
        → count (has_id id) (kept_comments owner repository n g) ≤ 1
    unique owner repository n none id = ground arith
    unique owner repository n (some body) id = ground arith

    posts :
        (owner repository : String) (n : ℕ) (body : String) (g : OneComment)
        → IsPosted body
            (kept_comments owner repository n g)
            (kept_comments owner repository n (post_one body g).1)
            (post_one body g).0
    posts owner repository n body none = posted (comment_with body) refl refl
    posts owner repository n body (some old) = not_posted (thrown "full") refl

    patches :
        (owner repository : String) (n : ℕ) (id : ℕ) (body : String) (g : OneComment)
        → 1 ≤ count (has_id id) (kept_comments owner repository n g)
        → IsPatched id body
            (kept_comments owner repository n g)
            (kept_comments owner repository n (patch_one body g).1)
            (patch_one body g).0
    patches owner repository n id body none there = ground arith
    patches owner repository n id body (some old) there = patched (comment_with body) (ground arith)

abbrev quality_body : String
quality_body = "<!-- platform-run:r1:attempt:1:head:abc:quality -->\nall is well"

abbrev publish_comment : OneComment → Result Fault IssueComment × OneComment
publish_comment = write_comment one_comment_server "team" "app" 12 quality_body

write_comment-IsSettled_example :
    IsSettled quality_body
      (kept_comments "team" "app" 12 (publish_comment none).1)
      (publish_comment none).0
unfolding first_line
write_comment-IsSettled_example =
    write_comment-IsSettled one_comment_server kept_comments keeps_one "team" "app" 12 quality_body
      none refl (omega arith) (omega arith)

write_comment-again_example : (publish_comment (some quality_body)).1 ≡ some quality_body
unfolding first_line write_comment is_segment
write_comment-again_example =
    write_comment-again one_comment_server kept_comments keeps_one "team" "app" 12 quality_body none
      (some quality_body) (comment_with quality_body) refl (omega arith) (omega arith) refl refl
      (omega arith)

collect_pages-all_example :
    IsRead
      (comment_with "hello" ∷ [])
      (some "hello")
      (collect_pages (one_comment_server.comment_page "team" "app" 12) 10 1 [] (some "hello"))
collect_pages-all_example =
    collect_pages-all (one_comment_server.comment_page "team" "app" 12) (some "hello")
      (comment_with "hello" ∷ []) (keeps_one.lists "team" "app" 12 (some "hello")) (omega arith)

abbrev quality_row : SyncRow
quality_row = record {
  run_id = "r1";
  attempt = 1;
  head_sha = "abc";
  context = "platform/quality-comment";
  artifact_type = "comment";
  desired_hash = "h";
  desired_state = "success";
  desired_description = "";
  desired_target_url = none;
  desired_body = quality_body;
  sync_status = to_sync;
  attempts = 2;
  next_attempt_at = 50;
  lease_until = none;
  external_status_id = none;
  comment_id = none;
  last_sync_error = none;
  synced_at = none;
}

abbrev quality_key : SyncKey
quality_key = record {
  run_id = "r1";
  attempt = 1;
  context = "platform/quality-comment";
  head_sha = "abc";
}

abbrev with_sync : World
with_sync = record (world_with [] []) { gitea_syncs = quality_row ∷ [] }

abbrev text_of : Fault → String
text_of fault = "refused"

-- Ten milliseconds pass until Gitea has answered.
abbrev soon : World → World
soon w = record w { now = w.now + 10 }

-- The lease runs out, and another publisher has dealt with the row.
abbrev taken_over : World → World
taken_over w = record w { gitea_syncs = []; now = w.now + 60000 }

publish-syncs_example :
    find_sync quality_key
      (publish one_comment_server text_of soon quality_key "team/app" 12 with_sync none).0
    ≡ some (record quality_row {
      sync_status = synced;
      synced_at = some 110;
      attempts = 3;
      comment_id = some 1;
    })
unfolding write_artifact repository_parts is_segment claimed_sync claim
publish-syncs_example =
    publish-syncs one_comment_server text_of soon quality_key "team/app" 12 with_sync none
      quality_row refl refl (on_comment 1) refl refl

lost_sync_lease_writes_nothing_example :
    (publish one_comment_server text_of taken_over quality_key "team/app" 12 with_sync none).0
    ≡ taken_over (claimed_world quality_key with_sync)
lost_sync_lease_writes_nothing_example =
    lost_sync_lease_writes_nothing one_comment_server text_of taken_over quality_key "team/app" 12
      with_sync none quality_row refl refl refl
