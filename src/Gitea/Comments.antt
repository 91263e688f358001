-- ===== src/Gitea/Comments.antt =====
-- What `publish` of apps/worker/src/gitea/sync.ts leaves among the comments of a pull request, over a
-- server that keeps comments in a list.
use code_host.Prelude.{
  ℕ, ◌≤◌, String, Bool, true, false, List, Option, none, some, find?, count, length, str_eq, eq_iff,
  eq_refl, ==-refl, ◌&&◌, not, leb, if◌then◌else◌, ◌≡◌, inl, inr, refl, ap, ◌∙◌, arith, Bool-cases,
}
use text.Mathlib.Text.{starts_with}
use code_host.Prelude.Result.{Result, ok}
use code_host.Database.Effects.{Fault, thrown}
use code_host.Gitea.{
  IssueComment, Remote, Server, refuse, proceed, is_issue_number, is_segment, list_issue_comments,
  create_issue_comment, update_issue_comment,
}
use code_host.Gitea.Exchange.{
  comment_marker_prefix, first_line, find_comment, keep_or_write, write_comment,
}
use code_host.Gitea.Paging.{IsPaged, IsRead, is_read, is_lost, collect_pages-all}
use code_host.Gitea.Settled.{
  has_id, with_body, IsPosted, IsPatched, IsSettled, count-pos_of_found, count-zero_of_none, marker,
  failure-IsSettled, posted-IsSettled, patched-IsSettled,
}

-- Gitea keeps the comments of a pull request in a list, with unique ids, and lists them in pages.
pub record KeepsComments {G : Type 0} (server : Server G)
    (comments : String → String → ℕ → G → List IssueComment) : Type 0 where
  pub unique :
      (owner repository : String) (n : ℕ) (g : G) (id : ℕ)
      → count (has_id id) (comments owner repository n g) ≤ 1
  pub lists :
      (owner repository : String) (n : ℕ) (g : G)
      → IsPaged (server.comment_page owner repository n) g (comments owner repository n g)
  pub posts :
      (owner repository : String) (n : ℕ) (body : String) (g : G)
      → IsPosted body
          (comments owner repository n g)
          (comments owner repository n (server.post_comment owner repository n body g).1)
          (server.post_comment owner repository n body g).0
  pub patches :
      (owner repository : String) (n : ℕ) (id : ℕ) (body : String) (g : G)
      → 1 ≤ count (has_id id) (comments owner repository n g)
      → IsPatched id body
          (comments owner repository n g)
          (comments owner repository n (server.patch_comment id body g).1)
          (server.patch_comment id body g).0

module _ {G : Type 0} (server : Server G) (comments : String → String → ℕ → G → List IssueComment)
    (keeps : KeepsComments server comments) (owner repository : String) (n : ℕ)
    (body : String) where
  abbrev on_pull_request : G → List IssueComment
  on_pull_request = comments owner repository n

  abbrev Settles : Remote G IssueComment → G → Type 0
  Settles m g = IsSettled body (on_pull_request (m g).1) (m g).0

  if-Settles :
      (b : Bool) (m k : Remote G IssueComment) (g : G)
      → Settles m g
      → Settles k g
      → Settles (if b then m else k) g
  if-Settles true m k g settled other = settled
  if-Settles false m k g settled other = other

  refuse-Settles :
      (reason : String) (g : G)
      → count (marker body) (on_pull_request g) ≤ 1
      → Settles (refuse reason) g
  refuse-Settles reason g one = failure-IsSettled body (on_pull_request g) (thrown reason) one

  create-Settles :
      (g : G)
      → find? (marker body) (on_pull_request g) ≡ none
      → Settles (create_issue_comment server owner repository n body) g
  unfolding create_issue_comment
  create-Settles g absent =
      let none_there : count (marker body) (on_pull_request g) ≤ 1 =
        ground (arith, count-zero_of_none (marker body) (on_pull_request g) absent) in
      let post = server.post_comment owner repository n body in
      let bad_path = refuse {A = IssueComment} {G = G} "Gitea path is invalid" in
      if-Settles (not (is_issue_number n)) (refuse "Gitea issue number is invalid")
        (if is_segment owner && is_segment repository then post else bad_path) g
        (refuse-Settles "Gitea issue number is invalid" g none_there)
        (if-Settles (is_segment owner && is_segment repository) post bad_path g
          (posted-IsSettled body (on_pull_request g) (on_pull_request (post g).1)
            (keeps.posts owner repository n body g) absent)
          (refuse-Settles "Gitea path is invalid" g none_there))

  update-Settles :
      (g : G) (existing : IssueComment)
      → find? (marker body) (on_pull_request g) ≡ some existing
      → count (marker body) (on_pull_request g) ≤ 1
      → Settles (update_issue_comment server existing.id body) g
  unfolding update_issue_comment
  update-Settles g existing found one =
      let patch = server.patch_comment existing.id body in
      if-Settles (leb 1 existing.id) patch (refuse "Gitea comment ID is invalid") g
        (patched-IsSettled body (on_pull_request g) (on_pull_request (patch g).1) existing
          (keeps.unique owner repository n g existing.id) found one
          (keeps.patches owner repository n existing.id body g (
            count-pos_of_found (marker body) (has_id existing.id) (with_body body)
              (on_pull_request g) found (==-refl existing.id))))
        (refuse-Settles "Gitea comment ID is invalid" g one)

  keep_or_write-Settles :
      (g : G)
      → count (marker body) (on_pull_request g) ≤ 1
      → (existing : Option IssueComment) → find? (marker body) (on_pull_request g) ≡ existing
      → Settles (keep_or_write server owner repository n body existing) g
  unfolding keep_or_write
  keep_or_write-Settles g one none absent = create-Settles g absent
  keep_or_write-Settles g one (some existing) found =
      let changed = update-Settles g existing found one in
      elim (Bool-cases (str_eq existing.body body)) [
        | inl same ↦ rw same (record {
          one = one;
          there = λ c h. (existing, found, (eq_iff existing.body body).0 same);
        })
        | inr other ↦ rw other changed
      ]

  IsPaged-if :
      {A : Type 0} (b : Bool) (reason : String) (page : ℕ → Remote G (List A)) (g : G)
      (values : List A)
      → IsPaged page g values
      → IsPaged (λ at. if b then page at else refuse reason) g values
  IsPaged-if true reason page g values paged = paged
  IsPaged-if false reason page g values paged = record {
    reads = λ k. refl;
    answers = λ k. inr (thrown reason, refl);
  }

  -- What a listing answers, if the pull request has at most five hundred comments.
  list-IsRead :
      (g : G)
      → length (on_pull_request g) ≤ 500
      → IsRead (on_pull_request g) g (list_issue_comments server owner repository n g)
  unfolding list_issue_comments
  list-IsRead g short =
      let page : ℕ → Remote G (List IssueComment) = (λ at.
        if is_segment owner && is_segment repository
        then server.comment_page owner repository n at
        else refuse "Gitea path is invalid") in
      let read =
        collect_pages-all page g (on_pull_request g)
          (IsPaged-if (is_segment owner && is_segment repository) "Gitea path is invalid"
            (server.comment_page owner repository n) g (on_pull_request g)
            (keeps.lists owner repository n g))
          short in
      elim (Bool-cases (is_issue_number n)) [
        | inl valid ↦ rw valid read
        | inr invalid ↦ rw invalid (is_lost (thrown "Gitea issue number is invalid"))
      ]

  proceed-Settles :
      (g : G) (f : List IssueComment → Remote G IssueComment)
      {read : Result Fault (List IssueComment) × G}
      → IsRead (on_pull_request g) g read
      → count (marker body) (on_pull_request g) ≤ 1
      → Settles (f (on_pull_request g)) g
      → IsSettled body (on_pull_request (proceed read.0 f read.1).1) (proceed read.0 f read.1).0
  proceed-Settles g f is_read one rest = rest
  proceed-Settles g f (is_lost e) one rest = failure-IsSettled body (on_pull_request g) e one

  -- However the publication of a comment ends, also if its request was carried out and the answer was
  -- lost, at most one comment of the pull request has the marker that the body begins with; and if it
  -- succeeds one has it, with the body. The body begins with a marker of the platform, at most one
  -- comment had it before, and the pull request has at most five hundred comments.
  pub write_comment-IsSettled :
      (g : G)
      → starts_with (first_line body) comment_marker_prefix ≡ true
      → length (on_pull_request g) ≤ 500
      → count (marker body) (on_pull_request g) ≤ 1
      → IsSettled body
          (on_pull_request (write_comment server owner repository n body g).1)
          (write_comment server owner repository n body g).0
  unfolding write_comment find_comment
  write_comment-IsSettled g marks short one =
      proceed-Settles g (λ cs. keep_or_write server owner repository n body (find_comment cs body))
        (list-IsRead g short) one
        (rw (marks, find_comment)
          (keep_or_write-Settles g one (find? (marker body) (on_pull_request g)) refl))

  proceed-still :
      (g : G) (f : List IssueComment → Remote G IssueComment)
      {read : Result Fault (List IssueComment) × G}
      → IsRead (on_pull_request g) g read
      → (f (on_pull_request g) g).1 ≡ g
      → (proceed read.0 f read.1).1 ≡ g
  proceed-still g f is_read rest = rest
  proceed-still g f (is_lost e) rest = refl

  -- A comment that is published is not published again: after a success, a further publication, whose
  -- reading of the comments may fail, leaves Gitea as it is, however often others have changed Gitea
  -- meanwhile, as long as they left the comments alone. The conditions on the body and the comments
  -- are those of the first publication, and the comments are still at most five hundred.
  pub write_comment-again :
      (g later : G) (c : IssueComment)
      → starts_with (first_line body) comment_marker_prefix ≡ true
      → length (on_pull_request g) ≤ 500
      → count (marker body) (on_pull_request g) ≤ 1
      → (write_comment server owner repository n body g).0 ≡ ok c
      → on_pull_request later ≡ on_pull_request (write_comment server owner repository n body g).1
      → length (on_pull_request later) ≤ 500
      → (write_comment server owner repository n body later).1 ≡ later
  unfolding write_comment find_comment keep_or_write
  write_comment-again g later c marks short one success same short_later =
      let (kept, found, kept_body) = (write_comment-IsSettled g marks short one).there c success in
      let found_later = (ap (find? (marker body)) same) ∙ found in
      let same_body : str_eq kept.body body ≡ true = rw kept_body (eq_refl body) in
      proceed-still later
        (λ cs. keep_or_write server owner repository n body (find_comment cs body))
        (list-IsRead later short_later)
        (rw (marks, find_comment) (rw found_later (rw same_body refl)))
