-- ===== src/Gitea/Exchange.antt =====
-- apps/worker/src/gitea/sync.ts: how the comment or the status that a row of gitea_syncs asks for is
-- found in Gitea, created or updated.
use code_host.Prelude.{
  ℕ, String, Bool, true, false, List, Option, none, some, find?, or_else, str_eq, ◌==◌, ◌&&◌, ◌||◌,
  if◌then◌else◌,
}
use Prim.Native.Char.{code}
use text.Mathlib.Text.{starts_with}
use code_host.Prelude.Result.{Result, ok, err}
use code_host.Database.Tables.{SyncRow}
use code_host.Database.Effects.{Fault, thrown}
use code_host.Gitea.{
  IssueComment, CommitStatus, Remote, ◌>=◌, refuse, Server, list_issue_comments,
  create_issue_comment, update_issue_comment, list_commit_statuses, create_commit_status,
}

abbrev pub comment_marker_prefix : String
comment_marker_prefix = "<!-- platform-run:"

-- What stands before the first `/`, and what stands after it.
unfoldable pub split_at_slash : String → Option (String × String)
split_at_slash String.[] = none
split_at_slash (String.◌∷◌ c s) =
    let rest = split_at_slash s in
    if code c == 47
    then some ("", s)
    else elim rest [ none ↦ none | some parts ↦ some (String.◌∷◌ c parts.0, parts.1) ]

unfoldable pub is_slashed : String → Bool
unfolding split_at_slash
is_slashed s = elim (split_at_slash s) [ none ↦ false | some parts ↦ true ]

unfoldable pub repository_parts : String → Result Fault (String × String)
unfolding is_slashed
repository_parts full_name = elim (split_at_slash full_name) [
  | none ↦ err (thrown "repository full name is invalid")
  | some parts ↦
      if str_eq parts.0 "" || (str_eq parts.1 "" || is_slashed parts.1)
      then err (thrown "repository full name is invalid")
      else ok parts
]

abbrev pub same_target_url : Option String → Option String → Bool
same_target_url actual desired = str_eq (or_else actual "") (or_else desired "")

unfoldable pub is_status_state : String → Bool
is_status_state value =
    str_eq value "pending"
    || (str_eq value "success" || (str_eq value "failure" || str_eq value "error"))

abbrev pub matches_status : SyncRow → CommitStatus → Bool
matches_status sync status =
    str_eq status.context sync.context
    && (str_eq status.state sync.desired_state
        && (str_eq status.description sync.desired_description
            && same_target_url status.target_url sync.desired_target_url))

unfoldable pub find_matching_status : List CommitStatus → SyncRow → Option CommitStatus
find_matching_status statuses sync = find? (matches_status sync) statuses

-- `text.split("\n", 1)[0]`
unfoldable pub first_line : String → String
first_line String.[] = ""
first_line (String.◌∷◌ c s) =
    let rest = first_line s in if code c == 10 then "" else String.◌∷◌ c rest

abbrev pub has_marker : String → IssueComment → Bool
has_marker marker comment = str_eq (first_line comment.body) marker

unfoldable pub find_comment : List IssueComment → String → Option IssueComment
unfolding first_line
find_comment comments body =
    if starts_with (first_line body) comment_marker_prefix
    then find? (has_marker (first_line body)) comments
    else none

-- What the writes of Gitea leave in the row.
pub data Written : Type 0 where
  on_comment on_status : ℕ → Written

module _ {G : Type 0} (server : Server G) where
  unfoldable pub keep_or_write :
      String → String → ℕ → String → Option IssueComment → Remote G IssueComment
  unfolding create_issue_comment update_issue_comment
  keep_or_write owner repository number body none =
      create_issue_comment server owner repository number body
  keep_or_write owner repository number body (some existing) =
      if str_eq existing.body body
      then (λ g. (ok existing, g))
      else update_issue_comment server existing.id body

  unfoldable pub write_comment : String → String → ℕ → String → Remote G IssueComment
  unfolding keep_or_write find_comment list_issue_comments
  write_comment owner repository number body =
      list_issue_comments server owner repository number >= λ comments.
      keep_or_write owner repository number body (find_comment comments body)

  unfoldable pub keep_or_create :
      String → String → SyncRow → Option CommitStatus → Remote G CommitStatus
  unfolding create_commit_status is_status_state
  keep_or_create owner repository sync (some existing) = λ g. (ok existing, g)
  keep_or_create owner repository sync none =
      if is_status_state sync.desired_state
      then create_commit_status server record {
        owner = owner;
        repository = repository;
        sha = sync.head_sha;
        context = sync.context;
        state = sync.desired_state;
        description = sync.desired_description;
        target_url = sync.desired_target_url;
      }
      else refuse "Gitea status state is invalid"

  unfoldable pub write_status : String → String → SyncRow → Remote G CommitStatus
  unfolding keep_or_create find_matching_status list_commit_statuses
  write_status owner repository sync =
      list_commit_statuses server owner repository sync.head_sha >= λ statuses.
      keep_or_create owner repository sync (find_matching_status statuses sync)

  unfoldable pub write_artifact : SyncRow → ℕ → Result Fault (String × String) → Remote G Written
  unfolding write_comment write_status
  write_artifact sync number (err e) = λ g. (err e, g)
  write_artifact sync number (ok parts) =
      if str_eq sync.artifact_type "comment"
      then (write_comment parts.0 parts.1 number sync.desired_body >= λ comment.
          λ g. (ok (on_comment comment.id), g))
      else (write_status parts.0 parts.1 sync >= λ status. λ g. (ok (on_status status.id), g))
