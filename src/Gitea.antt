-- ===== src/Gitea.antt =====
-- apps/worker/src/gitea/client.ts: the requests to Gitea for the comments of a pull request and for
-- the statuses of a commit. A parameter answers each HTTP request, with Gitea's own state `G`.
pub mod Paging
pub mod Exchange
pub mod Publisher
pub mod Settled
pub mod Comments
pub mod Names
pub mod Backoff
pub mod Leases
pub mod Frames
use code_host.Prelude.{
  ℕ, zero, suc, ◌+◌, ◌-◌, String, Bool, true, false, List, [], ◌∷◌, ◌++◌, Option, str_eq, length,
  ltb, leb, ◌==◌, ◌&&◌, ◌||◌, not, if◌then◌else◌,
}
use Prim.Native.Char.{code, len_utf8}
use Prim.Native.String
use Prim.Native.String.{len}
use code_host.Prelude.Text.{◌++◌ as append}
use code_host.Prelude.Result.{Result, ok, err}
use code_host.Database.Effects.{Fault, thrown}

pub record IssueComment : Type 0 where
  pub id : ℕ
  pub body : String

pub record CommitStatus : Type 0 where
  pub id : ℕ
  pub context : String
  pub state : String
  pub description : String
  pub target_url : Option String

-- The argument of `createCommitStatus`.
pub record StatusRequest : Type 0 where
  pub owner : String
  pub repository : String
  pub sha : String
  pub context : String
  pub state : String
  pub description : String
  pub target_url : Option String

-- An exchange with Gitea, which may throw.
abbrev pub Remote {ℓ} : Type 0 → Type ℓ → Type ℓ
Remote G A = G → Result Fault A × G

module _ {ℓ κ} {A : Type ℓ} {B : Type κ} {G : Type 0} where
  abbrev pub proceed : Result Fault A → (A → Remote G B) → Remote G B
  proceed (ok a) f g = f a g
  proceed (err e) f g = (err e, g)

  infixl 5 ◌>=◌
  abbrev pub ◌>=◌ : Remote G A → (A → Remote G B) → Remote G B
  ◌>=◌ m f g = proceed (m g).0 f (m g).1

-- What answers the HTTP requests, their answers parsed: a page of a list, by the page's number, and
-- the writes.
pub record Server (G : Type 0) : Type 0 where
  pub comment_page : String → String → ℕ → ℕ → Remote G (List IssueComment)
  pub post_comment : String → String → ℕ → String → Remote G IssueComment
  pub patch_comment : ℕ → String → Remote G IssueComment
  pub status_page : String → String → String → ℕ → Remote G (List CommitStatus)
  pub post_status : StatusRequest → Remote G CommitStatus

-- `value.includes('/') || /[\u0000-\u001f\u007f]/.test(value)`
has_bad_char : String → Bool
has_bad_char String.[] = false
has_bad_char (String.◌∷◌ c s) =
    let rest = has_bad_char s in code c == 47 || (ltb (code c) 32 || (code c == 127 || rest))

-- `encodeSegment`, which is asked of each part of a path before the request is sent.
unfoldable pub is_segment : String → Bool
unfolding has_bad_char
is_segment value =
    not (str_eq value "" || (str_eq value "." || (str_eq value ".." || has_bad_char value)))

-- `Number.isSafeInteger(n) && n >= 1 && n <= 2_147_483_647`
abbrev pub is_issue_number : ℕ → Bool
is_issue_number n = leb 1 n && leb n 2147483647

-- The characters of the first `n` bytes; a character that is cut is replaced as `toString` does.
first_bytes : ℕ → String → String
first_bytes n String.[] = ""
first_bytes zero (String.◌∷◌ c s) = ""
first_bytes (suc n) (String.◌∷◌ c s) =
    let rest = first_bytes (suc n - len_utf8 c) s in
    if leb (len_utf8 c) (suc n) then String.◌∷◌ c rest else "�"

unfoldable pub bounded_description : String → String
unfolding first_bytes
bounded_description value =
    if leb (len value) 140 then value else append (first_bytes 137 value) "..."

module _ {A : Type 0} {G : Type 0} where
  -- The loop over the pages, with the number of pages that may still be read.
  unfoldable pub collect_pages : (ℕ → Remote G (List A)) → ℕ → ℕ → List A → Remote G (List A)
  collect_pages page zero at values = λ g. (ok values, g)
  collect_pages page (suc n) at values = page at >= λ items.
      let more = collect_pages page n (suc at) (values ++ items) in
      if ltb (length items) 50 then (λ g. (ok (values ++ items), g)) else more

  abbrev pub refuse : String → Remote G A
  refuse reason g = (err (thrown reason), g)

module _ {G : Type 0} (server : Server G) where
  unfoldable pub list_issue_comments : String → String → ℕ → Remote G (List IssueComment)
  unfolding collect_pages
  list_issue_comments owner repository number =
      if not (is_issue_number number)
      then refuse "Gitea issue number is invalid"
      else collect_pages
          (λ at.
            if is_segment owner && is_segment repository
            then server.comment_page owner repository number at
            else refuse "Gitea path is invalid")
          10 1 []

  unfoldable pub create_issue_comment : String → String → ℕ → String → Remote G IssueComment
  create_issue_comment owner repository number body =
      if not (is_issue_number number)
      then refuse "Gitea issue number is invalid"
      else if is_segment owner && is_segment repository
      then server.post_comment owner repository number body
      else refuse "Gitea path is invalid"

  unfoldable pub update_issue_comment : ℕ → String → Remote G IssueComment
  update_issue_comment id body =
      if leb 1 id then server.patch_comment id body else refuse "Gitea comment ID is invalid"

  unfoldable pub list_commit_statuses : String → String → String → Remote G (List CommitStatus)
  unfolding collect_pages
  list_commit_statuses owner repository sha =
      collect_pages
        (λ at.
          if is_segment owner && (is_segment repository && is_segment sha)
          then server.status_page owner repository sha at
          else refuse "Gitea path is invalid")
        10 1 []

  unfoldable pub create_commit_status : StatusRequest → Remote G CommitStatus
  unfolding bounded_description
  create_commit_status r =
      if is_segment r.owner && (is_segment r.repository && is_segment r.sha)
      then server.post_status (record r { description = bounded_description r.description })
      else refuse "Gitea path is invalid"
