-- ===== src/Gitea/Settled.antt =====
-- Lists of comments as the requests of apps/worker/src/gitea/client.ts change them: when they have one comment
-- with a marker of apps/worker/src/gitea/sync.ts.
use code_host.Prelude.{
  ℕ, ◌≤◌, String, Bool, true, List, [], ◌∷◌, ◌++◌, none, some, find?, count, update, eq_refl,
  ==-refl, ◌==◌, ◌≡◌, refl, ◌∙◌, arith, find?-append, count-append,
}
use code_host.Prelude.Result.{Result, ok, err}
use code_host.Database.Counting.{update-none}
use code_host.Database.Effects.{Fault}
use code_host.Gitea.{IssueComment}
use code_host.Gitea.Exchange.{first_line, has_marker}

abbrev pub has_id : ℕ → IssueComment → Bool
has_id id comment = comment.id == id

abbrev pub with_body : String → IssueComment → IssueComment
with_body body comment = record comment { body = body }

-- How a creation may end: carried out, carried out with its answer lost, or not carried out.
pub data IsPosted (body : String) (before after : List IssueComment)
    : Result Fault IssueComment → Type 0 where
  posted :
      (c : IssueComment)
      → c.body ≡ body
      → after ≡ before ++ c ∷ []
      → IsPosted body before after (ok c)
  unanswered :
      (e : Fault) (c : IssueComment)
      → c.body ≡ body
      → after ≡ before ++ c ∷ []
      → IsPosted body before after (err e)
  not_posted : (e : Fault) → after ≡ before → IsPosted body before after (err e)

-- How an edit may end.
pub data IsPatched (id : ℕ) (body : String) (before after : List IssueComment)
    : Result Fault IssueComment → Type 0 where
  patched :
      (c : IssueComment)
      → after ≡ update (has_id id) (with_body body) before
      → IsPatched id body before after (ok c)
  patched_unanswered :
      (e : Fault)
      → after ≡ update (has_id id) (with_body body) before
      → IsPatched id body before after (err e)
  not_patched : (e : Fault) → after ≡ before → IsPatched id body before after (err e)

-- At most one comment has the body's marker, and after a success one has the body.
pub record IsSettled (body : String) (after : List IssueComment)
    (result : Result Fault IssueComment) : Type 0 where
  pub one : count (has_marker (first_line body)) after ≤ 1
  pub there :
      (c : IssueComment)
      → result ≡ ok c
      → (kept : IssueComment) × (find? (has_marker (first_line body)) after ≡ some kept)
        × (kept.body ≡ body)

module _ {ℓ} {A : Type ℓ} (p q : A → Bool) (f : A → A) where
  pub count-pos_of_found : (xs : List A) {a : A} → find? p xs ≡ some a → q a ≡ true → 1 ≤ count q xs
  count-pos_of_found [] h k = ground arith
  count-pos_of_found (x ∷ xs) {a} h k = ground (arith, count-pos_of_found xs {a = a})

  module _ (marked : (a : A) → p (f a) ≡ true) where
    -- An update of the one element that a search finds, which it still finds afterwards.
    pub find?-update_found :
        (xs : List A) {a : A}
        → count q xs ≤ 1
        → find? p xs ≡ some a
        → q a ≡ true
        → (find? p (update q f xs) ≡ some (f a)) × (count p (update q f xs) ≡ count p xs)
    find?-update_found [] one h k = ground arith
    find?-update_found (x ∷ xs) {a} one h k = ground (
      arith,
      marked x,
      find?-update_found xs {a = a},
      count-pos_of_found xs {a = a},
      update-none q f xs,
    )

module _ {ℓ} {A : Type ℓ} (p : A → Bool) where
  pub count-zero_of_none : (xs : List A) → find? p xs ≡ none → count p xs ≡ 0
  count-zero_of_none [] h = refl
  count-zero_of_none (x ∷ xs) h = ground (arith, count-zero_of_none xs)

module _ (body : String) where
  abbrev pub marker : IssueComment → Bool
  marker = has_marker (first_line body)

  marker-body : (c : IssueComment) → c.body ≡ body → marker c ≡ true
  marker-body c same = rw same (eq_refl (first_line body))

  pub failure-IsSettled :
      (after : List IssueComment) (e : Fault)
      → count marker after ≤ 1
      → IsSettled body after (err e)
  failure-IsSettled after e one = record { one = one; there = λ c h. ground arith }

  pub posted-IsSettled :
      (before after : List IssueComment) {result : Result Fault IssueComment}
      → IsPosted body before after result
      → find? marker before ≡ none
      → IsSettled body after result
  posted-IsSettled before after (posted c same grown) absent = record {
    one = rw grown (
        ground
          (arith, count-append marker before (c ∷ []), count-zero_of_none marker before absent));
    there = λ d h. (
      c,
      rw grown (find?-append marker before (c ∷ []) absent ∙ (rw (marker-body c same) refl)),
      same,
    );
  }
  posted-IsSettled before after (unanswered e c same grown) absent = failure-IsSettled after e (
      rw grown (
        ground
          (arith, count-append marker before (c ∷ []), count-zero_of_none marker before absent)))
  posted-IsSettled before after (not_posted e same) absent =
      failure-IsSettled after e (rw same (ground (arith, count-zero_of_none marker before absent)))

  module _ (before after : List IssueComment) (existing : IssueComment)
      (unique : count (has_id existing.id) before ≤ 1) (found : find? marker before ≡ some existing)
      (one : count marker before ≤ 1) where
    edited :
        (find? marker (update (has_id existing.id) (with_body body) before)
          ≡ some (with_body body existing))
        × (count marker (update (has_id existing.id) (with_body body) before) ≡ count marker before)
    edited =
        find?-update_found marker (has_id existing.id) (with_body body)
          (λ a. marker-body (with_body body a) refl) before unique found (==-refl existing.id)

    pub patched-IsSettled :
        {result : Result Fault IssueComment}
        → IsPatched existing.id body before after result
        → IsSettled body after result
    patched-IsSettled (patched c edits) = record {
      one = rw edits (rw edited.1 one);
      there = λ d h. (with_body body existing, rw edits edited.0, refl);
    }
    patched-IsSettled (patched_unanswered e edits) =
        failure-IsSettled after e (rw edits (rw edited.1 one))
    patched-IsSettled (not_patched e same) = failure-IsSettled after e (rw same one)
